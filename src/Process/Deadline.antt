-- ===== src/Process/Deadline.antt =====
-- Semaphore::timedwait of TomyGateway/src/libmq/ProcessFramework.cpp: the time until which it waits.
use mqtt_s_gateway.Base.{ℕ, ◌+◌, ◌*◌, ◌/◌, ◌%◌, ◌≤◌, ◌<◌, ◌≡◌, arith}

pub record Timespec : Type 0 where
  pub tv_sec : ℕ
  pub tv_nsec : ℕ

-- The `ts` that timedwait passes to sem_timedwait, from the time that clock_gettime gave.
unfoldable pub deadline : Timespec → ℕ → Timespec
deadline ts millsec = record {
  tv_sec = ts.tv_sec + millsec / 1000;
  tv_nsec = millsec % 1000 * 1000000;
}

abbrev pub nanoseconds : Timespec → ℕ
nanoseconds ts = ts.tv_sec * 1000000000 + ts.tv_nsec

-- timedwait waits until a time that is earlier than the time asked for by the nanoseconds of the
-- clock's reading, so that with less than that to wait it does not wait at all; the nanoseconds
-- that it passes on are less than a second, whatever the time to wait.
pub deadline-Early :
    (now : Timespec) (millsec : ℕ)
    → (nanoseconds (deadline now millsec) + now.tv_nsec ≡ nanoseconds now + millsec * 1000000)
      × (millsec * 1000000 ≤ now.tv_nsec → nanoseconds (deadline now millsec) ≤ nanoseconds now)
      × ((deadline now millsec).tv_nsec < 1000000000)
unfolding deadline
deadline-Early now millsec = (omega arith, λ few. omega (arith, few), omega arith)
