-- ===== src/Timer.antt =====
-- Class Timer of TomyGateway/src/libmq/ProcessFramework.cpp. The reading of gettimeofday is an
-- argument of each call. `long` is taken to be wide enough for the times.
pub mod Accuracy
use mqtt_s_gateway.Base.{ℕ, ◌+◌, ◌-◌, ◌*◌, ◌/◌, Bool, false, ltb, ◌==◌, if◌then◌else◌}

pub record TimeVal : Type 0 where
  pub tv_sec : ℕ
  pub tv_usec : ℕ

pub record Timer : Type 0 where
  pub start_time : TimeVal
  pub millis : ℕ

-- The constructor calls `stop`.
abbrev pub stopped : Timer
stopped = record { start_time = record { tv_sec = 0; tv_usec = 0 }; millis = 0 }

unfoldable pub start : TimeVal → ℕ → Timer
start now msec = record { start_time = now; millis = msec }

-- `secs + usecs > msec`, where the quotient of the microseconds is cut towards zero. The terms that
-- the source subtracts stand on the other side.
unfoldable pub is_timeup : Timer → TimeVal → Bool
is_timeup t now =
    let gained = (now.tv_usec - t.start_time.tv_usec) / 1000 in
    let missing = (t.start_time.tv_usec - now.tv_usec) / 1000 in
    if t.start_time.tv_sec == 0
    then false
    else ltb (t.millis + t.start_time.tv_sec * 1000 + missing) (now.tv_sec * 1000 + gained)
