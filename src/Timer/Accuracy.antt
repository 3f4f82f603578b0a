-- ===== src/Timer/Accuracy.antt =====
-- A timer fires within a millisecond of its period.
use mqtt_s_gateway.Base.{ℕ, ◌+◌, ◌*◌, ◌≤◌, ◌<◌, ◌≡◌, true, arith}
use mqtt_s_gateway.Timer.{TimeVal, Timer, is_timeup}

-- A time in microseconds.
abbrev pub micros : TimeVal → ℕ
micros t = t.tv_sec * 1000000 + t.tv_usec

pub record IsTime (t : TimeVal) : Type 0 where
  pub started : 0 < t.tv_sec
  pub below_second : t.tv_usec < 1000000

-- A running timer is up as soon as its period and one more millisecond have passed.
pub is_timeup_late :
    (t : Timer) (now : TimeVal)
    → IsTime t.start_time
    → IsTime now
    → micros t.start_time + 1000 * (t.millis + 1) ≤ micros now
    → is_timeup t now ≡ true
unfolding is_timeup
is_timeup_late t now hs hn late = ground arith

-- A running timer is never up before its period has passed.
pub is_timeup_early :
    (t : Timer) (now : TimeVal)
    → IsTime t.start_time
    → IsTime now
    → is_timeup t now ≡ true
    → micros t.start_time + 1000 * t.millis < micros now
unfolding is_timeup
is_timeup_early t now hs hn up = ground arith
