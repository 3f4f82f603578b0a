-- ===== src/Socket.antt =====
-- Class Socket of TomyGateway/src/libmq/Socket.cpp: the connection of one client to the broker. What
-- the operating system answers to the calls is an argument.
pub mod Closing
pub mod Serving
use mqtt_s_gateway.Base.{
  ℕ, ◌+◌, ◌-◌, Bool, true, false, not, ◌&&◌, Option, none, some, ltb, if◌then◌else◌,
}

-- `sock` is the descriptor, 0 also for the -1 of a socket that is not open: each test in the source is
-- `_sock > 0`. `sem` is the count of `_sem`, which starts at 0.
pub record Socket : Type 0 where
  pub sock : ℕ
  pub discon_req : Bool
  pub sem : ℕ

-- The constructor.
abbrev pub new_socket : Socket
new_socket = record { sock = 0; discon_req = false; sem = 0 }

-- What the operating system answers: the new descriptor of `socket` (0 if it fails), whether
-- `setsockopt`, `inet_pton` (the test of `errno`) and `connect` succeed, and whether `send` does.
pub record OsAnswers : Type 0 where
  pub descriptor : ℕ
  pub option_set : Bool
  pub family_supported : Bool
  pub connected : Bool
  pub sent : Bool

-- isValid: a requested disconnect is carried out here.
unfoldable pub is_valid : Socket → Bool × Socket
is_valid s =
    if not s.discon_req && ltb 0 s.sock
    then (true, s)
    else if s.discon_req && ltb 0 s.sock
    then (false, record { sock = 0; discon_req = false; sem = s.sem + 1 })
    else (false, s)

-- disconnect up to `_sem.wait()`; the truth value says whether the caller waits there.
unfoldable pub disconnect : Socket → Bool × Socket
disconnect s = if ltb 0 s.sock then (true, record s { discon_req = true }) else (false, s)

-- `_sem.wait()`: `none` as long as it blocks.
unfoldable pub sem_wait : Socket → Option Socket
sem_wait s = if ltb 0 s.sem then some (record s { sem = s.sem - 1 }) else none

-- create
unfoldable pub create : OsAnswers → Socket → Bool × Socket
create os s =
    let valid = is_valid (record s { sock = os.descriptor }) in (valid.0 && os.option_set, valid.1)

-- connect
unfoldable pub connect : OsAnswers → Socket → Bool × Socket
connect os s = let valid = is_valid s in (valid.0 && (os.family_supported && os.connected), valid.1)
