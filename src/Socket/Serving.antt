-- ===== src/Socket/Serving.antt =====
-- The rest of class Socket of TomyGateway/src/libmq/Socket.cpp: the calls of a server, and the mode
-- of the descriptor. What the operating system answers is an argument.
use mqtt_s_gateway.Base.{
  ℕ, bit_or, ◌≡◌, Bool, true, false, ◌&&◌, Option, some, ltb, if◌then◌else◌, ◌>>=◌, refl, inl, inr,
  Bool-cases,
}
use mqtt_s_gateway.Socket.{Socket, OsAnswers, is_valid, connect}

-- bind and listen, by whether `::bind` or `::listen` succeeds.
unfoldable pub bind : Bool → Socket → Bool × Socket
bind bound s = let valid = is_valid s in (valid.0 && bound, valid.1)

unfoldable pub listen : Bool → Socket → Bool × Socket
listen listens s = let valid = is_valid s in (valid.0 && listens, valid.1)

-- accept: the new socket gets the descriptor that `::accept` returns, 0 if that fails.
unfoldable pub accept : ℕ → Socket → Bool × Socket
accept descriptor new =
    if ltb 0 descriptor
    then (true, record new { sock = descriptor })
    else (false, record new { sock = descriptor })

-- setNonBlocking: the flags that are written to the descriptor, `none` where F_GETFL fails.
-- O_NONBLOCK is the bit `o_nonblock`, and `without` is a number's value without that bit.
unfoldable pub set_non_blocking : (o_nonblock : ℕ) (without : ℕ → ℕ) → Bool → Option ℕ → Option ℕ
set_non_blocking o_nonblock without b opts =
    opts >>= λ flags. some (if b then bit_or flags o_nonblock else without flags)

-- No operation works on a socket whose disconnect was requested: the first one closes it, so that none
-- of bind, listen and connect succeeds, whatever the operating system would answer.
pub closes_first :
    (s : Socket) (bound listens : Bool) (os : OsAnswers)
    → s.discon_req ≡ true
    → ((bind bound s).0 ≡ false)
      × ((listen listens s).0 ≡ false)
      × ((connect os s).0 ≡ false)
      × (ltb 0 (bind bound s).1.sock ≡ false)
unfolding bind listen connect is_valid
closes_first s bound listens os e = elim (Bool-cases (ltb 0 s.sock)) [
  | inl opened ↦ rw (e, opened) (refl, refl, refl, refl)
  | inr closed ↦ rw (e, closed) (refl, refl, refl, closed)
]
