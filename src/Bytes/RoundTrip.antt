-- ===== src/Bytes/RoundTrip.antt =====
-- What is written in network order is read back.
use mqtt_s_gateway.Base.{ℕ, ◌+◌, ◌*◌, ◌/◌, ◌%◌, ◌^◌, ◌<◌, ◌≡◌, some, ◌++◌, Str, arith, IsU16}
use mqtt_s_gateway.Bytes.{get_uint16, set_uint16, get_long, set_long}

-- A 16-bit number that is written is read back, whatever bytes follow.
pub get_uint16-set_uint16 :
    (n : ℕ) (rest : Str) → IsU16 n → get_uint16 (set_uint16 n ++ rest) 0 ≡ some n
unfolding get_uint16 set_uint16
get_uint16-set_uint16 n rest h = ground arith

-- From the bytes that `setLong` writes for a 32-bit number, `getLong` reads the number with its
-- four bytes in the reverse order.
pub get_long-set_long :
    (n : ℕ) (rest : Str)
    → n < 2 ^ 32
    → get_long (set_long n ++ rest) 0
      ≡ some (n % 256 * 2 ^ 24 + n / 2 ^ 8 % 256 * 2 ^ 16 + n / 2 ^ 16 % 256 * 2 ^ 8 + n / 2 ^ 24)
unfolding get_long set_long
get_long-set_long n rest h = ground arith
