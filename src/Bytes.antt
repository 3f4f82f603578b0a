-- ===== src/Bytes.antt =====
-- Numbers and texts in network order: getUint16, setUint16, getLong, setLong and utfSerialize of
-- TomyGateway/src/libmq/ProcessFramework.cpp. `x & 0xff` is `x % 256` and `x >> k` is `x / 2 ^ k`.
pub mod RoundTrip
use mqtt_s_gateway.Base.{
  ℕ, ◌+◌, ◌*◌, ◌/◌, ◌%◌, ◌^◌, Option, some, [], ◌∷◌, ◌++◌, Str, u16, get_elem?, length, ◌>>=◌,
}

-- Reads at an offset of a buffer; a read outside of the buffer faults.
unfoldable pub get_uint16 : Str → ℕ → Option ℕ
get_uint16 buf at = do
  high ← get_elem? buf at
  low ← get_elem? buf (at + 1)
  some (u16 (u16 (high * 256) + low))

-- The two bytes that are written at `pos`.
unfoldable pub set_uint16 : ℕ → Str
set_uint16 val = (val / 256 % 256) ∷ (val % 256) ∷ []

-- The first byte is the low one here, unlike in `set_long`.
unfoldable pub get_long : Str → ℕ → Option ℕ
get_long buf at = do
  b3 ← get_elem? buf (at + 3)
  b2 ← get_elem? buf (at + 2)
  b1 ← get_elem? buf (at + 1)
  b0 ← get_elem? buf at
  some ((b3 * 2 ^ 24 + b2 * 2 ^ 16 + b1 * 2 ^ 8) % 2 ^ 32 + b0)

unfoldable pub set_long : ℕ → Str
set_long val = (val / 2 ^ 24 % 256) ∷ (val / 2 ^ 16 % 256) ∷ (val / 2 ^ 8 % 256) ∷ (val % 256) ∷ []

-- The length of the text in two bytes, then the text.
unfoldable pub utf_serialize : Str → Str
utf_serialize str = set_uint16 (u16 (length str)) ++ str
