-- ===== src/RemainingLength.antt =====
-- Class RemainingLength of TomyGateway/src/libmq/Messages.cpp: the variable-length size of an MQTT
-- packet, seven bits a byte. A write past the four bytes of `_digit`, or a read past them, faults.
pub mod RoundTrip
use mqtt_s_gateway.Base.{
  ℕ, zero, suc, ◌+◌, ◌*◌, ◌/◌, ◌%◌, Option, none, some, true, false, [], ◌∷◌, Str, u8, u16, bit_and,
  bit_or, ltb, ◌==◌, if◌then◌else◌, set, take, ◌>>=◌,
}

pub record RemainingLength : Type 0 where
  pub digit : Str
  pub size : ℕ

-- The constructor.
abbrev pub blank : RemainingLength
blank = record { digit = 0 ∷ 0 ∷ 0 ∷ 0 ∷ []; size = 0 }

-- `_digit[_size++] = d`
put_digit : RemainingLength → ℕ → Option RemainingLength
put_digit r d =
    if ltb r.size 4
    then some (record { digit = set r.digit r.size d; size = u8 (r.size + 1) })
    else none

-- The do-while loop of `encode`; one unit of fuel is one round.
unfoldable pub encode_loop : ℕ → ℕ → RemainingLength → Option RemainingLength
unfolding put_digit
encode_loop zero len r = none
encode_loop (suc fuel) len r = do
  let digit = len % 128
  r' ← put_digit r (if ltb 0 (len / 128) then bit_or digit 0x80 else digit)
  elim (ltb 0 (len / 128)) [ true ↦ encode_loop fuel (len / 128) r' | false ↦ some r' ]

-- The argument is a uint16_t, so three rounds are enough.
unfoldable pub encode : RemainingLength → ℕ → Option RemainingLength
unfolding encode_loop
encode r len = encode_loop 3 (u16 len) (record r { size = 0 })

-- The loop of `decode` over the digits that are left to read.
unfoldable pub decode_loop : Str → ℕ → ℕ → Option ℕ
decode_loop [] multiplier value = none
decode_loop (digit ∷ rest) multiplier value =
    let value' = u16 (value + bit_and digit 0x7f * multiplier) in
    elim (bit_and digit 0x80 == 0) [
      | true ↦ some value'
      | false ↦ decode_loop rest (u16 (multiplier * 128)) value'
    ]

unfoldable pub decode : RemainingLength → Option ℕ
unfolding decode_loop
decode r = decode_loop r.digit 1 0

-- `memcpy(pos, _digit, _size)`
unfoldable pub serialize : RemainingLength → Str
serialize r = take r.size r.digit

-- The loop of `deserialize` over the bytes at `pos`.
unfoldable pub deserialize_loop : Str → RemainingLength → Option RemainingLength
unfolding put_digit
deserialize_loop [] r = none
deserialize_loop (b ∷ rest) r = do
  r' ← put_digit r b
  elim (bit_and b 0x80 == 0) [ true ↦ some r' | false ↦ deserialize_loop rest r' ]

unfoldable pub deserialize : RemainingLength → Str → Option RemainingLength
unfolding deserialize_loop
deserialize r buf = deserialize_loop buf (record r { size = 0 })
