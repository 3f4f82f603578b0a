-- ===== src/RemainingLength/RoundTrip.antt =====
-- Encoding and decoding of the remaining length.
use mqtt_s_gateway.Base.{
  ℕ, ◌+◌, ◌/◌, ◌%◌, ◌≡◌, some, [], ◌∷◌, ◌++◌, Str, IsU16, arith, ltb, if◌then◌else◌, low_seven,
  top_bit, set_top_bit,
}
use mqtt_s_gateway.RemainingLength.{RemainingLength, blank, encode, decode, serialize, deserialize}

-- What `encode` leaves behind, in plain arithmetic.
unfoldable pub encoding : ℕ → RemainingLength
encoding n =
    if ltb n 128
    then record { digit = n ∷ 0 ∷ 0 ∷ 0 ∷ []; size = 1 }
    else if ltb n 16384
    then record { digit = (n % 128 + 128) ∷ (n / 128) ∷ 0 ∷ 0 ∷ []; size = 2 }
    else record {
      digit = (n % 128 + 128) ∷ (n / 128 % 128 + 128) ∷ (n / 128 / 128) ∷ 0 ∷ [];
      size = 3;
    }

pub encode-encoding : (n : ℕ) → IsU16 n → encode blank n ≡ some (encoding n)
unfolding encode encoding
encode-encoding n h = ground (arith, set_top_bit (n % 128), set_top_bit (n / 128 % 128))

pub decode-encoding : (n : ℕ) → IsU16 n → decode (encoding n) ≡ some n
unfolding decode encoding
decode-encoding n h = ground (
  arith,
  low_seven n,
  top_bit n,
  low_seven (n % 128 + 128),
  top_bit (n % 128 + 128),
  low_seven (n / 128),
  top_bit (n / 128),
  low_seven (n / 128 % 128 + 128),
  top_bit (n / 128 % 128 + 128),
  low_seven (n / 128 / 128),
  top_bit (n / 128 / 128),
)

pub deserialize-encoding :
    (n : ℕ) (rest : Str)
    → IsU16 n
    → deserialize blank (serialize (encoding n) ++ rest) ≡ some (encoding n)
unfolding deserialize serialize encoding
deserialize-encoding n rest h = ground (
  arith,
  top_bit n,
  top_bit (n % 128 + 128),
  top_bit (n / 128),
  top_bit (n / 128 % 128 + 128),
  top_bit (n / 128 / 128),
)

-- A remaining length below 65536 is encoded, its digits decode to the number, and the bytes that are
-- written for them are read back as the same digits, whatever bytes follow.
pub deserialize-encode :
    (n : ℕ) (rest : Str)
    → IsU16 n
    → (r : RemainingLength) × (encode blank n ≡ some r)
      × (decode r ≡ some n)
      × (deserialize blank (serialize r ++ rest) ≡ some r)
deserialize-encode n rest h =
    (encoding n, encode-encoding n h, decode-encoding n h, deserialize-encoding n rest h)
