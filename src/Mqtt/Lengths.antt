-- ===== src/Mqtt/Lengths.antt =====
-- The length that `serialize` returns counts the bytes that it writes.
use mqtt_s_gateway.RemainingLength
use mqtt_s_gateway.Base.{
  Str, ℕ, ◌+◌, bit_and, ◌≡◌, refl, arith, if◌then◌else◌, nonzero, length, length-append, zero, suc,
  ◌≤◌, ◌<◌, ap, Option, some, List, [], ◌∷◌, take,
}
use mqtt_s_gateway.Bytes.{set_uint16, utf_serialize}
use mqtt_s_gateway.Mqtt.{MqttMessage}
use mqtt_s_gateway.Mqtt.RoundTrip.{length-encoding, size-encoding, with_header_lem}
use mqtt_s_gateway.Mqtt.Serialize.{
  Written, optional, connect_body, connect_length, with_header, serialize_unsubscribe,
  serialize_subscribe, serialize_connect, serialize_publish,
}
use mqtt_s_gateway.RemainingLength.RoundTrip.{encoding}

-- A serializer succeeds, and returns the number of bytes that it writes.
abbrev pub Counts : Option Written → Type 0
Counts r = (w : Written) × (r ≡ some w) × (w.2 ≡ length w.1)

pub length-utf_serialize : (s : Str) → length (utf_serialize s) ≡ length s + 2
unfolding utf_serialize set_uint16
length-utf_serialize s = omega arith

pub length-set_uint16 : (n : ℕ) → length (set_uint16 n) ≡ 2
unfolding set_uint16
length-set_uint16 n = refl

length-optional :
    (flags mask : ℕ) (part : Str)
    → length (optional flags mask part) ≡ (if nonzero (bit_and flags mask) then length part else 0)
length-optional flags mask part = ground arith

pub length-connect_body : (m : MqttMessage) → length (connect_body m) ≡ connect_length m
unfolding connect_body connect_length
length-connect_body m =
    simp (length-append, length-utf_serialize, length-set_uint16, length-optional) (ground arith)

with_header-Counts :
    (m : MqttMessage) (first : ℕ) (body : Str)
    → length body ≡ m.remain_length
    → m.remain_length < 65532
    → Counts (with_header m first body)
with_header-Counts m first body e h = (
  _,
  with_header_lem m first body (omega arith),
  omega (
    arith,
    length-append (RemainingLength.serialize (encoding m.remain_length)) body,
    length-encoding m.remain_length,
    size-encoding m.remain_length,
  ),
)

-- A CONNECT whose fields are short enough for the 16-bit remaining length is written,
-- and the length that the serializer returns is the number of bytes that it writes.
pub serialize_connect-Counts :
    (m : MqttMessage) → connect_length m < 65532 → Counts (serialize_connect m)
unfolding serialize_connect
serialize_connect-Counts m h =
    with_header-Counts _ _ (connect_body m) (omega (arith, length-connect_body m)) (omega arith)

-- A SUBSCRIBE whose topic is shorter than 65527 bytes is written,
-- and the length that the serializer returns is the number of bytes that it writes.
pub serialize_subscribe-Counts :
    (m : MqttMessage) → length m.topic < 65527 → Counts (serialize_subscribe m)
unfolding serialize_subscribe
serialize_subscribe-Counts m h =
    with_header-Counts _ _ _
      (simp (length-append, length-set_uint16, length-utf_serialize) (omega arith)) (omega arith)

-- A UNSUBSCRIBE whose topic is shorter than 65528 bytes is written,
-- and the length that the serializer returns is the number of bytes that it writes.
pub serialize_unsubscribe-Counts :
    (m : MqttMessage) → length m.topic < 65528 → Counts (serialize_unsubscribe m)
unfolding serialize_unsubscribe
serialize_unsubscribe-Counts m h =
    with_header-Counts _ _ _
      (simp (length-append, length-set_uint16, length-utf_serialize) (omega arith)) (omega arith)

length-take : {A : Type 0} (n : ℕ) (xs : List A) → n ≤ length xs → length (take n xs) ≡ n
length-take zero xs h = refl
length-take (suc n) [] h = absurd (omega arith)
length-take (suc n) (x ∷ xs) h = ap suc (length-take n xs (omega arith))

-- A PUBLISH that has the payload its length says, and fits the 16-bit remaining length, is written, and
-- the length that the serializer returns is the number of bytes that it writes.
pub serialize_publish-Counts :
    (m : MqttMessage)
    → m.len ≤ length m.payload
    → length m.topic + 4 + m.len < 65532
    → Counts (serialize_publish m)
unfolding serialize_publish
serialize_publish-Counts m p h =
    with_header-Counts _ _ _
      (simp (length-append, length-set_uint16, length-utf_serialize, length-take _ m.payload p)
        (omega arith))
      (omega arith)
