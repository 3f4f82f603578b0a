-- ===== src/Mqtt/RoundTrip.antt =====
-- A PUBLISH, and a PUBACK, that the gateway writes is read back.
use mqtt_s_gateway.Base.{
  Str, IsU16, u16, ◌>>=◌, ℕ, ◌+◌, ◌≤◌, ◌<◌, bit_and, bit_or, ◌≡◌, refl, sym, ap, subst, ◌∙◌, some,
  [], ◌∷◌, ◌++◌, append-nil, arith, length, take, drop, length-append, take-append, drop-append,
  table, u8, suc, ◌-◌, append_assoc, true, agree_below,
}
use mqtt_s_gateway.Bytes.{set_uint16, utf_serialize, get_uint16}
use mqtt_s_gateway.Bytes.RoundTrip.{get_uint16-set_uint16}
use mqtt_s_gateway.Mqtt.{MqttMessage, mqtt_publish, set_message_id, mqtt_pub_ack}
use mqtt_s_gateway.Mqtt.Deserialize.{
  read_block, deserialize_publish_body, deserialize_publish, deserialize_message,
}
use mqtt_s_gateway.Mqtt.Serialize.{with_header, serialize_publish, Written, serialize_message}
use mqtt_s_gateway.Mqtt.Types.{mqtt_type_publish}
use mqtt_s_gateway.RemainingLength.{RemainingLength}
use mqtt_s_gateway.RemainingLength.RoundTrip.{
  encoding, encode-encoding, decode-encoding, deserialize-encoding,
}
use mqtt_s_gateway.RemainingLength

-- The digits of a remaining length are as many as its size says.
pub length-encoding : (n : ℕ) → length (RemainingLength.serialize (encoding n)) ≡ (encoding n).size
unfolding RemainingLength.serialize encoding
length-encoding n = ground arith

pub size-encoding : (n : ℕ) → (1 ≤ (encoding n).size) × ((encoding n).size ≤ 3)
unfolding encoding
size-encoding n = ground arith

-- The written packet: the first byte, the digits of the remaining length, the body.
pub with_header_lem :
    (m : MqttMessage) (first : ℕ) (body : Str)
    → IsU16 m.remain_length
    → with_header m first body
      ≡ some (
        m,
        first ∷ (RemainingLength.serialize (encoding m.remain_length) ++ body),
        u16 (1 + (encoding m.remain_length).size + m.remain_length),
      )
unfolding with_header
with_header_lem m first body h =
    rw (encode-encoding m.remain_length h, ◌>>=◌) (rw (decode-encoding m.remain_length h))

drop_header :
    (n : ℕ) (body : Str)
    → drop (encoding n).size (RemainingLength.serialize (encoding n) ++ body) ≡ body
drop_header n body =
    subst (λ k. drop k (RemainingLength.serialize (encoding n) ++ body) ≡ body) (length-encoding n)
      (drop-append (RemainingLength.serialize (encoding n)) body)

read_block-append : (xs ys : Str) → read_block (length xs) (xs ++ ys) ≡ some xs
unfolding read_block
read_block-append xs ys = ground (arith, take-append xs ys, length-append xs ys)

-- A PUBLISH that can be sent: the fields are in range and the packet fits a 16-bit length.
pub record IsPublish (m : MqttMessage) : Type 0 where
  pub of_type : m.type ≡ mqtt_type_publish
  pub flags_low : m.flags < 16
  pub id_range : IsU16 m.message_id
  pub payload_len : length m.payload ≡ m.len
  pub short_payload : m.len < 256
  pub fits : length m.topic + 4 + m.len < 65536

abbrev pub body_of : MqttMessage → Str
body_of m = utf_serialize m.topic ++ (set_uint16 m.message_id ++ m.payload)

low_flags : (f : ℕ) → f < 16 → bit_or 0x30 (bit_and f 0x0f) ≡ 0x30 + f
unfolding agree_below
low_flags = table 16 _ _ refl

pub first_high : (f : ℕ) → f < 16 → bit_and (0x30 + f) 0xf0 ≡ 0x30
unfolding agree_below
first_high = table 16 _ _ refl

first_low : (f : ℕ) → f < 16 → bit_and (0x30 + f) 0x0f ≡ f
unfolding agree_below
first_low = table 16 _ _ refl

first_byte :
    (m : MqttMessage)
    → IsPublish m
    → bit_or (bit_and m.type 0xf0) (bit_and m.flags 0x0f) ≡ 0x30 + m.flags
first_byte m h = rw (h.of_type) (low_flags m.flags h.flags_low)

abbrev pub publish_length : MqttMessage → ℕ
publish_length m = length m.topic + 4 + m.len

take_payload : (m : MqttMessage) → IsPublish m → take m.len m.payload ≡ m.payload
take_payload m h =
    subst (λ k. take k m.payload ≡ m.payload) h.payload_len
      (ap (take (length m.payload)) (sym (append-nil m.payload)) ∙ take-append m.payload [])

pub serialize_publish_lem :
    (m : MqttMessage)
    → IsPublish m
    → serialize_publish m
      ≡ some (
        record m { remain_length = publish_length m },
        (0x30 + m.flags) ∷ (RemainingLength.serialize (encoding (publish_length m)) ++ body_of m),
        u16 (1 + (encoding (publish_length m)).size + publish_length m),
      )
unfolding serialize_publish
serialize_publish_lem m h =
    let e : u16 (length m.topic + 2 + 2 + m.len) ≡ publish_length m = omega (arith, h.fits) in
    rw (e, first_byte m h, take_payload m h)
      (with_header_lem (record m { remain_length = publish_length m }) (0x30 + m.flags) (body_of m)
        h.fits)

drop_field : (a b : ℕ) (xs ys : Str) → drop (length xs + 2) (a ∷ b ∷ (xs ++ ys)) ≡ ys
drop_field a b xs ys =
    let e : length xs + 2 ≡ suc (suc (length xs)) = omega arith in rw e (drop-append xs ys)

body_shape :
    (m : MqttMessage) (rest : Str)
    → body_of m ++ rest
      ≡ set_uint16 (u16 (length m.topic))
        ++ (m.topic ++ (set_uint16 m.message_id ++ (m.payload ++ rest)))
unfolding utf_serialize
body_shape m rest = simp append_assoc

-- The body is read back field by field.
body_read :
    (m p : MqttMessage) (rest : Str)
    → IsPublish m
    → p.remain_length ≡ publish_length m
    → deserialize_publish_body p (body_of m ++ rest)
      ≡ some (record p {
        topic = m.topic;
        message_id = m.message_id;
        len = m.len;
        payload = m.payload;
      })
unfolding deserialize_publish_body set_uint16
body_read m p rest h e =
    let tail : Str = set_uint16 m.message_id ++ (m.payload ++ rest) in
    let size : u16 (length m.topic) ≡ length m.topic = omega arith in
    let left : u8 (p.remain_length + 65536 - length m.topic - 4) ≡ length m.payload = omega arith in
    rw (body_shape m rest) (
      rw
        (
          get_uint16-set_uint16 (u16 (length m.topic)) (m.topic ++ tail) (omega arith),
          ◌>>=◌,
          size,
          read_block-append m.topic tail,
          ◌>>=◌,
          drop_field _ _ m.topic tail,
          get_uint16-set_uint16 m.message_id (m.payload ++ rest) h.id_range,
          ◌>>=◌,
          left,
          read_block-append m.payload rest,
          ◌>>=◌,
        )
        (ground arith))

-- What the reader makes of a written PUBLISH.
abbrev pub read_back : MqttMessage → MqttMessage
read_back m = record mqtt_publish {
  flags = m.flags;
  remain_length = publish_length m;
  topic = m.topic;
  message_id = m.message_id;
  len = m.len;
  payload = m.payload;
}

pub header_read :
    (m : MqttMessage) (rest : Str)
    → IsPublish m
    → deserialize_publish mqtt_publish (
        (0x30 + m.flags)
        ∷ (RemainingLength.serialize (encoding (publish_length m)) ++ (body_of m ++ rest)))
      ≡ some (read_back m, true)
unfolding deserialize_publish
header_read m rest h =
    let n = publish_length m in
    let body = body_of m ++ rest in
    let skip : 1 + (encoding n).size ≡ suc (encoding n).size = omega arith in
    rw
      (
        first_high m.flags h.flags_low,
        first_low m.flags h.flags_low,
        deserialize-encoding n body h.fits,
        ◌>>=◌,
        decode-encoding n h.fits,
        ◌>>=◌,
        skip,
        drop_header n body,
      )
      (rw (body_read m (record mqtt_publish { flags = m.flags; remain_length = n }) rest h refl))

-- A PUBLISH whose fields are in range is written, and the reader gets the same flags, topic, message
-- id and payload from the bytes, whatever bytes follow them.
pub deserialize_publish-serialize_publish :
    (m : MqttMessage) (rest : Str)
    → IsPublish m
    → (w : Written) × (serialize_publish m ≡ some w)
      × (deserialize_publish mqtt_publish (w.1 ++ rest) ≡ some (read_back m, true))
deserialize_publish-serialize_publish m rest h =
    let bytes =
      (0x30 + m.flags) ∷ (RemainingLength.serialize (encoding (publish_length m)) ++ body_of m) in
    let e : bytes ++ rest
        ≡ (0x30 + m.flags)
          ∷ (RemainingLength.serialize (encoding (publish_length m)) ++ (body_of m ++ rest)) =
      ap (◌∷◌ (0x30 + m.flags))
        (append_assoc (RemainingLength.serialize (encoding (publish_length m))) (body_of m) rest) in
    (_, serialize_publish_lem m h, rw e (header_read m rest h))

-- How long the written PUBLISH is.
pub length-serialize_publish :
    (m : MqttMessage)
    → IsPublish m
    → length m.topic + m.len ≤ 490
    → (w : Written) × (serialize_publish m ≡ some w)
      × (w.2 ≡ length w.1)
      × (0 < w.2)
      × (length w.1 ≤ 498)
length-serialize_publish m h short =
    let n : ℕ = publish_length m in
    let digits : Str = RemainingLength.serialize (encoding n) in
    let topic_len : length (utf_serialize m.topic) ≡ length m.topic + 2 =
      unfold utf_serialize set_uint16 in omega arith in
    let id_len : length (set_uint16 m.message_id ++ m.payload) ≡ m.len + 2 =
      unfold set_uint16 in omega (arith, h.payload_len) in
    let body_len : length (body_of m) ≡ n = omega (
      arith,
      length-append (utf_serialize m.topic) (set_uint16 m.message_id ++ m.payload),
      topic_len,
      id_len,
    ) in
    let all_len : length (digits ++ body_of m) ≡ (encoding n).size + n =
      omega (arith, length-append digits (body_of m), length-encoding n, body_len) in
    let (low, high) = size-encoding n in
    (
      _,
      serialize_publish_lem m h,
      omega (arith, all_len, high, short),
      omega (arith, low, high, short),
      omega (arith, all_len, high, short),
    )

-- The PUBACK that the gateway writes for a message id is read back with that id.
pub deserialize_message-serialize_message :
    (id : ℕ) (rest : Str)
    → IsU16 id
    → (w : Written) × (serialize_message (set_message_id mqtt_pub_ack id) ≡ some w)
      × (w.2 ≡ length w.1)
      × (deserialize_message mqtt_pub_ack (w.1 ++ rest)
          ≡ some (set_message_id mqtt_pub_ack id, true))
unfolding serialize_message deserialize_message RemainingLength.encode RemainingLength.decode
    RemainingLength.serialize RemainingLength.deserialize set_uint16 get_uint16
deserialize_message-serialize_message id rest h = (_, refl, refl, ground arith)
