-- ===== src/Mqtt/Serialize.antt =====
-- The `serialize` member functions. Each returns the message (some write `_remainLength`), the bytes
-- that are written from `buf` on, and the returned length.
use mqtt_s_gateway.Base.{
  Str, u16, ℕ, ◌+◌, bit_and, bit_or, Option, some, [], ◌∷◌, ◌++◌, ltb, if◌then◌else◌, nonzero,
  length, take, ◌>>=◌,
}
use mqtt_s_gateway.Bytes.{set_uint16, utf_serialize}
use mqtt_s_gateway.RemainingLength
use mqtt_s_gateway.Mqtt.{MqttMessage}
use mqtt_s_gateway.Mqtt.Types.{mqtt_protocol_name, mqtt_protocol_version}

abbrev pub Written : Type 0
Written = MqttMessage × Str × ℕ

-- The fixed header with the given first byte, then the body.
unfoldable pub with_header : MqttMessage → ℕ → Str → Option Written
with_header m first body = do
  rem_len ← RemainingLength.encode RemainingLength.blank m.remain_length
  n ← RemainingLength.decode rem_len
  some (m, first ∷ (RemainingLength.serialize rem_len ++ body), u16 (1 + rem_len.size + n))

-- MQTTMessage::serialize, which DISCONNECT, PINGREQ and PUBACK use.
unfoldable pub serialize_message : MqttMessage → Option Written
serialize_message m = do
  rem_len ← RemainingLength.encode RemainingLength.blank m.remain_length
  n ← RemainingLength.decode rem_len
  let id = if ltb 0 n then set_uint16 m.message_id else []
  some (
    m,
    bit_or m.type m.flags ∷ (RemainingLength.serialize rem_len ++ id),
    u16 (1 + rem_len.size + n),
  )

-- MQTTUnsubscribe::serialize
unfoldable pub serialize_unsubscribe : MqttMessage → Option Written
unfolding with_header
serialize_unsubscribe m =
    with_header (record m { remain_length = u16 (length m.topic + 4) }) (bit_or m.type m.flags)
      (set_uint16 m.message_id ++ utf_serialize m.topic)

-- MQTTSubscribe::serialize
unfoldable pub serialize_subscribe : MqttMessage → Option Written
unfolding with_header
serialize_subscribe m =
    with_header (record m { remain_length = u16 (length m.topic + 5) }) (bit_or m.type m.flags)
      (set_uint16 m.message_id ++ (utf_serialize m.topic ++ m.qos ∷ []))

-- A part of the CONNECT body that stands there if `_connectFlags` has one of the bits of `mask`.
abbrev pub optional : ℕ → ℕ → Str → Str
optional flags mask part = if nonzero (bit_and flags mask) then part else []

-- The variable header and the payload of CONNECT.
unfoldable pub connect_body : MqttMessage → Str
connect_body m =
    utf_serialize mqtt_protocol_name
    ++ (mqtt_protocol_version ∷ m.connect_flags ∷ [])
    ++ (set_uint16 m.keep_alive_time
        ++ (utf_serialize m.client_id
            ++ (optional m.connect_flags 0x0c
                  (utf_serialize m.will_topic ++ utf_serialize m.will_message)
                ++ (optional m.connect_flags 0x80 (utf_serialize m.user_name)
                    ++ optional m.connect_flags 0x40 (utf_serialize m.password)))))

-- The `len` that MQTTConnect::serialize computes.
unfoldable pub connect_length : MqttMessage → ℕ
connect_length m =
    let base = 12 + (length m.client_id + 2) in
    let will =
      if nonzero (bit_and m.connect_flags 0x0c)
      then base + (length m.will_topic + 2) + (length m.will_message + 2)
      else base in
    let user =
      if nonzero (bit_and m.connect_flags 0x80) then will + (length m.user_name + 2) else will in
    if nonzero (bit_and m.connect_flags 0x40) then user + (length m.password + 2) else user

-- MQTTConnect::serialize
unfoldable pub serialize_connect : MqttMessage → Option Written
unfolding with_header
serialize_connect m =
    with_header (record m { remain_length = u16 (connect_length m) }) (bit_or m.type m.flags)
      (connect_body m)

-- MQTTPublish::serialize
unfoldable pub serialize_publish : MqttMessage → Option Written
unfolding with_header
serialize_publish m =
    with_header (record m { remain_length = u16 (length m.topic + 2 + 2 + m.len) })
      (bit_or (bit_and m.type 0xf0) (bit_and m.flags 0x0f))
      (utf_serialize m.topic ++ (set_uint16 m.message_id ++ take m.len m.payload))
