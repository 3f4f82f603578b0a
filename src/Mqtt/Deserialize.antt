-- ===== src/Mqtt/Deserialize.antt =====
-- The `deserialize` member functions, on the bytes from `buf` on. Each returns the message and the
-- returned truth value; a read past the end of the bytes faults.
use mqtt_s_gateway.Base.{
  Str, u8, ℕ, ◌+◌, ◌-◌, bit_and, Bool, true, false, ◌||◌, Option, none, some, leb, if◌then◌else◌,
  length, get_elem?, take, drop, ◌>>=◌, ◌==◌,
}
use mqtt_s_gateway.Bytes.{get_uint16}
use mqtt_s_gateway.Mqtt.{MqttMessage}
use mqtt_s_gateway.Mqtt.Types.{
  mqtt_type_connack, mqtt_type_publish, mqtt_type_puback, mqtt_type_suback, mqtt_type_unsuback,
  mqtt_type_pingresp,
}
use mqtt_s_gateway.RemainingLength

-- A block of n bytes at the front.
unfoldable pub read_block : ℕ → Str → Option Str
read_block n buf = if leb n (length buf) then some (take n buf) else none

-- MQTTMessage::deserialize, which PUBACK, UNSUBACK and PINGRESP use.
unfoldable pub deserialize_message : MqttMessage → Str → Option (MqttMessage × Bool)
deserialize_message m buf = do
  first ← get_elem? buf 0
  rem_len ← RemainingLength.deserialize RemainingLength.blank (drop 1 buf)
  n ← RemainingLength.decode rem_len
  let m1 = record m { type = bit_and first 0xf0; flags = bit_and first 0x0f; remain_length = n }
  if m1.type == mqtt_type_pingresp
      then some (m1, true)
      else if (m1.type == mqtt_type_unsuback) || (m1.type == mqtt_type_puback)
      then (get_uint16 buf 2 >>= λ id. some (record m1 { message_id = id }, true))
      else some (m1, false)

-- MQTTConnAck::deserialize
unfoldable pub deserialize_conn_ack : MqttMessage → Str → Option (MqttMessage × Bool)
unfolding deserialize_message
deserialize_conn_ack m buf = do
  parsed ← deserialize_message m buf
  if parsed.0.type == mqtt_type_connack
      then (get_elem? buf 3 >>= λ rc. some (record parsed.0 { return_cd = rc }, true))
      else some (parsed.0, false)

-- MQTTSubAck::deserialize
unfoldable pub deserialize_sub_ack : MqttMessage → Str → Option (MqttMessage × Bool)
deserialize_sub_ack m buf = do
  encoded ← RemainingLength.encode RemainingLength.blank m.remain_length
  first ← get_elem? buf 0
  let m1 = record m { type = bit_and first 0xf0 }
  let rest = (do
    rem_len ← RemainingLength.deserialize encoded (drop 1 buf)
    id ← get_uint16 (drop 1 buf) rem_len.size
    granted ← get_elem? (drop 1 buf) (rem_len.size + 2)
    some (record m1 { flags = bit_and first 0x0f; message_id = id; qos = granted }, true))
  if m1.type == mqtt_type_suback then rest else some (m1, false)

-- The part of MQTTPublish::deserialize behind the fixed header.
unfoldable pub deserialize_publish_body : MqttMessage → Str → Option MqttMessage
deserialize_publish_body m buf = do
  size ← get_uint16 buf 0
  topic ← read_block size (drop 2 buf)
  id ← get_uint16 (drop (length topic + 2) buf) 0
  let len = u8 (m.remain_length + 65536 - length topic - 4)
  payload ← read_block len (drop 2 (drop (length topic + 2) buf))
  some (record m { topic = topic; message_id = id; len = len; payload = payload })

-- MQTTPublish::deserialize
unfoldable pub deserialize_publish : MqttMessage → Str → Option (MqttMessage × Bool)
deserialize_publish m buf = do
  first ← get_elem? buf 0
  let m1 = record m { type = bit_and first 0xf0 }
  let rest = (do
    rem_len ← RemainingLength.deserialize RemainingLength.blank (drop 1 buf)
    n ← RemainingLength.decode rem_len
    m2 ←
        deserialize_publish_body (record m1 { flags = bit_and first 0x0f; remain_length = n })
          (drop (1 + rem_len.size) buf)
    some (m2, true))
  if m1.type == mqtt_type_publish then rest else some (m1, false)
