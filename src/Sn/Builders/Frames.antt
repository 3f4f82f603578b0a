-- ===== src/Sn/Builders/Frames.antt =====
-- The functions setFrame of the MQTT-SN classes of TomyGateway/src/libmq/Messages.cpp, which read a
-- message from the payload of a frame.
use mqtt_s_gateway.Base.{
  Str, u8, ℕ, ◌+◌, ◌-◌, bit_and, Option, none, some, ltb, ◌==◌, if◌then◌else◌, get_elem?, drop,
  ◌>>=◌,
}
use mqtt_s_gateway.Bytes.{get_uint16}
use mqtt_s_gateway.Mqtt.Deserialize.{read_block}
use mqtt_s_gateway.Sn.Builders.{set_body}
use mqtt_s_gateway.Sn.Requests.{SnPublish, SnSubscribe, SnRegister}
use mqtt_s_gateway.Sn.Types.{sn_topic_type_normal, sn_topic_type}

-- MQTTSnRegister::setFrame; a text of negative length throws.
unfoldable pub register_frame : SnRegister → Str → ℕ → Option SnRegister
register_frame r bytes len = do
  base ← set_body r.base bytes len
  id ← get_uint16 bytes 0
  msg ← get_uint16 bytes 2
  name ← if ltb len 4 then none else read_block (len - 4) (drop 6 base.message)
  some (record { base = base; topic_id = id; msg_id = msg; topic_name = name })

-- MQTTSnPublish::setFrame
unfoldable pub publish_frame : SnPublish → Str → ℕ → Option SnPublish
publish_frame p bytes len = do
  base ← set_body p.base bytes len
  id ← get_uint16 bytes 1
  msg ← get_uint16 bytes 3
  flags ← get_elem? bytes 0
  some (record { base = base; flags = flags; topic_id = id; msg_id = msg })

-- MQTTSnSubscribe::setFrame. The name has the length of the whole body, so that it takes three bytes
-- from behind it.
unfoldable pub subscribe_frame : SnSubscribe → Str → ℕ → Option SnSubscribe
subscribe_frame s bytes len = do
  base ← set_body s.base bytes len
  msg ← get_uint16 bytes 1
  flags ← get_elem? bytes 0
  if bit_and flags sn_topic_type == sn_topic_type_normal
      then (read_block len (drop 3 bytes) >>= λ name.
          some
            (record { base = base; topic_id = 0; flags = flags; msg_id = msg; topic_name = name }))
      else (get_uint16 bytes 3 >>= λ id.
          some (record s { base = base; topic_id = id; flags = flags; msg_id = msg }))

-- setFrame(XBResponse*): the payload of the frame, with its first byte less two, in a uint8_t, as the
-- length.
unfoldable pub frame_body : Str → Option (Str × ℕ)
frame_body payload = get_elem? payload 0 >>= λ n. some (drop 2 payload, u8 (n + 254))

unfoldable pub register_response : SnRegister → Str → Option SnRegister
register_response r payload = frame_body payload >>= λ (bytes, len). register_frame r bytes len

unfoldable pub publish_response : SnPublish → Str → Option SnPublish
publish_response p payload = frame_body payload >>= λ (bytes, len). publish_frame p bytes len

unfoldable pub subscribe_response : SnSubscribe → Str → Option SnSubscribe
subscribe_response s payload = frame_body payload >>= λ (bytes, len). subscribe_frame s bytes len
