-- ===== src/Sn/Replies.antt =====
-- The messages that the gateway sends to a client: constructors and setters of the classes of
-- TomyGateway/src/libmq/Messages.cpp. The setters write into the block that the constructor allocates.
use mqtt_s_gateway.Base.{
  Str, u8, ◌>>=◌, ℕ, ◌+◌, bit_and, bit_or, Option, some, [], ◌∷◌, ◌==◌, if◌then◌else◌, length,
}
use mqtt_s_gateway.Bytes.{set_uint16}
use mqtt_s_gateway.Sn.{SnMessage, sn_message, allocate, put, body_uint16}
use mqtt_s_gateway.Sn.Requests.{SnPublish}
use mqtt_s_gateway.Sn.Types.{
  sn_type_connack, sn_type_willtopicreq, sn_type_willmsgreq, sn_type_register, sn_type_regack,
  sn_type_puback, sn_type_suback, sn_type_unsuback, sn_type_pingresp, sn_type_disconnect,
  sn_type_advertise, sn_type_gwinfo, sn_flag_qos_1,
}

-- MQTTSnAdvertise with setGwId and setDuration.
unfoldable pub sn_advertise : ℕ → ℕ → Option SnMessage
sn_advertise gw_id sec = do
  m ← put (sn_message 5 sn_type_advertise) 0 (u8 gw_id ∷ [])
  put m 1 (set_uint16 sec)

-- MQTTSnGwInfo with setGwId.
unfoldable pub sn_gw_info : ℕ → Option SnMessage
sn_gw_info gw_id = put (sn_message 3 sn_type_gwinfo) 0 (u8 gw_id ∷ [])

-- MQTTSnConnack with setReturnCode.
unfoldable pub sn_connack : ℕ → Option SnMessage
sn_connack rc = put (sn_message 3 sn_type_connack) 0 (rc ∷ [])

-- MQTTSnWillTopicReq, MQTTSnWillMsgReq, MQTTSnPingResp and MQTTSnDisconnect.
unfoldable pub sn_will_topic_req : SnMessage
sn_will_topic_req = sn_message 2 sn_type_willtopicreq

unfoldable pub sn_will_msg_req : SnMessage
sn_will_msg_req = sn_message 2 sn_type_willmsgreq

unfoldable pub sn_ping_resp : SnMessage
sn_ping_resp = sn_message 2 sn_type_pingresp

unfoldable pub sn_disconnect : SnMessage
sn_disconnect = sn_message 4 sn_type_disconnect

-- MQTTSnRegAck with setMsgId, setTopicId and setReturnCode.
unfoldable pub sn_reg_ack : ℕ → ℕ → ℕ → Option SnMessage
sn_reg_ack msg_id topic_id rc = do
  m1 ← put (sn_message 7 sn_type_regack) 2 (set_uint16 msg_id)
  m2 ← put m1 0 (set_uint16 topic_id)
  put m2 4 (rc ∷ [])

-- MQTTSnPubAck with setMsgId and setTopicId.
unfoldable pub sn_pub_ack : ℕ → ℕ → Option SnMessage
sn_pub_ack msg_id topic_id = do
  m ← put (sn_message 7 sn_type_puback) 2 (set_uint16 msg_id)
  put m 0 (set_uint16 topic_id)

-- MQTTSnPubAck::setReturnCode, and getMsgId.
unfoldable pub pub_ack_return_code : SnMessage → ℕ → Option SnMessage
pub_ack_return_code m rc = put m 4 (rc ∷ [])

unfoldable pub pub_ack_msg_id : SnMessage → Option ℕ
pub_ack_msg_id m = body_uint16 m 2

-- MQTTSnUnsubAck with setMsgId.
unfoldable pub sn_unsub_ack : ℕ → Option SnMessage
sn_unsub_ack msg_id = put (sn_message 4 sn_type_unsuback) 0 (set_uint16 msg_id)

-- MQTTSnSubAck
pub record SnSubAck : Type 0 where
  pub base : SnMessage
  pub topic_id : ℕ
  pub flags : ℕ
  pub msg_id : ℕ
  pub return_code : ℕ

unfoldable pub sn_sub_ack : SnSubAck
sn_sub_ack = record {
  base = sn_message 8 sn_type_suback;
  topic_id = 0;
  flags = 0;
  msg_id = 0;
  return_code = 0;
}

-- MQTTSnSubAck::setQos, through setFlags.
unfoldable pub sub_ack_qos : SnSubAck → ℕ → Option SnSubAck
sub_ack_qos a qos =
    let cleared = bit_and a.flags 0x9f in
    let flags = bit_and (if qos == 1 then bit_or cleared sn_flag_qos_1 else cleared) 0x60 in
    put a.base 0 (flags ∷ []) >>= λ base. some (record a { base = base; flags = flags })

-- MQTTSnSubAck::setTopicId
unfoldable pub sub_ack_topic_id : SnSubAck → ℕ → Option SnSubAck
sub_ack_topic_id a id =
    put a.base 1 (set_uint16 id) >>= λ base. some (record a { base = base; topic_id = id })

-- MQTTSnSubAck::setMsgId
unfoldable pub sub_ack_msg_id : SnSubAck → ℕ → Option SnSubAck
sub_ack_msg_id a id =
    put a.base 3 (set_uint16 id) >>= λ base. some (record a { base = base; msg_id = id })

-- MQTTSnSubAck::setReturnCode
unfoldable pub sub_ack_return_code : SnSubAck → ℕ → Option SnSubAck
sub_ack_return_code a rc =
    put a.base 5 (rc ∷ []) >>= λ base. some (record a { base = base; return_code = rc })

-- MQTTSnRegister with setTopicId and setTopicName, which allocates anew and writes both ids again.
unfoldable pub sn_register_for : ℕ → Str → Option SnMessage
sn_register_for topic_id name = do
  m1 ← put (sn_message 6 sn_type_register) 0 (set_uint16 topic_id)
  m2 ← allocate (record m1 { length_byte = u8 (6 + length name) })
  m3 ← put m2 4 name
  m4 ← put m3 0 (set_uint16 topic_id)
  put m4 2 (set_uint16 0)

-- MQTTSnPublish::setFlags
unfoldable pub publish_flags : SnPublish → ℕ → Option SnPublish
publish_flags p flags =
    let kept = bit_and flags 0xf3 in
    put p.base 0 (kept ∷ []) >>= λ base. some (record p { base = base; flags = kept })

-- MQTTSnPublish::setQos
unfoldable pub set_publish_qos : SnPublish → ℕ → Option SnPublish
set_publish_qos p qos =
    let cleared = bit_and p.flags 0x9f in
    publish_flags p (if qos == 1 then bit_or cleared sn_flag_qos_1 else cleared)

-- MQTTSnPublish::setDup
unfoldable pub set_publish_dup : SnPublish → Option SnPublish
set_publish_dup p = publish_flags p (bit_or p.flags 0x80)

-- MQTTSnPublish::setTopicIdType for the types 0 and 1; any other leaves the flags.
unfoldable pub publish_topic_id_type : SnPublish → ℕ → Option SnPublish
publish_topic_id_type p type =
    let cleared = bit_and p.flags 0x9f in
    publish_flags p
      (if type == 0 then cleared else if type == 1 then bit_or cleared 0x01 else p.flags)

-- MQTTSnPublish::setTopicId
unfoldable pub publish_topic_id : SnPublish → ℕ → Option SnPublish
publish_topic_id p id =
    put p.base 1 (set_uint16 id) >>= λ base. some (record p { base = base; topic_id = id })

-- MQTTSnPublish::setMsgId
unfoldable pub publish_msg_id : SnPublish → ℕ → Option SnPublish
publish_msg_id p id =
    put p.base 3 (set_uint16 id) >>= λ base. some (record p { base = base; msg_id = id })

-- MQTTSnPublish::setData. The length byte is a uint8_t; the block is allocated by it, and all bytes
-- are copied.
unfoldable pub publish_data : SnPublish → Str → Option SnPublish
publish_data p bytes = do
  base ← allocate (record p.base { length_byte = u8 (7 + length bytes) })
  base' ← put base 5 bytes
  p1 ← publish_topic_id (record p { base = base' }) p.topic_id
  p2 ← publish_msg_id p1 p.msg_id
  publish_flags p2 p.flags
