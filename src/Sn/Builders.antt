-- ===== src/Sn/Builders.antt =====
-- The other constructors and accessors of the MQTT-SN classes of
-- TomyGateway/src/libmq/Messages.cpp: with them a client writes its messages and reads those of the
-- gateway. A pointer argument is the text or the bytes that it leads to; std::string::copy and
-- memcpy write into the block.
pub mod Frames
pub mod Blocks
pub mod Absorbing
pub mod Texts
use mqtt_s_gateway.Base.{
  Str, u8, ℕ, ◌+◌, ◌/◌, ◌%◌, bit_and, bit_or, Bool, Option, none, some, [], ◌∷◌, leb, ◌==◌,
  if◌then◌else◌, nonzero, length, get_elem?, take, ◌>>=◌,
}
use mqtt_s_gateway.Bytes.{set_uint16}
use mqtt_s_gateway.Mqtt.Deserialize.{read_block}
use mqtt_s_gateway.Sn.{SnMessage, sn_message, allocate, put, body_byte, body_uint16}
use mqtt_s_gateway.Sn.Replies.{SnSubAck, publish_flags}
use mqtt_s_gateway.Sn.Requests.{
  logical_and, SnPublish, SnSubscribe, SnConnect, SnWillTopic, SnRegister,
}
use mqtt_s_gateway.Sn.Types.{
  sn_type_connect, sn_type_pingreq, sn_type_searchgw, sn_flag_qos_1, sn_flag_will,
  sn_topic_type_normal, sn_topic_type_predefined, sn_topic_type,
}

-- MQTTSnMessage::getMessage: a position behind the message is refused, `some none`.
unfoldable pub get_message_byte : SnMessage → ℕ → Option (Option ℕ)
get_message_byte m pos =
    if leb m.length_byte pos
    then some none
    else (get_elem? m.message pos >>= λ val. some (some val))

-- MQTTSnMessage::setBody
unfoldable pub set_body : SnMessage → Str → ℕ → Option SnMessage
set_body m body len = do
  m1 ← allocate (record m { length_byte = u8 (len + 2) })
  bytes ← read_block len body
  put m1 0 bytes

-- MQTTSnAdvertise, MQTTSnGwInfo, MQTTSnConnack, MQTTSnRegAck, MQTTSnPubAck and MQTTSnUnsubAck: getters.
abbrev pub advertise_gw_id : SnMessage → Option ℕ
advertise_gw_id m = body_byte m 0

abbrev pub advertise_duration : SnMessage → Option ℕ
advertise_duration m = body_uint16 m 1

abbrev pub gw_info_gw_id : SnMessage → Option ℕ
gw_info_gw_id m = body_byte m 0

abbrev pub connack_return_code : SnMessage → Option ℕ
connack_return_code m = body_byte m 0

abbrev pub reg_ack_topic_id : SnMessage → Option ℕ
reg_ack_topic_id m = body_uint16 m 0

abbrev pub reg_ack_msg_id : SnMessage → Option ℕ
reg_ack_msg_id m = body_uint16 m 2

abbrev pub reg_ack_return_code : SnMessage → Option ℕ
reg_ack_return_code m = body_byte m 4

abbrev pub pub_ack_topic_id : SnMessage → Option ℕ
pub_ack_topic_id m = body_uint16 m 0

abbrev pub pub_ack_rc : SnMessage → Option ℕ
pub_ack_rc m = body_byte m 4

abbrev pub unsub_ack_msg_id : SnMessage → Option ℕ
unsub_ack_msg_id m = body_uint16 m 0

-- MQTTSnSearchGw with setRadius, and getRadius.
unfoldable pub sn_search_gw : ℕ → Option SnMessage
sn_search_gw radius = put (sn_message 3 sn_type_searchgw) 0 (radius ∷ [])

abbrev pub search_radius : SnMessage → Option ℕ
search_radius m = body_byte m 0

-- MQTTSnConnect(string*): the block is allocated before the type is set.
unfoldable pub connect_with_id : Str → Option SnConnect
connect_with_id id = do
  m ← allocate (record { message = []; length_byte = u8 (length id + 6); type = 0 })
  m1 ← put (record m { type = sn_type_connect }) 1 (1 ∷ [])
  m2 ← put m1 4 id
  some (record { base = m2; client_id = [] })

-- MQTTSnConnect: setFlags, getFlags, setDuration and setClientId.
unfoldable pub set_connect_flags : SnConnect → ℕ → Option SnConnect
set_connect_flags c flags =
    put c.base 0 (bit_and flags 0x0c ∷ []) >>= λ base. some (record c { base = base })

abbrev pub connect_flags : SnConnect → Option ℕ
connect_flags c = body_byte c.base 0

unfoldable pub set_connect_duration : SnConnect → ℕ → Option SnConnect
set_connect_duration c sec =
    put c.base 2 (set_uint16 sec) >>= λ base. some (record c { base = base })

abbrev pub set_client_id : SnConnect → Str → SnConnect
set_client_id c id = record c { client_id = id }

-- MQTTSnWillTopic: setFlags, setWillTopic, isWillRequired with `&&`, and getWillTopic.
unfoldable pub set_will_flags : SnWillTopic → ℕ → Option SnWillTopic
set_will_flags w flags =
    let kept = bit_and flags 0x70 in
    put w.base 0 (kept ∷ []) >>= λ base. some (record w { base = base; flags = kept })

unfoldable pub set_will_topic : SnWillTopic → Str → Option SnWillTopic
set_will_topic w topic = do
  m ← allocate (record w.base { length_byte = u8 (length topic + 3) })
  m1 ← put m 1 topic
  m2 ← put m1 0 (w.flags ∷ [])
  some (record w { base = m2; topic_name = topic })

unfoldable pub will_topic_required : SnWillTopic → Option Bool
will_topic_required w = body_byte w.base 0 >>= λ f. some (nonzero (logical_and f sn_flag_will))

abbrev pub will_topic_name : SnWillTopic → Option Str
will_topic_name w = elim w.base.message [ [] ↦ none | _ ∷ _ ↦ some w.topic_name ]

-- MQTTSnWillMsg with setWillMsg: the block, and `_willMsg`.
unfoldable pub set_will_msg : SnMessage → Str → Option (SnMessage × Str)
set_will_msg m text = do
  m1 ← allocate (record m { length_byte = u8 (2 + length text) })
  m2 ← put m1 0 text
  some (m2, text)

-- MQTTSnRegister: setTopicId, setMsgId and setTopicName.
unfoldable pub set_register_topic_id : SnRegister → ℕ → Option SnRegister
set_register_topic_id r id =
    put r.base 0 (set_uint16 id) >>= λ base. some (record r { base = base; topic_id = id })

unfoldable pub set_register_msg_id : SnRegister → ℕ → Option SnRegister
set_register_msg_id r id =
    put r.base 2 (set_uint16 id) >>= λ base. some (record r { base = base; msg_id = id })

unfoldable pub set_register_topic_name : SnRegister → Str → Option SnRegister
set_register_topic_name r name = do
  m ← allocate (record r.base { length_byte = u8 (6 + length name) })
  m1 ← put m 4 name
  r1 ← set_register_topic_id (record r { base = m1 }) r.topic_id
  set_register_msg_id r1 r.msg_id

-- MQTTSnPublish: setRetain, setTopic, getTopic and getTopicType. getTopic copies from the text that it
-- is given, and not to it.
unfoldable pub set_publish_retain : SnPublish → Option SnPublish
set_publish_retain p = publish_flags p (bit_or p.flags 0x10)

unfoldable pub set_publish_topic : SnPublish → Str → Option SnPublish
set_publish_topic p topic = do
  base ← put p.base 1 (take 2 topic)
  id ← body_uint16 base 1
  some (record p { base = base; topic_id = id })

unfoldable pub get_publish_topic : SnPublish → Str → Option Str
get_publish_topic p str = body_byte p.base 1 >>= λ _. (body_byte p.base 2 >>= λ _. some str)

abbrev pub publish_topic_type : SnPublish → ℕ
publish_topic_type p = bit_and p.flags sn_topic_type

-- MQTTSnSubscribe: setFlags, setQos, setMsgId, setTopicId and setTopicName.
unfoldable pub set_subscribe_flags : SnSubscribe → ℕ → Option SnSubscribe
set_subscribe_flags s flags =
    let kept = bit_and flags 0xe3 in
    put s.base 0 (kept ∷ []) >>= λ base. some (record s { base = base; flags = kept })

unfoldable pub set_subscribe_qos : SnSubscribe → ℕ → Option SnSubscribe
set_subscribe_qos s qos =
    let cleared = bit_and s.flags 0x9f in
    set_subscribe_flags s (if qos == 1 then bit_or cleared sn_flag_qos_1 else cleared)

unfoldable pub set_subscribe_msg_id : SnSubscribe → ℕ → Option SnSubscribe
set_subscribe_msg_id s id =
    put s.base 1 (set_uint16 id) >>= λ base. some (record s { base = base; msg_id = id })

unfoldable pub set_subscribe_topic_id : SnSubscribe → ℕ → Option SnSubscribe
set_subscribe_topic_id s id = do
  m ← allocate (record s.base { length_byte = 7 })
  s1 ← set_subscribe_msg_id (record s { base = m }) s.msg_id
  m2 ← put s1.base 3 (set_uint16 id)
  s2 ← set_subscribe_flags (record s1 { base = m2 }) (bit_or s1.flags sn_topic_type_predefined)
  some (record s2 { topic_id = id })

unfoldable pub set_subscribe_topic_name : SnSubscribe → Str → Option SnSubscribe
set_subscribe_topic_name s name = do
  m ← allocate (record s.base { length_byte = u8 (5 + length name) })
  m1 ← put m 3 name
  s1 ← set_subscribe_msg_id (record s { base = m1 }) s.msg_id
  s2 ← set_subscribe_flags s1 (bit_or s1.flags sn_topic_type_normal)
  some (record s2 { topic_name = name })

-- MQTTSnUnsubscribe::setFlags, which leaves the field.
unfoldable pub set_unsubscribe_flags : SnSubscribe → ℕ → Option SnSubscribe
set_unsubscribe_flags s flags =
    put s.base 0 (bit_and flags 0x03 ∷ []) >>= λ base. some (record s { base = base })

-- MQTTSnSubAck::getQos
abbrev pub sub_ack_get_qos : SnSubAck → ℕ
sub_ack_get_qos a = a.flags / 32 % 4

-- MQTTSnPingReq and MQTTSnPingReq(string*)
unfoldable pub sn_ping_req : SnMessage
sn_ping_req = sn_message 2 sn_type_pingreq

unfoldable pub ping_req_for : Str → Option SnMessage
ping_req_for id = do
  m ← allocate (record { message = []; length_byte = u8 (length id + 2); type = sn_type_pingreq })
  put m 0 id

-- MQTTSnDisconnect: setDuration and getDuration.
unfoldable pub set_disconnect_duration : SnMessage → ℕ → Option SnMessage
set_disconnect_duration m duration = put m 0 (set_uint16 duration)

abbrev pub disconnect_duration : SnMessage → Option ℕ
disconnect_duration m = body_uint16 m 0
