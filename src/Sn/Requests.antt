-- ===== src/Sn/Requests.antt =====
-- The messages that a client sends, as GatewayControlTask takes them from its queue: the constructor,
-- `absorb(MQTTSnMessage*)` and the accessors of each class of TomyGateway/src/libmq/Messages.cpp.
use mqtt_s_gateway.Base.{
  Str, u8, ◌>>=◌, ℕ, ◌+◌, ◌/◌, ◌%◌, bit_and, Bool, ◌&&◌, ◌||◌, Option, none, some, [], ◌∷◌, ltb,
  ◌==◌, if◌then◌else◌, nonzero, drop,
}
use mqtt_s_gateway.Bytes.{set_uint16}
use mqtt_s_gateway.Mqtt.Deserialize.{read_block}
use mqtt_s_gateway.Sn.{
  SnMessage, sn_message, put, body_byte, body_uint16, body_length, body_text, absorb,
}
use mqtt_s_gateway.Sn.Types.{
  sn_type_connect, sn_type_willtopic, sn_type_willmsg, sn_type_register, sn_type_publish,
  sn_type_subscribe, sn_type_unsubscribe, sn_flag_will, sn_flag_clean, sn_topic_type_normal,
  sn_topic_type_predefined, sn_topic_type_short, sn_topic_type,
}

-- C's `a && b` of two numbers.
abbrev pub logical_and : ℕ → ℕ → ℕ
logical_and a b = if nonzero a && nonzero b then 1 else 0

-- MQTTSnPublish
pub record SnPublish : Type 0 where
  pub base : SnMessage
  pub flags : ℕ
  pub topic_id : ℕ
  pub msg_id : ℕ

unfoldable pub sn_publish : SnPublish
unfolding sn_message
sn_publish = record { base = sn_message 7 sn_type_publish; flags = 0; topic_id = 0; msg_id = 0 }

-- MQTTSnPublish::absorb
unfoldable pub absorb_publish : SnPublish → SnMessage → Option SnPublish
absorb_publish p src = do
  id ← body_uint16 src 3
  flags ← body_byte src 0
  topic ← body_uint16 src 1
  base ← absorb p.base src
  some (record { base = base; flags = flags; topic_id = topic; msg_id = id })

-- MQTTSnPublish::getQos
unfoldable pub publish_qos : SnPublish → ℕ
publish_qos p = p.flags / 32 % 4

-- MQTTSnPublish::getDataLength, in a uint8_t.
unfoldable pub data_length : SnPublish → ℕ
data_length p = u8 (body_length p.base + 251)

-- MQTTSnPublish::getData, the bytes that MQTTPublish::setPayload copies from there.
unfoldable pub data_bytes : SnPublish → Option Str
unfolding data_length
data_bytes p = read_block (data_length p) (drop 7 p.base.message)

-- MQTTSnSubscribe and MQTTSnUnsubscribe
pub record SnSubscribe : Type 0 where
  pub base : SnMessage
  pub topic_id : ℕ
  pub flags : ℕ
  pub msg_id : ℕ
  pub topic_name : Str

unfoldable pub sn_subscribe : SnSubscribe
unfolding sn_message
sn_subscribe = record {
  base = sn_message 5 sn_type_subscribe;
  topic_id = 0;
  flags = 0;
  msg_id = 0;
  topic_name = [];
}

-- The constructor of MQTTSnUnsubscribe sets the type of the message, not of the allocated block.
unfoldable pub sn_unsubscribe : SnSubscribe
unfolding sn_subscribe
sn_unsubscribe = record sn_subscribe {
  base = record (sn_message 5 sn_type_subscribe) { type = sn_type_unsubscribe };
}

-- MQTTSnSubscribe::absorb. For a predefined topic it takes `_topicId` from its own block of five bytes,
-- past its end: `stale` is the number that stands there.
unfoldable pub absorb_subscribe : ℕ → SnSubscribe → SnMessage → Option SnSubscribe
absorb_subscribe stale s src = do
  id ← body_uint16 src 1
  flags ← body_byte src 0
  let kind = bit_and flags sn_topic_type
  let named = (kind == sn_topic_type_short) || (kind == sn_topic_type_normal)
  name ← if named then body_text src 3 5 else some s.topic_name
  base ← absorb s.base src
  some (record {
    base = base;
    topic_id = if kind == sn_topic_type_predefined then stale else s.topic_id;
    flags = flags;
    msg_id = id;
    topic_name = name;
  })

-- MQTTSnSubscribe::getTopicId and getMsgId read the block again.
unfoldable pub subscribe_topic_id : SnSubscribe → Option ℕ
subscribe_topic_id s = body_uint16 s.base 3

unfoldable pub subscribe_msg_id : SnSubscribe → Option ℕ
subscribe_msg_id s = body_uint16 s.base 1

-- MQTTSnSubscribe::getQos
unfoldable pub subscribe_qos : SnSubscribe → ℕ
subscribe_qos s = s.flags / 32 % 4

-- MQTTSnConnect
pub record SnConnect : Type 0 where
  pub base : SnMessage
  pub client_id : Str

-- The constructor allocates before it sets the type.
unfoldable pub sn_connect : SnConnect
unfolding sn_message
sn_connect = record {
  base = record (sn_message 6 0) { message = 6 ∷ 0 ∷ 0 ∷ 1 ∷ 0 ∷ 0 ∷ []; type = sn_type_connect };
  client_id = [];
}

-- MQTTSnConnect::getDuration, isCleanSession and isWillRequired, on any message.
unfoldable pub connect_duration : SnMessage → Option ℕ
connect_duration m = body_uint16 m 2

unfoldable pub is_clean_session : SnMessage → Option Bool
is_clean_session m = body_byte m 0 >>= λ f. some (nonzero (bit_and f sn_flag_clean))

unfoldable pub is_will_required : SnMessage → Option Bool
is_will_required m = body_byte m 0 >>= λ f. some (nonzero (bit_and f sn_flag_will))

-- MQTTSnConnect::absorb. The client id is first taken from its own block, past its end: `stale` is the
-- text that stands there.
unfoldable pub absorb_connect : Str → SnConnect → SnMessage → Option SnConnect
absorb_connect stale c src = if ltb src.length_byte 6 then none else (do
  flags ← body_byte src 0
  c1 ← put c.base 0 (bit_and flags 0x0c ∷ [])
  sec ← body_uint16 src 2
  c2 ← put c1 2 (set_uint16 sec)
  base ← absorb c2 src
  some (record { base = base; client_id = stale }))

-- MQTTSnWillTopic
pub record SnWillTopic : Type 0 where
  pub base : SnMessage
  pub flags : ℕ
  pub topic_name : Str

unfoldable pub sn_will_topic : SnWillTopic
unfolding sn_message
sn_will_topic = record { base = sn_message 3 sn_type_willtopic; flags = 0; topic_name = [] }

-- MQTTSnWillTopic::absorb
unfoldable pub absorb_will_topic : SnWillTopic → SnMessage → Option SnWillTopic
absorb_will_topic w src = do
  flags ← body_byte src 0
  w1 ← put w.base 0 (bit_and flags 0x70 ∷ [])
  name ← body_text src 1 3
  base ← absorb w1 src
  some (record { base = base; flags = bit_and flags 0x70; topic_name = name })

-- MQTTSnWillTopic::getQos: `(_flags && (MQTTSN_FLAG_QOS_1 | MQTTSN_FLAG_QOS_2)) >> 5`
unfoldable pub will_qos : SnWillTopic → ℕ
will_qos w = logical_and w.flags 0x60 / 32

-- MQTTSnWillMsg: the constructor's block, and the text that `absorb` takes.
unfoldable pub absorb_will_msg : SnMessage → Option Str
absorb_will_msg src = do
  text ← body_text src 0 2
  base ← absorb (sn_message 2 sn_type_willmsg) src
  some text

-- MQTTSnRegister
pub record SnRegister : Type 0 where
  pub base : SnMessage
  pub topic_id : ℕ
  pub msg_id : ℕ
  pub topic_name : Str

unfoldable pub sn_register : SnRegister
unfolding sn_message
sn_register = record {
  base = sn_message 6 sn_type_register;
  topic_id = 0;
  msg_id = 0;
  topic_name = [];
}

-- MQTTSnRegister::absorb
unfoldable pub absorb_register : SnRegister → SnMessage → Option SnRegister
absorb_register r src = do
  topic ← body_uint16 src 0
  id ← body_uint16 src 2
  name ← body_text src 4 6
  base ← absorb r.base src
  some (record { base = base; topic_id = topic; msg_id = id; topic_name = name })
