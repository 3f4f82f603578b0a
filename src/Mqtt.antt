-- ===== src/Mqtt.antt =====
-- Class MQTTMessage and its subclasses of TomyGateway/src/libmq/Messages.cpp and Messages.h: the
-- messages between the gateway and the MQTT broker. One record holds the fields of the base class
-- and of the subclasses; a field that a subclass lacks keeps its initial value.
pub mod Types
pub mod Serialize
pub mod Deserialize
pub mod Lengths
pub mod RoundTrip
pub mod Flags
use mqtt_s_gateway.Base.{
  Str, u8, u16, ℕ, ◌+◌, ◌-◌, ◌*◌, ◌/◌, bit_and, bit_or, Bool, [], if◌then◌else◌, nonzero, length,
}
use Types.{
  mqtt_type_connect, mqtt_type_connack, mqtt_type_publish, mqtt_type_puback, mqtt_type_subscribe,
  mqtt_type_suback, mqtt_type_unsubscribe, mqtt_type_pingreq, mqtt_type_pingresp,
  mqtt_type_disconnect,
}
use mqtt_s_gateway.RemainingLength

pub record MqttMessage : Type 0 where
  pub type : ℕ
  pub flags : ℕ
  pub message_id : ℕ
  pub remain_length : ℕ
  pub payload : Str
  pub user_name : Str
  pub password : Str
  pub will_topic : Str
  pub will_message : Str
  pub client_id : Str
  pub topic : Str
  pub return_cd : ℕ  -- MQTTConnAck
  pub qos : ℕ  -- MQTTSubAck, MQTTSubscribe
  pub connect_flags : ℕ  -- MQTTConnect
  pub keep_alive_time : ℕ  -- MQTTConnect
  pub len : ℕ  -- MQTTPublish

abbrev pub mqtt_message : MqttMessage
mqtt_message = record {
  type = 0;
  flags = 0;
  message_id = 0;
  remain_length = 0;
  payload = [];
  user_name = [];
  password = [];
  will_topic = [];
  will_message = [];
  client_id = [];
  topic = [];
  return_cd = 0;
  qos = 0;
  connect_flags = 0;
  keep_alive_time = 0;
  len = 0;
}

-- `getQos`
unfoldable pub get_qos : MqttMessage → ℕ
get_qos m = bit_and m.flags 0x06 / 2

-- `isDup`
unfoldable pub is_dup : MqttMessage → Bool
is_dup m = nonzero (bit_and m.flags 0x80)

-- `isRetain`
unfoldable pub is_retain : MqttMessage → Bool
is_retain m = nonzero (bit_and m.flags 0x01)

-- `setQos`
unfoldable pub set_qos : MqttMessage → ℕ → MqttMessage
set_qos m q =
    let cleared = bit_and m.flags 0xf9 in
    record m { flags = if nonzero q then bit_or cleared 0x02 else cleared }

-- `setDup`
unfoldable pub set_dup : MqttMessage → MqttMessage
set_dup m = record m { flags = bit_or m.flags 0x08 }

-- `setRetain`
unfoldable pub set_retain : MqttMessage → MqttMessage
set_retain m = record m { flags = bit_or m.flags 0x01 }

-- The `setMessageId` of each subclass that has one.
abbrev pub set_message_id : MqttMessage → ℕ → MqttMessage
set_message_id m id = record m { message_id = id }

-- The constructors of the subclasses.
abbrev pub mqtt_disconnect : MqttMessage
mqtt_disconnect = record mqtt_message { type = mqtt_type_disconnect }

abbrev pub mqtt_ping_req : MqttMessage
mqtt_ping_req = record mqtt_message { type = mqtt_type_pingreq }

abbrev pub mqtt_ping_resp : MqttMessage
mqtt_ping_resp = record mqtt_message { type = mqtt_type_pingresp }

abbrev pub mqtt_conn_ack : MqttMessage
mqtt_conn_ack = record mqtt_message { type = mqtt_type_connack; remain_length = 2; return_cd = 0 }

-- The constructor of MQTTUnsubAck writes the type of CONNACK.
abbrev pub mqtt_unsub_ack : MqttMessage
mqtt_unsub_ack = record mqtt_message { type = mqtt_type_connack; remain_length = 2 }

abbrev pub mqtt_pub_ack : MqttMessage
mqtt_pub_ack = record mqtt_message { type = mqtt_type_puback; remain_length = 2 }

abbrev pub mqtt_sub_ack : MqttMessage
mqtt_sub_ack = record mqtt_message { type = mqtt_type_suback; remain_length = 2; qos = 0 }

unfoldable pub mqtt_unsubscribe : MqttMessage
unfolding set_qos
mqtt_unsubscribe =
    set_qos (record mqtt_message { type = mqtt_type_unsubscribe; remain_length = 2 }) 1

unfoldable pub mqtt_subscribe : MqttMessage
unfolding set_qos
mqtt_subscribe =
    set_qos (record mqtt_message { type = mqtt_type_subscribe; remain_length = 2; qos = 0 }) 1

abbrev pub mqtt_connect : MqttMessage
mqtt_connect = record mqtt_message {
  type = mqtt_type_connect;
  connect_flags = 0;
  keep_alive_time = 0;
}

abbrev pub mqtt_publish : MqttMessage
mqtt_publish = record mqtt_message { type = mqtt_type_publish; len = 0 }

-- MQTTUnsubscribe::setTopicName and MQTTPublish::setTopic.
abbrev pub set_topic : MqttMessage → Str → MqttMessage
set_topic m topic = record m { topic = topic }

-- MQTTSubscribe::setTopic
abbrev pub set_topic_qos : MqttMessage → Str → ℕ → MqttMessage
set_topic_qos m topic q = record m { topic = topic; qos = q }

-- MQTTConnect::setKeepAliveTime
abbrev pub set_keep_alive_time : MqttMessage → ℕ → MqttMessage
set_keep_alive_time m sec = record m { keep_alive_time = sec }

-- MQTTConnect::setUserName
unfoldable pub set_user_name : MqttMessage → Str → MqttMessage
set_user_name m name = record m {
  user_name = name;
  connect_flags = bit_or (bit_and m.connect_flags 0x7f) 0x80;
}

-- MQTTConnect::setPassword
unfoldable pub set_password : MqttMessage → Str → MqttMessage
set_password m pw = record m {
  password = pw;
  connect_flags = bit_or (bit_and m.connect_flags 0xbf) 0x40;
}

-- MQTTConnect::setWillMessage
unfoldable pub set_will_message : MqttMessage → Str → MqttMessage
set_will_message m wm = record m {
  will_message = wm;
  connect_flags = bit_or (bit_and m.connect_flags 0xdb) 0x04;
}

-- MQTTConnect::setWillTopic
unfoldable pub set_will_topic : MqttMessage → Str → MqttMessage
set_will_topic m tp = record m {
  will_topic = tp;
  connect_flags = bit_or (bit_and m.connect_flags 0xdb) 0x04;
}

-- MQTTConnect::setWillQos
unfoldable pub set_will_qos : MqttMessage → ℕ → MqttMessage
set_will_qos m q = record m { connect_flags = bit_or (bit_and m.connect_flags 0x18) (u8 (q * 8)) }

-- MQTTConnect::setClientId
abbrev pub set_client_id : MqttMessage → Str → MqttMessage
set_client_id m cid = record m { client_id = cid }

-- MQTTConnect::setCleanSessionFlg
unfoldable pub set_clean_session_flg : MqttMessage → MqttMessage
set_clean_session_flg m = record m { connect_flags = bit_or (bit_and m.connect_flags 0xfc) 0x02 }

-- MQTTPublish::setPayload. The length is a uint8_t, and that many bytes are copied.
unfoldable pub set_payload : MqttMessage → Str → MqttMessage
set_payload m bytes =
    let old = if nonzero (length m.payload) then m.len else 0 in
    record m {
      payload = bytes;
      len = u8 (length bytes);
      remain_length = u16 (m.remain_length + 65536 - old + length bytes);
    }

-- `absorb`: the four fields of the base class that it takes over.
unfoldable pub absorb : MqttMessage → MqttMessage → MqttMessage
absorb m msg = record m {
  type = msg.type;
  flags = msg.flags;
  message_id = msg.message_id;
  remain_length = msg.remain_length;
}

-- `setType`
abbrev pub set_type : MqttMessage → ℕ → MqttMessage
set_type m type = record m { type = type }

-- MQTTSubAck::setGrantedQos0 and setGrantedQos1
abbrev pub set_granted_qos0 : MqttMessage → MqttMessage
set_granted_qos0 m = record m { qos = 0 }

abbrev pub set_granted_qos1 : MqttMessage → MqttMessage
set_granted_qos1 m = record m { qos = 1 }
