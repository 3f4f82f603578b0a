-- ===== src/Tests/Desks.antt =====
-- Test data for the tasks: client nodes, messages and desks.
use mqtt_s_gateway.Base.{Option, none, some, [], ◌∷◌}
use mqtt_s_gateway.Client.{active, ClientNode}
use mqtt_s_gateway.Control.Context.{Desk}
use mqtt_s_gateway.Mqtt.{MqttMessage, mqtt_pub_ack}
use mqtt_s_gateway.Sn.{SnMessage}
use mqtt_s_gateway.Socket.{new_socket}
use mqtt_s_gateway.Timer.{TimeVal, stopped}
use mqtt_s_gateway.Topics.{Topics, topicid_predefined_time, topic_predefined_time}

abbrev pub noon : TimeVal
noon = record { tv_sec = 43200; tv_usec = 0 }

-- The table with the topic "t" of id 257.
abbrev pub small_table : Topics
small_table = record {
  next_topic_id = 257;
  cnt = 2;
  topics =
      record { topic_id = topicid_predefined_time; topic_str = topic_predefined_time }
      ∷ record { topic_id = 257; topic_str = b't' ∷ [] }
      ∷ [];
}

abbrev pub node : ClientNode
node = record {
  broker_send_que = [];
  broker_recv_que = [];
  client_send_que = [];
  client_recv_que = [];
  connects = [];
  mqtt_connect = none;
  waited_pub_ack = none;
  waited_sub_ack = none;
  msg_id = 9;
  sn_msg_id = 0;
  topics = small_table;
  status = active;
  keep_alive_msec = 10000;
  keep_alive_timer = stopped;
  address16 = 1;
  address64 = record { msb = 0; lsb = 0 };
  node_id = b'n' ∷ [];
  socket = new_socket;
}

abbrev pub desk : Desk
desk = record {
  node = node;
  client = 0;
  now = noon;
  time_bytes = 0 ∷ 0 ∷ 0 ∷ 1 ∷ [];
  unspecified = record { topic_id = 0; client_id = []; string_word = 0; created_word = 0 };
  client_send_que = [];
  broker_send_que = [];
}

-- A PUBLISH of two bytes for the topic 257 with QoS 1 and message id 5, and the same for an unknown
-- topic.
abbrev pub publish_known : SnMessage
publish_known = record {
  message = 9 ∷ 0x0c ∷ 0x20 ∷ 1 ∷ 1 ∷ 0 ∷ 5 ∷ 42 ∷ 43 ∷ [];
  length_byte = 9;
  type = 0x0c;
}

abbrev pub publish_unknown : SnMessage
publish_unknown = record {
  message = 9 ∷ 0x0c ∷ 0x20 ∷ 2 ∷ 1 ∷ 0 ∷ 5 ∷ 42 ∷ 43 ∷ [];
  length_byte = 9;
  type = 0x0c;
}

-- A REGISTER of "u" with message id 6.
abbrev pub register_name : SnMessage
register_name = record {
  message = 7 ∷ 0x0a ∷ 0 ∷ 0 ∷ 0 ∷ 6 ∷ b'u' ∷ [];
  length_byte = 7;
  type = 0x0a;
}

-- A CONNECT for 30 seconds, a CONNACK and a WILLTOPIC "w".
abbrev pub connect_thirty : SnMessage
connect_thirty = record {
  message = 7 ∷ 0x04 ∷ 0x04 ∷ 1 ∷ 0 ∷ 30 ∷ b'n' ∷ [];
  length_byte = 7;
  type = 0x04;
}

abbrev pub connack_ok : SnMessage
connack_ok = record { message = 3 ∷ 0x05 ∷ 0 ∷ []; length_byte = 3; type = 0x05 }

abbrev pub will_topic : SnMessage
will_topic = record { message = 4 ∷ 0x07 ∷ 0 ∷ b'w' ∷ []; length_byte = 4; type = 0x07 }

-- The PUBACK that waits for the broker's, with message id 5, and the broker's.
abbrev pub waiting_ack : SnMessage
waiting_ack = record { message = 7 ∷ 0x0d ∷ 1 ∷ 1 ∷ 0 ∷ 5 ∷ 0 ∷ []; length_byte = 7; type = 0x0d }

abbrev pub puback_five : MqttMessage
puback_five = record mqtt_pub_ack { message_id = 5 }

abbrev pub desk_of : Option Desk → Desk
desk_of none = desk
desk_of (some d) = d

abbrev pub node_of : Option ClientNode → ClientNode
node_of none = node
node_of (some c) = c
