-- ===== src/Tests/Tasks.antt =====
-- The client node and the control task at concrete values.
use mqtt_s_gateway.Base.{◌≡◌, refl, [], ◌∷◌, arith, ◌*◌, ◌≤◌, ◌↔◌, none, some, ℕ, ◌<◌}
use mqtt_s_gateway.Bytes.{get_uint16, set_uint16}
use mqtt_s_gateway.Client.{
  disconnected, connecting, update_status, ClientNode, set_keep_alive, delete_broker_send_message,
  set_client_send_message,
}
use mqtt_s_gateway.Client.Counters.{set_keep_alive_exact}
use mqtt_s_gateway.Client.Status.{Edge, update_status-Edge, has_duration}
use mqtt_s_gateway.Client.Trace.{Run, done, message, Handshake, active_by-Handshake}
use mqtt_s_gateway.Control.{handle_client_message, handle_broker_message}
use mqtt_s_gateway.Control.Acknowledging.{
  pub_ack_of, handle_puback-await_pub_ack, reg_ack_of, handle_sn_register-create_topic,
}
use mqtt_s_gateway.Control.Connect.{
  handle_sn_will_topic, handle_sn_connect, begin_session, send_connect,
}
use mqtt_s_gateway.Control.Context.{Desk, send_client, send_broker}
use mqtt_s_gateway.Control.Downstream.{handle_puback}
use mqtt_s_gateway.Control.Forwarding.{
  PublishOutcome, handle_sn_publish-PublishOutcome, publish_for_broker_flags,
}
use mqtt_s_gateway.Control.Posts.{IsBalanced, sends_to_client, sends_to_broker}
use mqtt_s_gateway.Control.Sessions.{
  Walks, handle_client_message-Walks, handle_broker_message-Walks,
}
use mqtt_s_gateway.Control.Tables.{
  IsBounded, handle_client_message-IsBounded, handle_broker_message-IsBounded,
}
use mqtt_s_gateway.Control.Upstream.{
  handle_sn_publish, publish_for_broker, handle_sn_register, await_pub_ack, forward_publish,
}
use mqtt_s_gateway.Control.Wills.{HasNoWill, will_topic_after_connect}
use mqtt_s_gateway.Event.{client_send}
use mqtt_s_gateway.Mqtt.{MqttMessage, mqtt_pub_ack}
use mqtt_s_gateway.Mqtt.Deserialize.{read_block}
use mqtt_s_gateway.Sn.{sn_message, put, body_text, absorb}
use mqtt_s_gateway.Sn.Replies.{sn_reg_ack, sn_pub_ack, pub_ack_msg_id}
use mqtt_s_gateway.Sn.Requests.{
  sn_publish, absorb_publish, publish_qos, data_bytes, connect_duration, absorb_register, SnConnect,
  sn_connect, is_clean_session, is_will_required, absorb_connect, SnPublish, sn_register,
}
use mqtt_s_gateway.Tests.Desks.{
  noon, node, desk, publish_known, connect_thirty, desk_of, node_of, small_table, register_name,
  will_topic, waiting_ack, puback_five, connack_ok,
}
use mqtt_s_gateway.Topics.{get_topic_by_id, Topic, max_topic_count, get_topic, get_topic_id}
use mqtt_s_gateway.Topics.Invariant.{IsTopics}

-- A PUBLISH of a client waits to be handled.
abbrev upstream : Desk
upstream = record desk { node = record node { client_recv_que = publish_known ∷ [] } }

upstream-IsBalanced : IsBalanced upstream
unfolding sends_to_client sends_to_broker
upstream-IsBalanced = record { for_client = refl; for_broker = refl }

update_status-Edge_example :
    Edge disconnected connect_thirty.type (has_duration connect_thirty) connecting
unfolding update_status set_keep_alive connect_duration get_uint16
update_status-Edge_example =
    update_status-Edge (record node { status = disconnected })
      (node_of (update_status (record node { status = disconnected }) noon connect_thirty)) noon
      connect_thirty refl

handle_sn_publish-PublishOutcome_example :
    PublishOutcome desk publish_known (desk_of (handle_sn_publish desk publish_known))
unfolding handle_sn_publish absorb_publish get_uint16 absorb read_block get_topic_by_id
    forward_publish await_pub_ack sn_pub_ack set_uint16 sn_message data_bytes
handle_sn_publish-PublishOutcome_example =
    handle_sn_publish-PublishOutcome desk (desk_of (handle_sn_publish desk publish_known))
      publish_known refl

-- The broker's PUBACK waits to be handled, and the client's waits for it.
abbrev downstream : Desk
downstream = record desk {
  node = record node { broker_recv_que = puback_five ∷ []; waited_pub_ack = some waiting_ack };
}

abbrev numbered_publish : SnPublish
numbered_publish = record sn_publish { topic_id = 257; msg_id = 5 }

handle_puback-await_pub_ack_example :
    (d1 : Desk) × (d2 : Desk) × (await_pub_ack desk numbered_publish ≡ some d1)
    × (handle_puback d1 (record puback_five { message_id = 6 }) ≡ some d1)
    × (handle_puback d1 puback_five ≡ some d2)
    × (handle_puback d2 puback_five ≡ some d2)
    × (d2.node.client_send_que ≡ pub_ack_of numbered_publish ∷ [])
    × (d2.client_send_que ≡ client_send 0 ∷ [])
handle_puback-await_pub_ack_example =
    handle_puback-await_pub_ack desk numbered_publish puback_five
      (record puback_five { message_id = 6 }) puback_five (omega arith) (omega arith) (omega arith)
      refl

small_table-IsTopics : IsTopics small_table
small_table-IsTopics = omega arith

handle_sn_register-create_topic_example :
    (d' : Desk) × (id : ℕ) × (handle_sn_register desk register_name ≡ some d')
    × (d'.node.client_send_que ≡ reg_ack_of id 6 ∷ [])
    × (d'.client_send_que ≡ client_send 0 ∷ [])
    × IsTopics d'.node.topics
    × (0 < id
        → (get_topic_id d'.node.topics (b'u' ∷ []) ≡ id)
          × (tp : Topic) × (get_topic_by_id d'.node.topics id ≡ some tp)
          × (tp.topic_str ≡ b'u' ∷ []))
    × ((id ≡ 0)
        ↔ ((get_topic small_table (b'u' ∷ []) ≡ none) × (small_table.cnt ≡ max_topic_count)))
unfolding absorb_register get_uint16 body_text read_block absorb
handle_sn_register-create_topic_example =
    handle_sn_register-create_topic desk register_name
      (record sn_register {
        base = register_name;
        topic_id = 0;
        msg_id = 6;
        topic_name = b'u' ∷ [];
      })
      refl (omega arith) small_table-IsTopics (omega arith)

small_table-IsBounded : IsBounded small_table
small_table-IsBounded = record { counted = refl; few = omega arith }

handle_client_message-IsBounded_example :
    IsBounded (desk_of (handle_client_message desk register_name)).node.topics
unfolding handle_client_message handle_sn_register absorb_register get_uint16 body_text read_block
    absorb sn_reg_ack set_uint16 sn_message send_client set_client_send_message update_status
handle_client_message-IsBounded_example =
    handle_client_message-IsBounded desk (desk_of (handle_client_message desk register_name))
      register_name small_table-IsBounded refl

handle_broker_message-IsBounded_example :
    IsBounded (desk_of (handle_broker_message downstream puback_five)).node.topics
unfolding handle_broker_message handle_puback pub_ack_msg_id get_uint16 send_client
    set_client_send_message update_status
handle_broker_message-IsBounded_example =
    handle_broker_message-IsBounded downstream
      (desk_of (handle_broker_message downstream puback_five)) puback_five small_table-IsBounded
      refl

handle_client_message-Walks_example :
    Walks desk.node (desk_of (handle_client_message desk register_name)).node
unfolding handle_client_message handle_sn_register absorb_register get_uint16 body_text read_block
    absorb sn_reg_ack set_uint16 sn_message send_client set_client_send_message update_status
handle_client_message-Walks_example =
    handle_client_message-Walks desk (desk_of (handle_client_message desk register_name))
      register_name refl

handle_broker_message-Walks_example :
    Walks downstream.node (desk_of (handle_broker_message downstream puback_five)).node
unfolding handle_broker_message handle_puback pub_ack_msg_id get_uint16 send_client
    set_client_send_message update_status
handle_broker_message-Walks_example =
    handle_broker_message-Walks downstream (desk_of (handle_broker_message downstream puback_five))
      puback_five refl

-- A client in front of the CONNACK.
abbrev joining : Desk
joining = record desk { node = record node { status = connecting } }

abbrev broker_connack : MqttMessage
broker_connack = record mqtt_pub_ack { type = 0x20; return_cd = 5 }

-- A client connects without a will, and the CONNECT for the broker is sent.
abbrev connected : Desk
connected = desk_of (handle_sn_connect desk connect_thirty)

abbrev sent_off : ClientNode
sent_off = node_of (delete_broker_send_message connected.node)

abbrev taken : SnConnect
taken = record {
  base = record {
    message = 7 ∷ 0x04 ∷ 0x04 ∷ 1 ∷ 0 ∷ 30 ∷ b'n' ∷ [];
    length_byte = 7;
    type = 0x04;
  };
  client_id = [];
}

plain_connect : HasNoWill desk connect_thirty
unfolding absorb_connect put sn_connect get_uint16 set_uint16 absorb read_block is_will_required
plain_connect = (taken, refl, refl)

connects_desk : handle_sn_connect desk connect_thirty ≡ some connected
unfolding handle_sn_connect absorb_connect put sn_connect get_uint16 set_uint16 absorb read_block
    connect_duration is_clean_session is_will_required send_connect begin_session
connects_desk = refl

deletes_connect : delete_broker_send_message connected.node ≡ some sent_off
unfolding delete_broker_send_message handle_sn_connect absorb_connect put sn_connect get_uint16
    set_uint16 absorb read_block connect_duration is_clean_session is_will_required send_connect
    begin_session send_broker
deletes_connect = refl

will_topic_after_connect_example :
    handle_sn_will_topic (record connected { node = sent_off }) will_topic ≡ none
will_topic_after_connect_example =
    will_topic_after_connect desk connected sent_off connect_thirty will_topic refl plain_connect
      connects_desk deletes_connect

publish_for_broker_flags_example :
    (publish_for_broker (record sn_publish { flags = 1 }) []).flags ≡ 9
unfolding sn_publish publish_qos
publish_for_broker_flags_example = publish_for_broker_flags (record sn_publish { flags = 1 }) []

abbrev fresh : ClientNode
fresh = record node { status = disconnected }

abbrev asked : ClientNode
asked = node_of (update_status fresh noon connect_thirty)

abbrev joined : ClientNode
joined = node_of (update_status asked noon connack_ok)

asks : update_status fresh noon connect_thirty ≡ some asked
unfolding update_status set_keep_alive connect_duration get_uint16
asks = refl

joins : update_status asked noon connack_ok ≡ some joined
unfolding update_status set_keep_alive connect_duration get_uint16
joins = refl

handshake : Run fresh (connect_thirty.type ∷ connack_ok.type ∷ []) joined
handshake = message noon connect_thirty asks (message noon connack_ok joins done)

active_by-Handshake_example : Handshake (connect_thirty.type ∷ connack_ok.type ∷ [])
unfolding update_status set_keep_alive connect_duration get_uint16
active_by-Handshake_example = active_by-Handshake handshake refl refl

set_keep_alive_exact_example :
    ((node_of (set_keep_alive node noon connect_thirty)).keep_alive_msec ≡ 30 * 1000) ↔ (30 ≤ 65)
unfolding connect_duration get_uint16 set_keep_alive
set_keep_alive_exact_example =
    set_keep_alive_exact node (node_of (set_keep_alive node noon connect_thirty)) noon
      connect_thirty 30 refl refl
