-- ===== src/Control/Downstream.antt =====
-- The handlers of GatewayControlTask.cpp for what the broker sends.
use mqtt_s_gateway.Base.{◌>>=◌, ℕ, Option, none, some, ◌==◌, if◌then◌else◌, nonzero, length}
use mqtt_s_gateway.Control.Context.{printed, Desk, send_client}
use mqtt_s_gateway.Mqtt.{MqttMessage, get_qos, is_dup, is_retain}
use mqtt_s_gateway.Sn.Replies.{
  sn_connack, sn_ping_resp, sn_disconnect, pub_ack_msg_id, sn_unsub_ack, sub_ack_qos,
  sub_ack_return_code, sn_register_for, publish_flags, set_publish_qos, set_publish_dup,
  publish_topic_id, publish_msg_id, publish_data,
}
use mqtt_s_gateway.Sn.Requests.{SnPublish, sn_publish}
use mqtt_s_gateway.Sn.Types.{
  sn_topic_type_normal, sn_topic_type_short, sn_rc_accepted, sn_rc_rejected_not_supported,
}
use mqtt_s_gateway.Topics.{get_topic_id, create_topic}

-- handlePuback
unfoldable pub handle_puback : Desk → MqttMessage → Option Desk
handle_puback d mq = elim d.node.waited_pub_ack [
  | none ↦ some d
  | some ack ↦ do
    id ← pub_ack_msg_id ack
    let sent = send_client (record d { node = record (d.node) { waited_pub_ack = none } }) ack
    if id == mq.message_id then sent else some d
]

-- handlePingresp
unfoldable pub handle_pingresp : Desk → MqttMessage → Option Desk
handle_pingresp d mq = send_client d sn_ping_resp

-- handleSuback
unfoldable pub handle_suback : Desk → MqttMessage → Option Desk
handle_suback d mq = elim d.node.waited_sub_ack [
  | none ↦ some d
  | some ack ↦
      let sent = (do
        a1 ← sub_ack_return_code ack sn_rc_accepted
        a2 ← sub_ack_qos a1 mq.qos
        send_client (record d { node = record (d.node) { waited_sub_ack = none } }) a2.base) in
      if ack.msg_id == mq.message_id then sent else some d
]

-- handleUnsuback
unfoldable pub handle_unsuback : Desk → MqttMessage → Option Desk
handle_unsuback d mq = sn_unsub_ack mq.message_id >>= λ ack. send_client d ack

-- handleConnack
unfoldable pub handle_connack : Desk → MqttMessage → Option Desk
handle_connack d mq = do
  connack ←
      sn_connack (if nonzero mq.return_cd then sn_rc_rejected_not_supported else sn_rc_accepted)
  send_client d connack

-- handleDisconnect
unfoldable pub handle_disconnect : Desk → MqttMessage → Option Desk
handle_disconnect d mq = send_client d sn_disconnect

-- The PUBLISH for the client. A retained message is marked by `setDup`.
unfoldable pub publish_for_client : MqttMessage → ℕ → ℕ → Option SnPublish
publish_for_client mq flags id = do
  p0 ← publish_flags sn_publish flags
  p1 ← publish_topic_id p0 id
  p2 ← publish_msg_id p1 mq.message_id
  p3 ← publish_data p2 mq.payload
  p4 ← set_publish_qos p3 (get_qos mq)
  p5 ← if is_dup mq then set_publish_dup p4 else some p4
  if is_retain mq then set_publish_dup p5 else some p5

unfoldable pub deliver : Desk → MqttMessage → ℕ → ℕ → Option Desk
deliver d mq flags id = do p ← publish_for_client mq flags id; printed p.base (send_client d p.base)

-- The branch of handlePublish for a topic without an id: the topic is created and registered with the
-- client first. If the table is full the message is dropped.
unfoldable pub deliver_new : Desk → MqttMessage → ℕ → Option Desk
deliver_new d mq flags =
    let made = create_topic d.node.topics mq.topic d.unspecified.created_word in
    let sent = (do
      reg ← sn_register_for made.1 mq.topic
      d1 ← printed reg (send_client (record d { node = record (d.node) { topics = made.0 } }) reg)
      deliver d1 mq flags made.1) in
    if nonzero made.1 then sent else some d

-- handlePublish. For a topic of two bytes the id is read from the std::string object.
unfoldable pub handle_publish : Desk → MqttMessage → Option Desk
handle_publish d mq =
    let short = length mq.topic == 2 in
    let id = if short then d.unspecified.string_word else get_topic_id d.node.topics mq.topic in
    let flags = if short then sn_topic_type_short else sn_topic_type_normal in
    if id == 0 then deliver_new d mq flags else deliver d mq flags id
