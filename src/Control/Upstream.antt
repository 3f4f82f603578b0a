-- ===== src/Control/Upstream.antt =====
-- The handlers of GatewayControlTask.cpp for what a client sends: PUBLISH, PUBACK, PINGREQ, REGISTER
-- and DISCONNECT.
use mqtt_s_gateway.Base.{Str, ◌>>=◌, Option, none, some, [], ◌==◌, if◌then◌else◌, nonzero}
use mqtt_s_gateway.Client.{own}
use mqtt_s_gateway.Control.Context.{printed, Desk, send_client, send_broker}
use mqtt_s_gateway.Mqtt.{
  MqttMessage, set_qos, set_dup, set_retain, set_message_id, mqtt_disconnect, mqtt_ping_req,
  mqtt_pub_ack, mqtt_publish, set_topic, set_payload,
}
use mqtt_s_gateway.Sn.{SnMessage, sn_message, absorb}
use mqtt_s_gateway.Sn.Replies.{
  sn_disconnect, sn_reg_ack, sn_pub_ack, pub_ack_return_code, pub_ack_msg_id,
}
use mqtt_s_gateway.Sn.Requests.{
  logical_and, SnPublish, sn_publish, absorb_publish, publish_qos, data_bytes, sn_register,
  absorb_register,
}
use mqtt_s_gateway.Sn.Types.{
  sn_type_puback, sn_flag_dup, sn_flag_retain, sn_topic_type_short, sn_topic_type, sn_rc_accepted,
  sn_rc_rejected_invalid_topic_id,
}
use mqtt_s_gateway.Topics.{get_topic_by_id, create_topic}

-- The MQTT message of a PUBLISH, but for its payload. The tests of the DUP and RETAIN bits are `&&`.
unfoldable pub publish_for_broker : SnPublish → Str → MqttMessage
publish_for_broker p name =
    let named = set_topic mqtt_publish name in
    let marked = if nonzero p.msg_id then set_message_id named p.msg_id else named in
    let leveled = set_qos marked (publish_qos p) in
    let repeated = if nonzero (logical_and p.flags sn_flag_dup) then set_dup leveled else leveled in
    if nonzero (logical_and p.flags sn_flag_retain) then set_retain repeated else repeated

-- With a message id, the PUBACK for the client is kept until the broker acknowledges.
unfoldable pub await_pub_ack : Desk → SnPublish → Option Desk
await_pub_ack d p =
    if nonzero p.msg_id
    then (sn_pub_ack p.msg_id p.topic_id >>= λ ack.
        some (record d { node = record (d.node) { waited_pub_ack = some ack } }))
    else some d

unfoldable pub forward_publish : Desk → SnPublish → Str → Option Desk
forward_publish d p name = do
  d1 ← await_pub_ack d p
  bytes ← data_bytes p
  some (send_broker d1 (own (set_payload (publish_for_broker p name) bytes)))

unfoldable pub reject_publish : Desk → SnPublish → Option Desk
reject_publish d p =
    if nonzero p.msg_id
    then (do
      ack ← sn_pub_ack p.msg_id p.topic_id
      refusal ← pub_ack_return_code ack sn_rc_rejected_invalid_topic_id
      send_client d refusal)
    else some d

-- handleSnPublish. MQTTSnPublish::getTopic leaves the string that it is given, an empty one.
unfoldable pub handle_sn_publish : Desk → SnMessage → Option Desk
handle_sn_publish d msg = printed msg (do
  p ← absorb_publish sn_publish msg
  elim (get_topic_by_id d.node.topics p.topic_id) [
    | some tp ↦ forward_publish d p tp.topic_str
    | none ↦
        if logical_and p.flags sn_topic_type == sn_topic_type_short
        then forward_publish d p []
        else reject_publish d p
  ])

-- handleSnPingReq
unfoldable pub handle_sn_ping_req : Desk → SnMessage → Option Desk
handle_sn_ping_req d msg = printed msg (some (send_broker d (own mqtt_ping_req)))

-- handleSnPubAck
unfoldable pub handle_sn_pub_ack : Desk → SnMessage → Option Desk
handle_sn_pub_ack d msg = printed msg (do
  ack ← absorb (sn_message 7 sn_type_puback) msg
  id ← pub_ack_msg_id ack
  some (send_broker d (own (set_message_id mqtt_pub_ack id))))

-- handleSnDisconnect
unfoldable pub handle_sn_disconnect : Desk → SnMessage → Option Desk
handle_sn_disconnect d msg =
    printed msg (do m ← absorb sn_disconnect msg; some (send_broker d (own mqtt_disconnect)))

-- handleSnRegister
unfoldable pub handle_sn_register : Desk → SnMessage → Option Desk
handle_sn_register d msg = printed msg (do
  r ← absorb_register sn_register msg
  let made = create_topic d.node.topics r.topic_name d.unspecified.created_word
  ack ← sn_reg_ack r.msg_id made.1 sn_rc_accepted
  send_client (record d { node = record (d.node) { topics = made.0 } }) ack)
