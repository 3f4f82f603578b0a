-- ===== src/Control/Subscribe.antt =====
-- The handlers of GatewayControlTask.cpp for SUBSCRIBE and UNSUBSCRIBE.
use mqtt_s_gateway.Base.{
  Str, ◌>>=◌, ℕ, bit_and, Option, none, some, [], ◌==◌, if◌then◌else◌, nonzero,
}
use mqtt_s_gateway.Client.{own, get_next_sn_msg_id}
use mqtt_s_gateway.Control.Context.{Desk, send_client, send_broker, printed}
use mqtt_s_gateway.Mqtt.{
  MqttMessage, set_qos, set_dup, set_retain, set_message_id, mqtt_unsubscribe, mqtt_subscribe,
  set_topic, set_topic_qos,
}
use mqtt_s_gateway.Mqtt.Types.{mqtt_rc_accepted, mqtt_rc_refused_identifier_rejected}
use mqtt_s_gateway.Sn.{SnMessage}
use mqtt_s_gateway.Sn.Replies.{
  sn_unsub_ack, SnSubAck, sn_sub_ack, sub_ack_qos, sub_ack_topic_id, sub_ack_msg_id,
  sub_ack_return_code, publish_topic_id_type, publish_topic_id, publish_msg_id, publish_data,
}
use mqtt_s_gateway.Sn.Requests.{
  sn_publish, SnSubscribe, sn_subscribe, sn_unsubscribe, absorb_subscribe, subscribe_topic_id,
  subscribe_msg_id, subscribe_qos,
}
use mqtt_s_gateway.Sn.Types.{
  sn_flag_dup, sn_flag_retain, sn_topic_type_predefined, sn_topic_type_short,
}
use mqtt_s_gateway.Topics.{get_topic, get_topic_by_id, create_topic, topicid_predefined_time}

-- The SUBSCRIBE for the broker, but for its topic.
unfoldable pub subscribe_for_broker : SnSubscribe → ℕ → MqttMessage
subscribe_for_broker s id =
    let marked = set_message_id mqtt_subscribe id in
    let repeated = if nonzero (bit_and s.flags sn_flag_dup) then set_dup marked else marked in
    let retained =
      if nonzero (bit_and s.flags sn_flag_retain) then set_retain repeated else repeated in
    set_qos retained (subscribe_qos s)

-- The SUBACK for a predefined topic id.
unfoldable pub predefined_sub_ack : SnSubscribe → ℕ → ℕ → Option SnSubAck
predefined_sub_ack s id topic = do
  a1 ← sub_ack_qos sn_sub_ack (subscribe_qos s)
  a2 ← sub_ack_topic_id a1 topic
  a3 ← sub_ack_msg_id a2 id
  sub_ack_return_code a3 (
      if topic == topicid_predefined_time
      then mqtt_rc_accepted
      else mqtt_rc_refused_identifier_rejected)

-- The PUBLISH with the time that a subscriber of the predefined topic gets at once.
unfoldable pub publish_time : Desk → Option Desk
publish_time d = do
  p1 ← publish_topic_id_type sn_publish 1
  p2 ← publish_topic_id p1 topicid_predefined_time
  let node = get_next_sn_msg_id d.node
  p3 ← publish_msg_id p2 node.sn_msg_id
  p4 ← publish_data p3 d.time_bytes
  send_client (record d { node = node }) p4.base

unfoldable pub subscribe_predefined : Desk → SnSubscribe → ℕ → Option Desk
subscribe_predefined d s id = do
  topic ← subscribe_topic_id s
  d1 ←
      if nonzero id
      then (predefined_sub_ack s id topic >>= λ ack. send_client d ack.base)
      else some d
  if topic == topicid_predefined_time then publish_time d1 else some d1

-- The topic table and the topic id of a name that is subscribed to.
unfoldable pub topic_for : Desk → Str → Desk × ℕ
topic_for d name =
    let made = create_topic d.node.topics name d.unspecified.created_word in
    let added : Desk × ℕ = (record d { node = record (d.node) { topics = made.0 } }, made.1) in
    elim (get_topic d.node.topics name) [ some tp ↦ (d, tp.topic_id) | none ↦ added ]

-- With a message id, the SUBACK for the client is kept until the broker acknowledges.
unfoldable pub await_sub_ack : Desk → ℕ → ℕ → Option Desk
await_sub_ack d id topic =
    if nonzero id
    then (do
      a1 ← sub_ack_msg_id sn_sub_ack id
      a2 ← sub_ack_topic_id a1 topic
      some (record d { node = record (d.node) { waited_sub_ack = some a2 } }))
    else some d

unfoldable pub subscribe_name : Desk → SnSubscribe → ℕ → Option Desk
subscribe_name d s id = do
  let known = topic_for d s.topic_name
  d1 ← await_sub_ack known.0 id known.1
  some (
      send_broker d1
        (own (set_topic_qos (subscribe_for_broker s id) s.topic_name (subscribe_qos s))))

unfoldable pub refuse_subscribe : Desk → SnSubscribe → ℕ → Option Desk
refuse_subscribe d s id =
    if nonzero id
    then (do
      topic ← subscribe_topic_id s
      a1 ← sub_ack_msg_id sn_sub_ack id
      a2 ← sub_ack_topic_id a1 topic
      a3 ← sub_ack_return_code a2 mqtt_rc_refused_identifier_rejected
      send_client d a3.base)
    else some d

-- handleSnSubscribe
unfoldable pub handle_sn_subscribe : Desk → SnMessage → Option Desk
handle_sn_subscribe d msg = printed msg (do
  s ← absorb_subscribe d.unspecified.topic_id sn_subscribe msg
  id ← subscribe_msg_id s
  let kind = bit_and s.flags 0x03
  if kind == 0x03
      then refuse_subscribe d s id
      else if kind == sn_topic_type_predefined
      then subscribe_predefined d s id
      else subscribe_name d s id)

unfoldable pub forward_unsubscribe : Desk → ℕ → Str → Desk
forward_unsubscribe d id name =
    send_broker d (own (set_topic (set_message_id mqtt_unsubscribe id) name))

-- The label `uslbl1`.
unfoldable pub answer_unsubscribe : Desk → ℕ → Option Desk
answer_unsubscribe d id =
    if nonzero id then (sn_unsub_ack id >>= λ ack. send_client d ack) else some d

-- handleSnUnsubscribe. Without a call of `setTopicName` the topic of the message stays empty.
unfoldable pub handle_sn_unsubscribe : Desk → SnMessage → Option Desk
handle_sn_unsubscribe d msg = printed msg (do
  u ← absorb_subscribe d.unspecified.topic_id sn_unsubscribe msg
  id ← subscribe_msg_id u
  let kind = bit_and u.flags 0x03
  if kind == 0x03
      then answer_unsubscribe d id
      else if kind == sn_topic_type_short
      then some (forward_unsubscribe d id u.topic_name)
      else elim (get_topic_by_id d.node.topics u.topic_id) [
        | some tp ↦
            if kind == sn_topic_type_predefined
            then answer_unsubscribe d id
            else some (forward_unsubscribe d id u.topic_name)
        | none ↦ some (forward_unsubscribe d id [])
      ])
