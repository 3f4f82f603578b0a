-- ===== src/Control/Connect.antt =====
-- The handlers of GatewayControlTask.cpp for the connection of a client: CONNECT, WILLTOPIC, WILLMSG.
use mqtt_s_gateway.Base.{◌>>=◌, ℕ, Bool, Option, none, some, if◌then◌else◌}
use mqtt_s_gateway.Client.{connect_at, ClientNode, new_connect_message, change_connect}
use mqtt_s_gateway.Control.Context.{printed, Desk, send_client, send_broker}
use mqtt_s_gateway.Mqtt.{
  MqttMessage, mqtt_connect, set_keep_alive_time, set_will_message, set_will_topic, set_will_qos,
  set_client_id, set_clean_session_flg,
}
use mqtt_s_gateway.Sn.{SnMessage}
use mqtt_s_gateway.Sn.Replies.{sn_connack, sn_will_topic_req, sn_will_msg_req}
use mqtt_s_gateway.Sn.Requests.{
  sn_connect, connect_duration, is_clean_session, is_will_required, absorb_connect, sn_will_topic,
  absorb_will_topic, will_qos, absorb_will_msg,
}
use mqtt_s_gateway.Sn.Types.{sn_rc_rejected_congestion}
use mqtt_s_gateway.Topics.{new_topics}

-- The CONNECT for the broker.
unfoldable pub connect_for_broker : ClientNode → ℕ → Bool → MqttMessage
connect_for_broker c duration clean =
    let m = set_keep_alive_time (set_client_id mqtt_connect c.node_id) duration in
    if clean then set_clean_session_flg m else m

-- The client node with its new CONNECT message and, for a clean session, an empty topic table.
unfoldable pub begin_session : ClientNode → ℕ → Bool → ClientNode
unfolding connect_for_broker new_connect_message
begin_session c duration clean =
    let c' = new_connect_message c (connect_for_broker c duration clean) in
    if clean then record c' { topics = new_topics } else c'

-- The else branch: the CONNECT goes to the broker, and the node keeps its pointer.
unfoldable pub send_connect : Desk → Option Desk
send_connect d = elim d.node.mqtt_connect [
  | none ↦ none
  | some at ↦ some (send_broker d (connect_at at))
]

-- handleSnConnect
unfoldable pub handle_sn_connect : Desk → SnMessage → Option Desk
handle_sn_connect d msg = printed msg (do
  c ← absorb_connect d.unspecified.client_id sn_connect msg
  duration ← connect_duration c.base
  clean ← is_clean_session c.base
  will ← is_will_required c.base
  let d1 = record d { node = begin_session d.node duration clean }
  if will then send_client d1 sn_will_topic_req else send_connect d1)

-- handleSnWillTopic
unfoldable pub handle_sn_will_topic : Desk → SnMessage → Option Desk
handle_sn_will_topic d msg = printed msg (do
  w ← absorb_will_topic sn_will_topic msg
  elim d.node.mqtt_connect [
    | none ↦ some d
    | some at ↦ do
      node ←
          change_connect d.node at (λ m. set_will_qos (set_will_topic m w.topic_name) (will_qos w))
      send_client (record d { node = node }) sn_will_msg_req
  ])

-- handleSnWillMsg
unfoldable pub handle_sn_will_msg : Desk → SnMessage → Option Desk
handle_sn_will_msg d msg = printed msg (do
  text ← absorb_will_msg msg
  elim d.node.mqtt_connect [
    | none ↦ sn_connack sn_rc_rejected_congestion >>= λ connack. send_client d connack
    | some at ↦ do
      node ← change_connect d.node at (λ m. set_will_message m text)
      some (send_broker (record d { node = record node { mqtt_connect = none } }) (connect_at at))
  ])
