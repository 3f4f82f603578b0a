-- ===== src/Control/Closed/Connect.antt =====
-- The handlers of CONNECT, WILLTOPIC and WILLMSG keep a closed predicate.
use mqtt_s_gateway.Base.{
  Str, ◌>>=◌, ℕ, Bool, true, false, Option, none, some, Each, fails, gives, Each-bind, Each-chain,
  Each-if,
}
use mqtt_s_gateway.Client.{connect_at, connect_message, new_connect_message, change_connect}
use mqtt_s_gateway.Control.Closed.{Closed, same_connects, on_client}
use mqtt_s_gateway.Control.Connect.{
  begin_session, send_connect, handle_sn_connect, handle_sn_will_topic, handle_sn_will_msg,
}
use mqtt_s_gateway.Control.Context.{Desk, send_client, send_broker, Each-printed}
use mqtt_s_gateway.Mqtt.{MqttMessage, set_will_message, set_will_topic, set_will_qos}
use mqtt_s_gateway.Sn.{SnMessage}
use mqtt_s_gateway.Sn.Replies.{sn_connack, sn_will_topic_req, sn_will_msg_req}
use mqtt_s_gateway.Sn.Requests.{
  sn_connect, connect_duration, is_clean_session, is_will_required, absorb_connect, SnWillTopic,
  sn_will_topic, absorb_will_topic, will_qos, absorb_will_msg,
}
use mqtt_s_gateway.Sn.Types.{sn_rc_rejected_congestion}

module _ {P : Desk → Type 0} (closed : Closed P) where
  send_connect_kept : (d : Desk) → P d → Each P (send_connect d)
  unfolding send_connect
  send_connect_kept d h = known d.node.mqtt_connect
    where
      known :
          (pointer : Option ℕ)
          → Each P (elim pointer [ none ↦ none | some at ↦ some (send_broker d (connect_at at)) ])
      known none = fails
      known (some at) = gives (closed.to_broker d _ h)

  begin_session_kept :
      (d : Desk) (duration : ℕ) (clean : Bool)
      → P d
      → P (record d { node = begin_session d.node duration clean })
  unfolding begin_session new_connect_message
  begin_session_kept d duration false h = closed.on_node d _ (same_connects d.node _ _) h
  begin_session_kept d duration true h =
      closed.on_clear _ (closed.on_node d _ (same_connects d.node _ _) h)

  pub sn_connect_kept : (d : Desk) (m : SnMessage) → P d → Each P (handle_sn_connect d m)
  unfolding handle_sn_connect
  sn_connect_kept d m h = Each-printed m (
      Each-bind (absorb_connect d.unspecified.client_id sn_connect m) _ (λ c.
        Each-bind (connect_duration c.base) _ (λ duration.
          Each-bind (is_clean_session c.base) _ (λ clean.
            Each-bind (is_will_required c.base) _ (λ will.
              let h1 = begin_session_kept d duration clean h in
              Each-if will (closed.to_client _ sn_will_topic_req h1) (send_connect_kept _ h1))))))

  changed :
      (d : Desk) (at : ℕ) (f : MqttMessage → MqttMessage)
      → P d
      → Each (λ c. P (record d { node = c })) (change_connect d.node at f)
  unfolding change_connect
  changed d at f h =
      Each-bind (connect_message d.node at) _
        (λ m. gives (closed.on_node d _ (same_connects d.node _ _) h))

  pub sn_will_topic_kept : (d : Desk) (m : SnMessage) → P d → Each P (handle_sn_will_topic d m)
  unfolding handle_sn_will_topic
  sn_will_topic_kept d m h =
      Each-printed m
        (Each-bind (absorb_will_topic sn_will_topic m) _ (λ w. known w d.node.mqtt_connect))
    where
      known :
          (w : SnWillTopic) (pointer : Option ℕ)
          → Each P (elim pointer [
            | none ↦ some d
            | some at ↦
                (change_connect d.node at
                    (λ m. set_will_qos (set_will_topic m w.topic_name) (will_qos w))
                  >>= λ node. send_client (record d { node = node }) sn_will_msg_req)
          ])
      known w none = gives h
      known w (some at) = Each-chain _ (changed d at _ h) (λ c kept. closed.to_client _ _ kept)

  pub sn_will_msg_kept : (d : Desk) (m : SnMessage) → P d → Each P (handle_sn_will_msg d m)
  unfolding handle_sn_will_msg
  sn_will_msg_kept d m h =
      Each-printed m (Each-bind (absorb_will_msg m) _ (λ text. known text d.node.mqtt_connect))
    where
      known :
          (text : Str) (pointer : Option ℕ)
          → Each P (elim pointer [
            | none ↦ (sn_connack sn_rc_rejected_congestion >>= λ connack. send_client d connack)
            | some at ↦
                (change_connect d.node at (λ m. set_will_message m text) >>= λ node. some (
                  send_broker
                    (record d { node = record node { mqtt_connect = none } })
                    (connect_at at)))
          ])
      known text none = on_client closed d (sn_connack sn_rc_rejected_congestion) h
      known text (some at) = Each-chain _ (changed d at _ h) (λ c kept.
          gives (closed.to_broker _ _ (closed.on_node _ _ (same_connects c _ none) kept)))
