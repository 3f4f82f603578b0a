-- ===== src/Control/Closed/Downstream.antt =====
-- The handlers of the broker's messages keep a closed predicate.
use mqtt_s_gateway.Base.{
  ◌>>=◌, ℕ, Option, none, some, ◌==◌, if◌then◌else◌, nonzero, Each, gives, Each-bind, Each-chain,
  Each-if,
}
use mqtt_s_gateway.Control.Closed.{Closed, same_pub_ack, same_sub_ack, on_client}
use mqtt_s_gateway.Control.Context.{Desk, send_client, Each-printed}
use mqtt_s_gateway.Control.Downstream.{
  handle_puback, handle_suback, handle_connack, publish_for_client, deliver, deliver_new,
  handle_publish,
}
use mqtt_s_gateway.Mqtt.{MqttMessage}
use mqtt_s_gateway.Sn.{SnMessage}
use mqtt_s_gateway.Sn.Replies.{
  sn_connack, pub_ack_msg_id, SnSubAck, sub_ack_qos, sub_ack_return_code, sn_register_for,
}
use mqtt_s_gateway.Sn.Types.{sn_rc_accepted, sn_rc_rejected_not_supported}
use mqtt_s_gateway.Topics.{create_topic}

module _ {P : Desk → Type 0} (closed : Closed P) where
  pub puback_kept : (d : Desk) (mq : MqttMessage) → P d → Each P (handle_puback d mq)
  unfolding handle_puback
  puback_kept d mq h = known d.node.waited_pub_ack
    where
      known :
          (waited : Option SnMessage)
          → Each P (elim waited [
            | none ↦ some d
            | some ack ↦
                (pub_ack_msg_id ack >>= λ id.
                if id == mq.message_id
                then send_client (record d { node = record (d.node) { waited_pub_ack = none } }) ack
                else some d)
          ])
      known none = gives h
      known (some ack) = Each-bind (pub_ack_msg_id ack) _ (λ id.
          Each-if (id == mq.message_id)
            (closed.to_client _ ack (closed.on_node d _ (same_pub_ack d.node none) h)) (gives h))

  pub suback_kept : (d : Desk) (mq : MqttMessage) → P d → Each P (handle_suback d mq)
  unfolding handle_suback
  suback_kept d mq h = known d.node.waited_sub_ack
    where
      known :
          (waited : Option SnSubAck)
          → Each P (elim waited [
            | none ↦ some d
            | some ack ↦
                let sent =
                  (sub_ack_return_code ack sn_rc_accepted >>= λ a1. sub_ack_qos a1 mq.qos >>= λ a2.
                  send_client
                    (record d { node = record (d.node) { waited_sub_ack = none } })
                    a2.base) in
                if ack.msg_id == mq.message_id then sent else some d
          ])
      known none = gives h
      known (some ack) =
          Each-if (ack.msg_id == mq.message_id)
            (Each-bind (sub_ack_return_code ack sn_rc_accepted) _ (λ a1.
              Each-bind (sub_ack_qos a1 mq.qos) _
                (λ a2. closed.to_client _ _ (closed.on_node d _ (same_sub_ack d.node none) h))))
            (gives h)

  deliver_kept : (d : Desk) (mq : MqttMessage) (flags id : ℕ) → P d → Each P (deliver d mq flags id)
  unfolding deliver
  deliver_kept d mq flags id h =
      Each-bind (publish_for_client mq flags id) _
        (λ p. Each-printed p.base (closed.to_client d _ h))

  deliver_new_kept :
      (d : Desk) (mq : MqttMessage) (flags : ℕ) → P d → Each P (deliver_new d mq flags)
  unfolding deliver_new
  deliver_new_kept d mq flags h =
      let id = (create_topic d.node.topics mq.topic d.unspecified.created_word).1 in
      Each-if (nonzero id)
        (Each-bind (sn_register_for id mq.topic) _ (λ reg.
          Each-chain _ (Each-printed reg (closed.to_client _ reg (closed.on_create d mq.topic h)))
            (λ d1 h1. deliver_kept d1 mq flags id h1)))
        (gives h)

  pub publish_kept : (d : Desk) (mq : MqttMessage) → P d → Each P (handle_publish d mq)
  unfolding handle_publish
  publish_kept d mq h = Each-if _ (deliver_new_kept d mq _ h) (deliver_kept d mq _ _ h)

  pub connack_kept : (d : Desk) (mq : MqttMessage) → P d → Each P (handle_connack d mq)
  unfolding handle_connack
  connack_kept d mq h =
      on_client closed d
        (sn_connack (if nonzero mq.return_cd then sn_rc_rejected_not_supported else sn_rc_accepted))
        h
