-- ===== src/Control/Closed/Subscribe.antt =====
-- The handlers of SUBSCRIBE and UNSUBSCRIBE keep a closed predicate.
use mqtt_s_gateway.Base.{
  Str, ℕ, bit_and, Option, none, some, [], ◌==◌, if◌then◌else◌, nonzero, Each, gives, Each-bind,
  Each-chain, Each-if,
}
use mqtt_s_gateway.Client.{get_next_sn_msg_id}
use mqtt_s_gateway.Control.Closed.{Closed, same_sub_ack, same_sn_msg_id, on_client}
use mqtt_s_gateway.Control.Context.{Desk, Each-printed}
use mqtt_s_gateway.Control.Subscribe.{
  predefined_sub_ack, publish_time, subscribe_predefined, topic_for, await_sub_ack, subscribe_name,
  refuse_subscribe, handle_sn_subscribe, forward_unsubscribe, answer_unsubscribe,
  handle_sn_unsubscribe,
}
use mqtt_s_gateway.Mqtt.Types.{mqtt_rc_refused_identifier_rejected}
use mqtt_s_gateway.Sn.{SnMessage}
use mqtt_s_gateway.Sn.Replies.{
  sn_unsub_ack, sn_sub_ack, sub_ack_topic_id, sub_ack_msg_id, sub_ack_return_code,
  publish_topic_id_type, publish_topic_id, publish_msg_id, publish_data,
}
use mqtt_s_gateway.Sn.Requests.{
  sn_publish, SnSubscribe, sn_subscribe, sn_unsubscribe, absorb_subscribe, subscribe_topic_id,
  subscribe_msg_id,
}
use mqtt_s_gateway.Sn.Types.{sn_topic_type_predefined, sn_topic_type_short}
use mqtt_s_gateway.Topics.{Topic, topicid_predefined_time, get_topic, get_topic_by_id, create_topic}

module _ {P : Desk → Type 0} (closed : Closed P) where
  subscribe_predefined_kept :
      (d : Desk) (s : SnSubscribe) (id : ℕ) → P d → Each P (subscribe_predefined d s id)
  unfolding subscribe_predefined publish_time
  subscribe_predefined_kept d s id h = Each-bind (subscribe_topic_id s) _ (λ topic.
      Each-chain _
        (Each-if (nonzero id)
          (Each-bind (predefined_sub_ack s id topic) _ (λ ack. closed.to_client d _ h)) (gives h))
        (λ d1 h1.
          Each-if (topic == topicid_predefined_time)
            (Each-bind (publish_topic_id_type sn_publish 1) _ (λ p1.
              Each-bind (publish_topic_id p1 topicid_predefined_time) _ (λ p2.
                Each-bind (publish_msg_id p2 (get_next_sn_msg_id d1.node).sn_msg_id) _ (λ p3.
                  Each-bind (publish_data p3 d1.time_bytes) _ (λ p4.
                    closed.to_client _ _ (closed.on_node d1 _ (same_sn_msg_id d1.node) h1))))))
            (gives h1)))

  topic_for_kept : (d : Desk) (name : Str) → P d → P (topic_for d name).0
  unfolding topic_for
  topic_for_kept d name h = known (get_topic d.node.topics name)
    where
      known :
          (found : Option Topic)
          → let made = create_topic d.node.topics name d.unspecified.created_word in
            let added : Desk × ℕ =
              (record d { node = record (d.node) { topics = made.0 } }, made.1) in
            let result : Desk × ℕ = elim found [ some tp ↦ (d, tp.topic_id) | none ↦ added ] in
            P (result.0)
      known (some tp) = h
      known none = closed.on_create d name h

  await_sub_ack_kept : (d : Desk) (id topic : ℕ) → P d → Each P (await_sub_ack d id topic)
  unfolding await_sub_ack
  await_sub_ack_kept d id topic h =
      Each-if (nonzero id)
        (Each-bind (sub_ack_msg_id sn_sub_ack id) _ (λ a1.
          Each-bind (sub_ack_topic_id a1 topic) _
            (λ a2. gives (closed.on_node d _ (same_sub_ack d.node (some a2)) h))))
        (gives h)

  subscribe_name_kept : (d : Desk) (s : SnSubscribe) (id : ℕ) → P d → Each P (subscribe_name d s id)
  unfolding subscribe_name
  subscribe_name_kept d s id h =
      Each-chain _
        (await_sub_ack_kept (topic_for d s.topic_name).0 id _ (topic_for_kept d s.topic_name h))
        (λ d1 h1. gives (closed.to_broker d1 _ h1))

  refuse_kept : (d : Desk) (s : SnSubscribe) (id : ℕ) → P d → Each P (refuse_subscribe d s id)
  unfolding refuse_subscribe
  refuse_kept d s id h =
      Each-if (nonzero id)
        (Each-bind (subscribe_topic_id s) _ (λ topic.
          Each-bind (sub_ack_msg_id sn_sub_ack id) _ (λ a1.
            Each-bind (sub_ack_topic_id a1 topic) _ (λ a2.
              Each-bind (sub_ack_return_code a2 mqtt_rc_refused_identifier_rejected) _
                (λ a3. closed.to_client d _ h)))))
        (gives h)

  pub sn_subscribe_kept : (d : Desk) (m : SnMessage) → P d → Each P (handle_sn_subscribe d m)
  unfolding handle_sn_subscribe
  sn_subscribe_kept d m h = Each-printed m (
      Each-bind (absorb_subscribe d.unspecified.topic_id sn_subscribe m) _ (λ s.
        Each-bind (subscribe_msg_id s) _ (λ id.
          Each-if (bit_and s.flags 0x03 == 0x03) (refuse_kept d s id h) (
            Each-if (bit_and s.flags 0x03 == sn_topic_type_predefined)
              (subscribe_predefined_kept d s id h) (subscribe_name_kept d s id h)))))

  answer_kept : (d : Desk) (id : ℕ) → P d → Each P (answer_unsubscribe d id)
  unfolding answer_unsubscribe
  answer_kept d id h = Each-if (nonzero id) (on_client closed d (sn_unsub_ack id) h) (gives h)

  forward_unsubscribe_kept :
      (d : Desk) (id : ℕ) (name : Str) → P d → P (forward_unsubscribe d id name)
  unfolding forward_unsubscribe
  forward_unsubscribe_kept d id name h = closed.to_broker d _ h

  pub sn_unsubscribe_kept : (d : Desk) (m : SnMessage) → P d → Each P (handle_sn_unsubscribe d m)
  unfolding handle_sn_unsubscribe
  sn_unsubscribe_kept d m h = Each-printed m (
      Each-bind (absorb_subscribe d.unspecified.topic_id sn_unsubscribe m) _ (λ u.
        Each-bind (subscribe_msg_id u) _ (λ id.
          Each-if (bit_and u.flags 0x03 == 0x03) (answer_kept d id h) (
            Each-if (bit_and u.flags 0x03 == sn_topic_type_short)
              (gives (forward_unsubscribe_kept d id u.topic_name h))
              (known u id (get_topic_by_id d.node.topics u.topic_id))))))
    where
      known :
          (u : SnSubscribe) (id : ℕ) (found : Option Topic)
          → Each P (elim found [
            | some tp ↦
                if bit_and u.flags 0x03 == sn_topic_type_predefined
                then answer_unsubscribe d id
                else some (forward_unsubscribe d id u.topic_name)
            | none ↦ some (forward_unsubscribe d id [])
          ])
      known u id (some tp) =
          Each-if (bit_and u.flags 0x03 == sn_topic_type_predefined) (answer_kept d id h)
            (gives (forward_unsubscribe_kept d id u.topic_name h))
      known u id none = gives (forward_unsubscribe_kept d id [] h)
