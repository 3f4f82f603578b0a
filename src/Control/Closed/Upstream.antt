-- ===== src/Control/Closed/Upstream.antt =====
-- The handlers of PUBLISH, PUBACK, PINGREQ, REGISTER and DISCONNECT keep a closed predicate.
use mqtt_s_gateway.Base.{
  Str, Option, none, some, [], ◌==◌, if◌then◌else◌, nonzero, Each, gives, Each-bind, Each-chain,
  Each-if,
}
use mqtt_s_gateway.Control.Closed.{Closed, same_pub_ack, on_client}
use mqtt_s_gateway.Control.Context.{Desk, Each-printed}
use mqtt_s_gateway.Control.Upstream.{
  await_pub_ack, forward_publish, reject_publish, handle_sn_publish, handle_sn_ping_req,
  handle_sn_pub_ack, handle_sn_disconnect, handle_sn_register,
}
use mqtt_s_gateway.Sn.{SnMessage, sn_message, absorb}
use mqtt_s_gateway.Sn.Replies.{sn_reg_ack, sn_pub_ack, pub_ack_return_code, pub_ack_msg_id}
use mqtt_s_gateway.Sn.Requests.{logical_and, SnPublish, sn_register, absorb_register}
use mqtt_s_gateway.Sn.Types.{
  sn_type_puback, sn_topic_type_short, sn_topic_type, sn_rc_accepted,
  sn_rc_rejected_invalid_topic_id,
}
use mqtt_s_gateway.Topics.{Topic, get_topic_by_id}

module _ {P : Desk → Type 0} (closed : Closed P) where
  forward : (d : Desk) (p : SnPublish) (name : Str) → P d → Each P (forward_publish d p name)
  unfolding forward_publish await_pub_ack
  forward d p name h =
      Each-chain _
        (Each-if (nonzero p.msg_id)
          (Each-bind _ _ (λ ack. gives (closed.on_node d _ (same_pub_ack d.node (some ack)) h)))
          (gives h))
        (λ d1 h1. Each-bind _ _ (λ bytes. gives (closed.to_broker d1 _ h1)))

  reject : (d : Desk) (p : SnPublish) → P d → Each P (reject_publish d p)
  unfolding reject_publish
  reject d p h =
      Each-if (nonzero p.msg_id)
        (Each-bind (sn_pub_ack p.msg_id p.topic_id) _
          (λ ack. on_client closed d (pub_ack_return_code ack sn_rc_rejected_invalid_topic_id) h))
        (gives h)

  pub sn_publish_kept : (d : Desk) (m : SnMessage) → P d → Each P (handle_sn_publish d m)
  unfolding handle_sn_publish
  sn_publish_kept d m h =
      Each-printed m (Each-bind _ _ (λ p. known p (get_topic_by_id d.node.topics p.topic_id)))
    where
      known :
          (p : SnPublish) (found : Option Topic)
          → Each P (elim found [
            | some tp ↦ forward_publish d p tp.topic_str
            | none ↦
                if logical_and p.flags sn_topic_type == sn_topic_type_short
                then forward_publish d p []
                else reject_publish d p
          ])
      known p (some tp) = forward d p tp.topic_str h
      known p none =
          Each-if (logical_and p.flags sn_topic_type == sn_topic_type_short) (forward d p [] h)
            (reject d p h)

  pub sn_ping_req_kept : (d : Desk) (m : SnMessage) → P d → Each P (handle_sn_ping_req d m)
  unfolding handle_sn_ping_req
  sn_ping_req_kept d m h = Each-printed m (gives (closed.to_broker d _ h))

  pub sn_pub_ack_kept : (d : Desk) (m : SnMessage) → P d → Each P (handle_sn_pub_ack d m)
  unfolding handle_sn_pub_ack
  sn_pub_ack_kept d m h = Each-printed m (
      Each-bind (absorb (sn_message 7 sn_type_puback) m) _
        (λ a. Each-bind (pub_ack_msg_id a) _ (λ id. gives (closed.to_broker d _ h))))

  pub sn_disconnect_kept : (d : Desk) (m : SnMessage) → P d → Each P (handle_sn_disconnect d m)
  unfolding handle_sn_disconnect
  sn_disconnect_kept d m h = Each-printed m (Each-bind _ _ (λ a. gives (closed.to_broker d _ h)))

  pub sn_register_kept : (d : Desk) (m : SnMessage) → P d → Each P (handle_sn_register d m)
  unfolding handle_sn_register
  sn_register_kept d m h = Each-printed m (
      Each-bind (absorb_register sn_register m) _ (λ r.
        on_client closed _ (sn_reg_ack r.msg_id _ sn_rc_accepted)
          (closed.on_create d r.topic_name h)))
