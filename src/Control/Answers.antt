-- ===== src/Control/Answers.antt =====
-- What a client gets of the broker's answers (GatewayControlTask.cpp).
use mqtt_s_gateway.Base.{
  ℕ, ◌≡◌, refl, Option, some, if◌then◌else◌, ◌>>=◌, Each, gives, from_each, Str, ◌+◌, sym, subst,
  [], ◌∷◌, ◌++◌, nonzero, Each-bind, Each-chain,
}
use mqtt_s_gateway.Client.{connecting, active, set_client_send_message, ClientNode}
use mqtt_s_gateway.Client.Status.{connack_activates}
use mqtt_s_gateway.Control.Context.{Desk, send_client}
use mqtt_s_gateway.Control.Downstream.{handle_connack}
use mqtt_s_gateway.Event.{client_send}
use mqtt_s_gateway.Mqtt.{MqttMessage}
use mqtt_s_gateway.Sn.{SnMessage, sn_message, write_block, put}
use mqtt_s_gateway.Sn.Replies.{sn_connack}
use mqtt_s_gateway.Sn.Types.{sn_rc_accepted, sn_type_connack, sn_rc_rejected_not_supported}

put_type : (m : SnMessage) (at : ℕ) (bytes : Str) → Each (λ m'. m'.type ≡ m.type) (put m at bytes)
unfolding put
put_type m at bytes = Each-bind (write_block m.message (2 + at) bytes) _ (λ message. gives refl)

connack_type : (rc : ℕ) → Each (λ m. m.type ≡ sn_type_connack) (sn_connack rc)
unfolding sn_connack sn_message
connack_type rc = put_type (sn_message 3 sn_type_connack) 0 (rc ∷ [])

activates :
    (d : Desk) (m : SnMessage)
    → d.node.status ≡ connecting
    → m.type ≡ sn_type_connack
    → Each (λ d'. d'.node.status ≡ active) (send_client d m)
unfolding send_client set_client_send_message
activates d m waits is =
    subst
      (λ (o : Option ClientNode).
        Each (λ (d' : Desk). d'.node.status ≡ active)
          ((o >>= λ c'. some (record c' { client_send_que = c'.client_send_que ++ m ∷ [] }))
            >>= λ node. some (record d {
              node = node;
              client_send_que = d.client_send_que ++ client_send d.client ∷ [];
            })))
      (sym (connack_activates d.node d.now m waits is)) (gives refl)

-- A client that waits for the CONNACK becomes active, whatever return code the broker's CONNACK has.
pub handle_connack-active :
    (d d' : Desk) (mq : MqttMessage)
    → d.node.status ≡ connecting
    → handle_connack d mq ≡ some d'
    → d'.node.status ≡ active
unfolding handle_connack
handle_connack-active d d' mq waits e =
    from_each
      (Each-chain _
        (connack_type
          (if nonzero mq.return_cd then sn_rc_rejected_not_supported else sn_rc_accepted))
        (λ m is. activates d m waits is))
      e
