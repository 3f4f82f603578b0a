-- ===== src/Control/Forwarding.antt =====
-- What the handlers of GatewayControlTask.cpp forward, and what they answer.
use mqtt_s_gateway.Base.{
  Str, ◌≡◌, true, some, nonzero, ◌+◌, refl, ap, ◌∙◌, false, Option, none, [], ◌∷◌, ◌++◌, arith,
  ◌==◌, if◌then◌else◌, Each, fails, gives, Each-bind, Each-chain, Each-if, from_each, Each-read,
  Each-test,
}
use mqtt_s_gateway.Client.{own, set_broker_send_message}
use mqtt_s_gateway.Control.Context.{Desk, send_client, send_broker, Each-printed}
use mqtt_s_gateway.Control.Upstream.{
  publish_for_broker, await_pub_ack, forward_publish, reject_publish, handle_sn_publish,
}
use mqtt_s_gateway.Event.{broker_send}
use mqtt_s_gateway.Mqtt.{MqttMessage, set_payload, set_qos, set_dup, set_retain}
use mqtt_s_gateway.Mqtt.Types.{mqtt_type_publish}
use mqtt_s_gateway.Sn.{SnMessage}
use mqtt_s_gateway.Sn.Replies.{sn_pub_ack, pub_ack_return_code}
use mqtt_s_gateway.Sn.Requests.{
  SnPublish, data_bytes, logical_and, sn_publish, absorb_publish, publish_qos,
}
use mqtt_s_gateway.Sn.Types.{sn_topic_type_short, sn_topic_type, sn_rc_rejected_invalid_topic_id}
use mqtt_s_gateway.Topics.{Topic, get_topic_by_id}

-- The MQTT message that a PUBLISH of a client becomes.
pub record IsForwarded (p : SnPublish) (name : Str) (m : MqttMessage) : Type 0 where
  pub is_publish : m.type ≡ mqtt_type_publish
  pub named : m.topic ≡ name
  pub carries : data_bytes p ≡ some m.payload
  pub numbered : m.message_id ≡ p.msg_id

-- A message for the broker is behind those that waited, and the client gets nothing.
pub record IsSent (d d' : Desk) (m : MqttMessage) : Type 0 where
  pub to_broker : d'.node.broker_send_que ≡ d.node.broker_send_que ++ own m ∷ []
  pub announced : d'.broker_send_que ≡ d.broker_send_que ++ broker_send d.client ∷ []
  pub nothing_back : d'.node.client_send_que ≡ d.node.client_send_que

-- The answer to a PUBLISH that is refused.
pub record IsRefusal (p : SnPublish) (m : SnMessage) : Type 0 where
  pub ack : SnMessage
  pub acknowledges : sn_pub_ack p.msg_id p.topic_id ≡ some ack
  pub refuses : pub_ack_return_code ack sn_rc_rejected_invalid_topic_id ≡ some m

-- What becomes of a PUBLISH of a client.
pub data PublishOutcome (d : Desk) (msg : SnMessage) (d' : Desk) : Type 0 where
  forwarded :
      (p : SnPublish) (tp : Topic) (m : MqttMessage)
      → absorb_publish sn_publish msg ≡ some p
      → get_topic_by_id d.node.topics p.topic_id ≡ some tp
      → IsForwarded p tp.topic_str m
      → IsSent d d' m
      → PublishOutcome d msg d'
  refused :
      (p : SnPublish) (m : SnMessage)
      → absorb_publish sn_publish msg ≡ some p
      → get_topic_by_id d.node.topics p.topic_id ≡ none
      → nonzero p.msg_id ≡ true
      → IsRefusal p m
      → send_client d m ≡ some d'
      → PublishOutcome d msg d'
  dropped :
      (p : SnPublish)
      → absorb_publish sn_publish msg ≡ some p
      → get_topic_by_id d.node.topics p.topic_id ≡ none
      → nonzero p.msg_id ≡ false
      → d' ≡ d
      → PublishOutcome d msg d'

module _ (p : SnPublish) (name bytes : Str) where
  pub marked_topic : (publish_for_broker p name).topic ≡ name
  unfolding publish_for_broker set_dup set_retain set_qos
  marked_topic = ground arith

  pub marked_type : (publish_for_broker p name).type ≡ mqtt_type_publish
  unfolding publish_for_broker set_dup set_retain set_qos
  marked_type = ground arith

  pub marked_id : (publish_for_broker p name).message_id ≡ p.msg_id
  unfolding publish_for_broker set_dup set_retain set_qos
  marked_id = ground arith

  with_payload-IsForwarded :
      data_bytes p ≡ some bytes → IsForwarded p name (set_payload (publish_for_broker p name) bytes)
  unfolding set_payload
  with_payload-IsForwarded reads = record {
    is_publish = marked_type;
    named = marked_topic;
    carries = reads;
    numbered = marked_id;
  }

-- What waiting for the acknowledgement leaves alone.
pub record Waits (d d1 : Desk) : Type 0 where
  pub broker_que : d1.node.broker_send_que ≡ d.node.broker_send_que
  pub client_que : d1.node.client_send_que ≡ d.node.client_send_que
  pub events : d1.broker_send_que ≡ d.broker_send_que
  pub number : d1.client ≡ d.client

pub await-Waits : (d : Desk) (p : SnPublish) → Each (Waits d) (await_pub_ack d p)
unfolding await_pub_ack
await-Waits d p =
    Each-if (nonzero p.msg_id)
      (Each-bind (sn_pub_ack p.msg_id p.topic_id) _ (λ ack.
        gives (record { broker_que = refl; client_que = refl; events = refl; number = refl })))
      (gives (record { broker_que = refl; client_que = refl; events = refl; number = refl }))

sent : (d d1 : Desk) (m : MqttMessage) → Waits d d1 → IsSent d (send_broker d1 (own m)) m
unfolding send_broker set_broker_send_message
sent d d1 m w = record {
  to_broker = ap (λ q. q ++ own m ∷ []) w.broker_que;
  announced =
      ap (λ es. es ++ broker_send d1.client ∷ []) w.events
      ∙ ap (λ n. d.broker_send_que ++ broker_send n ∷ []) w.number;
  nothing_back = w.client_que;
}

forward-Outcome :
    (d : Desk) (msg : SnMessage) (p : SnPublish) (tp : Topic)
    → absorb_publish sn_publish msg ≡ some p
    → get_topic_by_id d.node.topics p.topic_id ≡ some tp
    → Each (PublishOutcome d msg) (forward_publish d p tp.topic_str)
unfolding forward_publish
forward-Outcome d msg p tp takes knows = Each-chain _ (await-Waits d p) (λ d1 w.
    Each-read (data_bytes p) _ (λ bytes reads. gives (
      forwarded p tp _ takes knows (with_payload-IsForwarded p tp.topic_str bytes reads)
        (sent d d1 _ w))))

reject-Outcome :
    (d : Desk) (msg : SnMessage) (p : SnPublish)
    → absorb_publish sn_publish msg ≡ some p
    → get_topic_by_id d.node.topics p.topic_id ≡ none
    → Each (PublishOutcome d msg) (reject_publish d p)
unfolding reject_publish
reject-Outcome d msg p takes unknown =
    Each-test (nonzero p.msg_id)
      (λ numbered. Each-read (sn_pub_ack p.msg_id p.topic_id) _ (λ ack acks.
        Each-read (pub_ack_return_code ack sn_rc_rejected_invalid_topic_id) _ (λ m codes.
          answer m numbered (record { ack = ack; acknowledges = acks; refuses = codes })
            (send_client d m) refl)))
      (λ silent. gives (dropped p takes unknown silent refl))
  where
    answer :
        (m : SnMessage)
        → nonzero p.msg_id ≡ true
        → IsRefusal p m
        → (o : Option Desk) → send_client d m ≡ o
        → Each (PublishOutcome d msg) o
    answer m numbered refusal none e = fails
    answer m numbered refusal (some d') e = gives (refused p m takes unknown numbered refusal e)

-- `&&` gives 0 or 1, which is not the topic type of a short topic.
never_short : (p : SnPublish) → (logical_and p.flags sn_topic_type == sn_topic_type_short) ≡ false
never_short p = ground arith

apart : (p : SnPublish) → ¬ ((logical_and p.flags sn_topic_type == sn_topic_type_short) ≡ true)
apart p is_short = ground (arith, never_short p)

publish-Outcome :
    (d : Desk) (msg : SnMessage) → Each (PublishOutcome d msg) (handle_sn_publish d msg)
unfolding handle_sn_publish
publish-Outcome d msg = Each-printed msg (
    Each-read (absorb_publish sn_publish msg) _
      (λ p takes. known p takes (get_topic_by_id d.node.topics p.topic_id) refl))
  where
    known :
        (p : SnPublish)
        → absorb_publish sn_publish msg ≡ some p
        → (found : Option Topic) → get_topic_by_id d.node.topics p.topic_id ≡ found
        → Each (PublishOutcome d msg) (elim found [
          | some tp ↦ forward_publish d p tp.topic_str
          | none ↦
              if logical_and p.flags sn_topic_type == sn_topic_type_short
              then forward_publish d p []
              else reject_publish d p
        ])
    known p takes (some tp) e = forward-Outcome d msg p tp takes e
    known p takes none e =
        Each-test (logical_and p.flags sn_topic_type == sn_topic_type_short)
          (λ is_short. absurd (apart p is_short)) (λ long. reject-Outcome d msg p takes e)

-- A PUBLISH of a client that is handled has one of three outcomes. If its topic id is in the client's
-- table, a PUBLISH with the topic's name, the client's payload and the client's message id goes to the
-- broker, behind what waited, and nothing to the client. If the id is unknown, nothing goes to the
-- broker, and the client gets a PUBACK with the code for an invalid topic id if the message has an id,
-- and nothing if it has none. A short topic name is treated as an unknown id.
pub handle_sn_publish-PublishOutcome :
    (d d' : Desk) (msg : SnMessage) → handle_sn_publish d msg ≡ some d' → PublishOutcome d msg d'
handle_sn_publish-PublishOutcome d d' msg e = from_each (publish-Outcome d msg) e

-- A PUBLISH for the broker has the DUP and the RETAIN flag exactly if the client's message has any flag
-- at all, and the QoS bits tell whether the client's QoS is 0.
pub publish_for_broker_flags :
    (p : SnPublish) (name : Str)
    → (publish_for_broker p name).flags
      ≡ (if nonzero (publish_qos p) then 2 else 0) + (if nonzero p.flags then 9 else 0)
unfolding publish_for_broker set_dup set_retain set_qos
publish_for_broker_flags p name = ground arith
