-- ===== src/Control/Tables.antt =====
-- The topic table of a client through the handlers of GatewayControlTask.cpp.
use mqtt_s_gateway.Base.{
  Str, ℕ, ◌≤◌, ◌<◌, ◌≡◌, Option, none, some, [], ◌∷◌, ltb, if◌then◌else◌, length, length-append, u8,
  ◌+◌, refl, sym, ap, subst, ◌∙◌, Bool, true, false, ◌++◌, arith, ltb→lt, ◌>>=◌, Each, fails, gives,
  holds, from_each,
}
use mqtt_s_gateway.Client.{
  ClientNode, update_status, set_client_send_message, set_broker_send_message,
}
use mqtt_s_gateway.Client.Queues.{SameQueues, update_status-SameQueues}
use mqtt_s_gateway.Control.{handle_client_message, handle_broker_message}
use mqtt_s_gateway.Control.Closed.{Closed}
use mqtt_s_gateway.Control.Closed.Dispatch.{
  handle_client_message-Closed, handle_broker_message-Closed,
}
use mqtt_s_gateway.Control.Context.{Desk, send_client, send_broker}
use mqtt_s_gateway.Event.{client_send}
use mqtt_s_gateway.Mqtt.{MqttMessage}
use mqtt_s_gateway.Sn.{SnMessage}
use mqtt_s_gateway.Topics.{
  Topic, Topics, max_topic_count, get_topic, get_topic_id, add_topic, create_topic, new_topics,
}

-- A table of at most the maximal number of topics, and that number.
pub record IsBounded (t : Topics) : Type 0 where
  pub counted : t.cnt ≡ length t.topics
  pub few : t.cnt ≤ max_topic_count

add_topic-IsBounded :
    (t : Topics) (s : Str) (word : ℕ)
    → IsBounded t
    → t.cnt < max_topic_count
    → IsBounded (add_topic t s word)
unfolding add_topic
add_topic-IsBounded t s word h room =
    let small : u8 (t.cnt + 1) ≡ t.cnt + 1 = omega arith in
    record {
      counted = small ∙ ap (λ n. n + 1) h.counted ∙ sym (length-append t.topics _);
      few = subst (λ n. n ≤ max_topic_count) (sym small) (omega arith);
    }

create_topic-IsBounded :
    (t : Topics) (s : Str) (word : ℕ) → IsBounded t → IsBounded (create_topic t s word).0
unfolding create_topic
create_topic-IsBounded t s word h = known (get_topic t s)
  where
    created :
        (room : Bool)
        → ltb t.cnt max_topic_count ≡ room
        → let result : Topics × ℕ =
            if room then (add_topic t s word, (add_topic t s word).next_topic_id) else (t, 0) in
          IsBounded (result.0)
    created true e = add_topic-IsBounded t s word h (ltb→lt t.cnt max_topic_count e)
    created false e = h

    known :
        (found : Option Topic)
        → let result : Topics × ℕ = elim found [
          | some tp ↦ (t, get_topic_id t s)
          | none ↦
              if ltb t.cnt max_topic_count
              then (add_topic t s word, (add_topic t s word).next_topic_id)
              else (t, 0)
        ] in
          IsBounded (result.0)
    known (some tp) = h
    known none = created _ refl

new_topics-IsBounded : IsBounded new_topics
unfolding new_topics
new_topics-IsBounded = record { counted = refl; few = omega arith }

send_client-IsBounded :
    (d : Desk) (m : SnMessage)
    → IsBounded d.node.topics
    → Each (λ d'. IsBounded d'.node.topics) (send_client d m)
unfolding send_client set_client_send_message
send_client-IsBounded d m h =
    known (update_status d.node d.now m) (update_status-SameQueues d.node d.now m)
  where
    known :
        (updated : Option ClientNode)
        → Each (SameQueues d.node) updated
        → Each
            (λ d'. IsBounded d'.node.topics)
            ((updated >>= λ c'. some (record c' { client_send_que = c'.client_send_que ++ m ∷ [] }))
              >>= λ node. some (record d {
                node = node;
                client_send_que = d.client_send_que ++ client_send d.client ∷ [];
              }))
    known none same = fails
    known (some c) same = gives (subst IsBounded (sym (holds same).topics) h)

IsBounded-Closed : Closed (λ d. IsBounded d.node.topics)
unfolding send_broker set_broker_send_message
IsBounded-Closed = record {
  to_client = send_client-IsBounded;
  to_broker = λ d m h. h;
  on_node = λ d c same h. subst IsBounded (sym same.topics) h;
  on_create = λ d name h. create_topic-IsBounded d.node.topics name _ h;
  on_clear = λ d h. new_topics-IsBounded;
}

-- If the topic table of a client counts its topics and holds 50 at most, then so it is after any
-- message from the client was handled.
pub handle_client_message-IsBounded :
    (d d' : Desk) (m : SnMessage)
    → IsBounded d.node.topics
    → handle_client_message d m ≡ some d'
    → IsBounded d'.node.topics
handle_client_message-IsBounded d d' m h e =
    from_each (handle_client_message-Closed IsBounded-Closed d m h) e

-- If the topic table of a client counts its topics and holds 50 at most, then so it is after any
-- message from the broker was handled.
pub handle_broker_message-IsBounded :
    (d d' : Desk) (m : MqttMessage)
    → IsBounded d.node.topics
    → handle_broker_message d m ≡ some d'
    → IsBounded d'.node.topics
handle_broker_message-IsBounded d d' m h e =
    from_each (handle_broker_message-Closed IsBounded-Closed d m h) e
