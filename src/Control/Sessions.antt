-- ===== src/Control/Sessions.antt =====
-- The handlers of GatewayControlTask.cpp move a client node along its state diagram, by the messages
-- that they queue for the client.
use mqtt_s_gateway.Base.{
  ◌≡◌, refl, Option, none, some, List, [], ◌∷◌, ◌++◌, ◌>>=◌, Each, fails, gives, from_each, sym, ap,
  subst, ◌∙◌, append-nil, append_assoc, holds,
}
use mqtt_s_gateway.Client.{
  ClientNode, update_status, set_client_send_message, set_broker_send_message, ClientStatus,
}
use mqtt_s_gateway.Client.Queues.{SameQueues, update_status-SameQueues}
use mqtt_s_gateway.Client.Status.{has_duration, Edge, update_status-Edge}
use mqtt_s_gateway.Control.{handle_client_message, handle_broker_message}
use mqtt_s_gateway.Control.Closed.{Closed}
use mqtt_s_gateway.Control.Closed.Dispatch.{
  handle_client_message-Closed, handle_broker_message-Closed,
}
use mqtt_s_gateway.Control.Context.{Desk, send_client, send_broker}
use mqtt_s_gateway.Event.{client_send}
use mqtt_s_gateway.Mqtt.{MqttMessage}
use mqtt_s_gateway.Sn.{SnMessage}

-- A walk through the state diagram, with the messages on the way.
pub data Walk : ClientStatus → List SnMessage → ClientStatus → Type 0 where
  stop : {s : ClientStatus} → Walk s [] s
  go :
      {s s1 s2 : ClientStatus} {m : SnMessage} {ms : List SnMessage}
      → Edge s m.type (has_duration m) s1
      → Walk s1 ms s2
      → Walk s (m ∷ ms) s2

-- A node has queued some more messages for the client, and its state went along a walk with
-- them.
pub record Walks (start c : ClientNode) : Type 0 where
  pub added : List SnMessage
  pub queue : c.client_send_que ≡ start.client_send_que ++ added
  pub walk : Walk start.status added c.status

Walk-snoc :
    (s s1 s2 : ClientStatus) (ms : List SnMessage) (m : SnMessage)
    → Walk s ms s1
    → Edge s1 m.type (has_duration m) s2
    → Walk s (ms ++ m ∷ []) s2
Walk-snoc s s1 s2 [] m stop e = go e stop
Walk-snoc s s1 s2 (x ∷ ms) m (go e0 w) e = go e0 (Walk-snoc _ s1 s2 ms m w e)

Walks-queued :
    (start : ClientNode) (d : Desk) (m : SnMessage) (c : ClientNode)
    → Walks start d.node
    → SameQueues d.node c
    → Edge d.node.status m.type (has_duration m) c.status
    → Walks start (record c { client_send_que = c.client_send_que ++ m ∷ [] })
Walks-queued start d m c h same edge = record {
  added = h.added ++ m ∷ [];
  queue =
      ap (λ q. q ++ m ∷ []) (same.client_send ∙ h.queue)
      ∙ append_assoc start.client_send_que h.added (m ∷ []);
  walk = Walk-snoc start.status d.node.status c.status h.added m h.walk edge;
}

send_client-Walks :
    (start : ClientNode) (d : Desk) (m : SnMessage)
    → Walks start d.node
    → Each (λ d'. Walks start d'.node) (send_client d m)
unfolding send_client set_client_send_message
send_client-Walks start d m h =
    known (update_status d.node d.now m) (update_status-SameQueues d.node d.now m) refl
  where
    known :
        (updated : Option ClientNode)
        → Each (SameQueues d.node) updated
        → update_status d.node d.now m ≡ updated
        → Each
            (λ d'. Walks start d'.node)
            ((updated >>= λ c'. some (record c' { client_send_que = c'.client_send_que ++ m ∷ [] }))
              >>= λ node. some (record d {
                node = node;
                client_send_que = d.client_send_que ++ client_send d.client ∷ [];
              }))
    known none same step = fails
    known (some c) same step =
        gives (Walks-queued start d m c h (holds same) (update_status-Edge d.node c d.now m step))

same_walk :
    (start c c' : ClientNode)
    → Walks start c
    → c'.client_send_que ≡ c.client_send_que
    → c'.status ≡ c.status
    → Walks start c'
same_walk start c c' h q s = record {
  added = h.added;
  queue = q ∙ h.queue;
  walk = subst (λ x. Walk start.status h.added x) (sym s) h.walk;
}

Walks-Closed : (start : ClientNode) → Closed (λ d. Walks start d.node)
unfolding send_broker set_broker_send_message
Walks-Closed start = record {
  to_client = send_client-Walks start;
  to_broker = λ d m h. same_walk start d.node _ h refl refl;
  on_node = λ d c same h. same_walk start d.node c h same.client_send same.status;
  on_create = λ d name h. same_walk start d.node _ h refl refl;
  on_clear = λ d h. same_walk start d.node _ h refl refl;
}

stay_put : (c : ClientNode) → Walks c c
stay_put c = record { added = []; queue = sym (append-nil c.client_send_que); walk = stop }

-- A message from a client that is handled only adds messages behind those that wait for the client, and
-- the state of the client's node goes through the state diagram by these messages alone.
pub handle_client_message-Walks :
    (d d' : Desk) (m : SnMessage) → handle_client_message d m ≡ some d' → Walks d.node d'.node
handle_client_message-Walks d d' m e =
    from_each (handle_client_message-Closed (Walks-Closed d.node) d m (stay_put d.node)) e

-- A message from the broker that is handled only adds messages behind those that wait for the
-- client, and the state of the client's node goes through the state diagram by these
-- messages alone.
pub handle_broker_message-Walks :
    (d d' : Desk) (m : MqttMessage) → handle_broker_message d m ≡ some d' → Walks d.node d'.node
handle_broker_message-Walks d d' m e =
    from_each (handle_broker_message-Closed (Walks-Closed d.node) d m (stay_put d.node)) e
