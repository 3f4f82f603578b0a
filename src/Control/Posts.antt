-- ===== src/Control/Posts.antt =====
-- The queues of a client node and the events that GatewayControlTask.cpp posts for them.
use mqtt_s_gateway.Base.{
  ℕ, ◌+◌, ◌≡◌, List, [], ◌∷◌, ◌==◌, if◌then◌else◌, length, refl, ◌++◌, arith, eq→eqb, length-append,
  Each, gives, Each-chain, sym, ap, ◌∙◌, Option, none, some, drop, ◌>>=◌, fails, holds, Each-bind,
  from_each,
}
use mqtt_s_gateway.Client.{
  ClientNode, set_client_send_message, update_status, set_broker_send_message,
  delete_broker_recv_message, delete_client_recv_message, get_message,
}
use mqtt_s_gateway.Client.Queues.{SameQueues, update_status-SameQueues}
use mqtt_s_gateway.Control.{run_client_recv, run_broker_recv}
use mqtt_s_gateway.Control.Closed.{Closed}
use mqtt_s_gateway.Control.Closed.Dispatch.{
  handle_client_message-Closed, handle_broker_message-Closed,
}
use mqtt_s_gateway.Control.Context.{Desk, send_client, send_broker}
use mqtt_s_gateway.Event.{
  Event, broker_send, client_send, na, timeout, broker_recv, client_recv, broadcast,
}
use mqtt_s_gateway.Sn.{SnMessage}

-- The events of the lists that name the client.
unfoldable pub sends_to_client : ℕ → List Event → ℕ
sends_to_client client [] = 0
sends_to_client client (client_send n ∷ es) =
    if n == client then sends_to_client client es + 1 else sends_to_client client es
sends_to_client client (e ∷ es) = sends_to_client client es

unfoldable pub sends_to_broker : ℕ → List Event → ℕ
sends_to_broker client [] = 0
sends_to_broker client (broker_send n ∷ es) =
    if n == client then sends_to_broker client es + 1 else sends_to_broker client es
sends_to_broker client (e ∷ es) = sends_to_broker client es

-- Each waiting message has an event, and each event a message.
pub record IsBalanced (d : Desk) : Type 0 where
  pub for_client : length d.node.client_send_que ≡ sends_to_client d.client d.client_send_que
  pub for_broker : length d.node.broker_send_que ≡ sends_to_broker d.client d.broker_send_que

append_to_client :
    (client : ℕ) (es : List Event)
    → sends_to_client client (es ++ client_send client ∷ []) ≡ sends_to_client client es + 1
unfolding sends_to_client
append_to_client client [] = ground (arith, eq→eqb client client refl)
append_to_client client (client_send n ∷ es) = ground (arith, append_to_client client es)
append_to_client client (na ∷ es) = append_to_client client es
append_to_client client (timeout ∷ es) = append_to_client client es
append_to_client client (broker_send n ∷ es) = append_to_client client es
append_to_client client (broker_recv n ∷ es) = append_to_client client es
append_to_client client (client_recv n ∷ es) = append_to_client client es
append_to_client client (broadcast m ∷ es) = append_to_client client es

append_to_broker :
    (client : ℕ) (es : List Event)
    → sends_to_broker client (es ++ broker_send client ∷ []) ≡ sends_to_broker client es + 1
unfolding sends_to_broker
append_to_broker client [] = ground (arith, eq→eqb client client refl)
append_to_broker client (broker_send n ∷ es) = ground (arith, append_to_broker client es)
append_to_broker client (na ∷ es) = append_to_broker client es
append_to_broker client (timeout ∷ es) = append_to_broker client es
append_to_broker client (client_send n ∷ es) = append_to_broker client es
append_to_broker client (broker_recv n ∷ es) = append_to_broker client es
append_to_broker client (client_recv n ∷ es) = append_to_broker client es
append_to_broker client (broadcast m ∷ es) = append_to_broker client es

-- The invariant, with the queues of received messages as they were.
record Posts (inbox : ClientNode) (d : Desk) : Type 0 where
  balanced : IsBalanced d
  client_recv : d.node.client_recv_que ≡ inbox.client_recv_que
  broker_recv : d.node.broker_recv_que ≡ inbox.broker_recv_que

longer : {A : Type 0} (xs : List A) (x : A) → length (xs ++ x ∷ []) ≡ length xs + 1
longer xs x = length-append xs (x ∷ [])

queued :
    (inbox : ClientNode) (d : Desk) (m : SnMessage) (c : ClientNode)
    → Posts inbox d
    → SameQueues d.node c
    → Posts inbox (record d {
      node = record c { client_send_que = c.client_send_que ++ m ∷ [] };
      client_send_que = d.client_send_que ++ client_send d.client ∷ [];
    })
queued inbox d m c h same = record {
  balanced = record {
    for_client =
        longer c.client_send_que m
        ∙ ap (λ q. length q + 1) same.client_send
        ∙ ap (λ n. n + 1) h.balanced.for_client
        ∙ sym (append_to_client d.client d.client_send_que);
    for_broker = ap length same.broker_send ∙ h.balanced.for_broker;
  };
  client_recv = same.client_recv ∙ h.client_recv;
  broker_recv = same.broker_recv ∙ h.broker_recv;
}

send_client-Posts :
    (inbox : ClientNode) (d : Desk) (m : SnMessage)
    → Posts inbox d
    → Each (Posts inbox) (send_client d m)
unfolding send_client set_client_send_message
send_client-Posts inbox d m h =
    known (update_status d.node d.now m) (update_status-SameQueues d.node d.now m)
  where
    known :
        (updated : Option ClientNode)
        → Each (SameQueues d.node) updated
        → Each (Posts inbox) (
            (updated >>= λ c'. some (record c' { client_send_que = c'.client_send_que ++ m ∷ [] }))
            >>= λ node. some (record d {
              node = node;
              client_send_que = d.client_send_que ++ client_send d.client ∷ [];
            }))
    known none same = fails
    known (some c) same = gives (queued inbox d m c h (holds same))

Posts-Closed : (inbox : ClientNode) → Closed (Posts inbox)
unfolding send_broker set_broker_send_message
Posts-Closed inbox = record {
  to_client = send_client-Posts inbox;
  to_broker = λ d m h. record {
    balanced = record {
      for_client = h.balanced.for_client;
      for_broker =
          longer d.node.broker_send_que m
          ∙ ap (λ n. n + 1) h.balanced.for_broker
          ∙ sym (append_to_broker d.client d.broker_send_que);
    };
    client_recv = h.client_recv;
    broker_recv = h.broker_recv;
  };
  on_node = λ d c same h. record {
    balanced = record {
      for_client = ap length same.client_send ∙ h.balanced.for_client;
      for_broker = ap length same.broker_send ∙ h.balanced.for_broker;
    };
    client_recv = same.client_recv ∙ h.client_recv;
    broker_recv = same.broker_recv ∙ h.broker_recv;
  };
  on_create = λ d name h. record {
    balanced = record { for_client = h.balanced.for_client; for_broker = h.balanced.for_broker };
    client_recv = h.client_recv;
    broker_recv = h.broker_recv;
  };
  on_clear = λ d h. record {
    balanced = record { for_client = h.balanced.for_client; for_broker = h.balanced.for_broker };
    client_recv = h.client_recv;
    broker_recv = h.broker_recv;
  };
}

begin : (d : Desk) → IsBalanced d → Posts d.node d
begin d h = record { balanced = h; client_recv = refl; broker_recv = refl }

after_client :
    (d d' : Desk)
    → Posts d.node d'
    → IsBalanced (record d' { node = delete_client_recv_message d'.node })
      × (drop 1 d'.node.client_recv_que ≡ drop 1 d.node.client_recv_que)
unfolding delete_client_recv_message
after_client d d' h = (
  record { for_client = h.balanced.for_client; for_broker = h.balanced.for_broker },
  ap (drop 1) h.client_recv,
)

after_broker :
    (d d' : Desk)
    → Posts d.node d'
    → IsBalanced (record d' { node = delete_broker_recv_message d'.node })
      × (drop 1 d'.node.broker_recv_que ≡ drop 1 d.node.broker_recv_que)
unfolding delete_broker_recv_message
after_broker d d' h = (
  record { for_client = h.balanced.for_client; for_broker = h.balanced.for_broker },
  ap (drop 1) h.broker_recv,
)

run_client-Each :
    (d : Desk)
    → IsBalanced d
    → Each
        (λ d'. IsBalanced d' × (d'.node.client_recv_que ≡ drop 1 d.node.client_recv_que))
        (run_client_recv d)
unfolding run_client_recv delete_client_recv_message
run_client-Each d h = Each-bind (get_message d.node.client_recv_que) _ (λ m.
    Each-chain _ (handle_client_message-Closed (Posts-Closed d.node) d m (begin d h))
      (λ d' posts. gives (after_client d d' posts)))

run_broker-Each :
    (d : Desk)
    → IsBalanced d
    → Each
        (λ d'. IsBalanced d' × (d'.node.broker_recv_que ≡ drop 1 d.node.broker_recv_que))
        (run_broker_recv d)
unfolding run_broker_recv delete_broker_recv_message
run_broker-Each d h = Each-bind (get_message d.node.broker_recv_que) _ (λ m.
    Each-chain _ (handle_broker_message-Closed (Posts-Closed d.node) d m (begin d h))
      (λ d' posts. gives (after_broker d d' posts)))

-- If each message that waits in a send queue of the client has its event, and each such event its
-- message, then this holds again after a message from the client was handled, and the handled message,
-- the oldest one, is gone from its queue.
pub run_client_recv-IsBalanced :
    (d d' : Desk)
    → IsBalanced d
    → run_client_recv d ≡ some d'
    → IsBalanced d' × (d'.node.client_recv_que ≡ drop 1 d.node.client_recv_que)
run_client_recv-IsBalanced d d' h e = from_each (run_client-Each d h) e

-- If each message that waits in a send queue of the client has its event, and each such event its
-- message, then this holds again after a message from the broker was handled, and the handled message,
-- the oldest one, is gone from its queue.
pub run_broker_recv-IsBalanced :
    (d d' : Desk)
    → IsBalanced d
    → run_broker_recv d ≡ some d'
    → IsBalanced d' × (d'.node.broker_recv_que ≡ drop 1 d.node.broker_recv_que)
run_broker_recv-IsBalanced d d' h e = from_each (run_broker-Each d h) e
