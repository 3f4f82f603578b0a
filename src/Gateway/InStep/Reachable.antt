-- ===== src/Gateway/InStep/Reachable.antt =====
-- The runs of the gateway: the tasks of TomyGateway/src take their rounds in any order.
use mqtt_s_gateway.Base.{
  Str, ℕ, zero, suc, ◌+◌, ◌<◌, ◌≡◌, refl, ap, subst, Bool, Option, some, List, [], ◌∷◌, ◌++◌, arith,
  eq→eqb, length, All, from_each,
}
use mqtt_s_gateway.Client.{Outgoing, ClientNode, get_message}
use mqtt_s_gateway.Clients.{client_at}
use mqtt_s_gateway.Clients.Authorize.{Libc, authorize}
use mqtt_s_gateway.Event.{
  Event, na, timeout, broker_send, broker_recv, client_send, client_recv, broadcast,
}
use mqtt_s_gateway.Gateway.{Gateway, new_gateway}
use mqtt_s_gateway.Gateway.FromBroker.{receive_from_broker, poll}
use mqtt_s_gateway.Gateway.FromClients.{receive_response}
use mqtt_s_gateway.Gateway.InStep.{
  count, measured, Paired, IsForClients, IsForBrokers, IsForGateway, held, IsInStep,
}
use mqtt_s_gateway.Gateway.InStep.Admission.{authorize-IsInStep}
use mqtt_s_gateway.Gateway.InStep.Broker.{receive_from_broker-IsInStep, poll-IsInStep}
use mqtt_s_gateway.Gateway.InStep.Events.{run_control-IsInStep}
use mqtt_s_gateway.Gateway.InStep.Radio.{send_to_radio-IsInStep}
use mqtt_s_gateway.Gateway.InStep.Responses.{receive_response-IsInStep}
use mqtt_s_gateway.Gateway.InStep.Sending.{send_to_broker-IsInStep}
use mqtt_s_gateway.Gateway.Run.{Moment, run_control}
use mqtt_s_gateway.Gateway.ToBroker.{send_to_broker}
use mqtt_s_gateway.Gateway.ToClients.{send_to_radio}
use mqtt_s_gateway.Mqtt.{MqttMessage}
use mqtt_s_gateway.Sn.{SnMessage}
use mqtt_s_gateway.Socket.{OsAnswers}
use mqtt_s_gateway.Timer.{TimeVal}
use mqtt_s_gateway.Xbee.{XbResponse}

-- A round of one of the tasks that ends without an access out of bounds.
pub data Step (g : Gateway) : Gateway → Type 0 where
  authorizes :
      (libc : Libc) (file : Option (List Str))
      → Step g (record g { clients = authorize libc g.clients file })
  controls : {g' : Gateway} (mo : Moment) → run_control mo g ≡ some g' → Step g g'
  hears :
      {g' : Gateway} (now : TimeVal) (r : XbResponse)
      → receive_response now g r ≡ some g'
      → Step g g'
  talks : {g' : Gateway} (out : Str) → send_to_radio g ≡ some (g', out) → Step g g'
  polls : Step g (poll g)
  receives :
      {g' : Gateway} (i : ℕ) (ready : Bool) (received : Option Str)
      → receive_from_broker g i ready received ≡ some g'
      → Step g g'
  sends :
      {g' : Gateway} (os : OsAnswers) (out : Str) → send_to_broker os g ≡ some (g', out) → Step g g'

-- What the gateway can come to from its start.
pub data Run (now : TimeVal) : Gateway → Type 0 where
  started : Run now (new_gateway now)
  next : {g g' : Gateway} → Run now g → Step g g' → Run now g'

start-IsInStep : (now : TimeVal) → IsInStep (new_gateway now)
unfolding new_gateway measured count
start-IsInStep now = record {
  to_clients = record { each = λ j. refl };
  to_brokers = record { each = λ j. refl };
  from_clients = record { each = λ j. refl };
  from_brokers = record { each = λ j. refl };
  for_clients = tt;
  for_brokers = tt;
  for_gateway = tt;
}

Step-IsInStep : (g g' : Gateway) → IsInStep g → Step g g' → IsInStep g'
Step-IsInStep g g' h (authorizes libc file) = authorize-IsInStep libc g file h
Step-IsInStep g g' h (controls mo e) = from_each (run_control-IsInStep mo g h) e
Step-IsInStep g g' h (hears now r e) = from_each (receive_response-IsInStep now g r h) e
Step-IsInStep g g' h (talks out e) = from_each (send_to_radio-IsInStep g h) e
Step-IsInStep g g' h polls = poll-IsInStep g h
Step-IsInStep g g' h (receives i ready received e) =
    from_each (receive_from_broker-IsInStep g i ready received h) e
Step-IsInStep g g' h (sends os out e) = from_each (send_to_broker-IsInStep os g h) e

-- However the rounds of the tasks follow each other from the start on, as long as none ends in an
-- access out of bounds, each of the four queues of each client has as many messages as there are
-- events of its type for the client, and each queue of events has only events of its own types.
pub Run-IsInStep : (now : TimeVal) (g : Gateway) → Run now g → IsInStep g
Run-IsInStep now g started = start-IsInStep now
Run-IsInStep now g (next run step) = Step-IsInStep _ g (Run-IsInStep now _ run) step

-- The event that a task takes next.
pub data IsNext (g : Gateway) (ev : Event) : Type 0 where
  for_control : {rest : List Event} → g.gateway_event_que ≡ ev ∷ rest → IsNext g ev
  for_radio : {rest : List Event} → g.client_send_que ≡ ev ∷ rest → IsNext g ev
  for_broker : {rest : List Event} → held g.sender ++ g.broker_send_que ≡ ev ∷ rest → IsNext g ev

-- The client of the event is in the list, and the queue that the event's type names has a front
-- message.
pub data HasMessage (g : Gateway) : Event → Type 0 where
  of_recv_client :
      {i : ℕ} {c : ClientNode} {m : SnMessage}
      → client_at g.clients.nodes i ≡ some c
      → get_message c.client_recv_que ≡ some m
      → HasMessage g (client_recv i)
  of_recv_broker :
      {i : ℕ} {c : ClientNode} {m : MqttMessage}
      → client_at g.clients.nodes i ≡ some c
      → get_message c.broker_recv_que ≡ some m
      → HasMessage g (broker_recv i)
  of_send_client :
      {i : ℕ} {c : ClientNode} {m : SnMessage}
      → client_at g.clients.nodes i ≡ some c
      → get_message c.client_send_que ≡ some m
      → HasMessage g (client_send i)
  of_send_broker :
      {i : ℕ} {c : ClientNode} {m : Outgoing}
      → client_at g.clients.nodes i ≡ some c
      → get_message c.broker_send_que ≡ some m
      → HasMessage g (broker_send i)
  of_broadcast : {m : SnMessage} → HasMessage g (broadcast m)

found_node :
    (f : ClientNode → ℕ) (nodes : List ClientNode) (i : ℕ)
    → 0 < measured f nodes i
    → (c : ClientNode) × (client_at nodes i ≡ some c) × (0 < f c)
unfolding measured client_at
found_node f [] i lt = absurd (omega arith)
found_node f (c ∷ cs) zero lt = (c, refl, lt)
found_node f (c ∷ cs) (suc i) lt = found_node f cs i lt

front : {A : Type 0} (xs : List A) → 0 < length xs → (x : A) × (get_message xs ≡ some x)
front [] lt = absurd (omega arith)
front (x ∷ xs) lt = (x, refl)

-- The node and the front message that an event stands for.
waiting :
    {A : Type 0} {p : Event → Option ℕ} (que : ClientNode → List A) {nodes : List ClientNode}
    {events rest : List Event} {ev : Event} (i : ℕ)
    → Paired p (λ c. length (que c)) nodes events
    → events ≡ ev ∷ rest
    → p ev ≡ some i
    → (c : ClientNode) × (m : A) × (client_at nodes i ≡ some c) × (get_message (que c) ≡ some m)
unfolding count
waiting {p = p} que {nodes = nodes} {rest = rest} {ev = ev} i h e named =
    let counted : count p i (ev ∷ rest) ≡ count p i rest + 1 =
      rw named (ground (arith, eq→eqb i i refl)) in
    let (c, at, some_messages) =
      found_node (λ c. length (que c)) nodes i
        (omega (arith, h.each i, ap (count p i) e, counted)) in
    let (m, is) = front (que c) some_messages in (c, m, at, is)

-- In every state that the gateway can come to, the event that a task takes next names a client of
-- the list whose queue of the event's type has a front message, or is a broadcast.
pub Run-HasMessage :
    (now : TimeVal) (g : Gateway) (ev : Event) → Run now g → IsNext g ev → HasMessage g ev
Run-HasMessage now g ev run is_next = known (Run-IsInStep now g run) ev is_next
  where
    known : IsInStep g → (ev : Event) → IsNext g ev → HasMessage g ev
    known h (client_recv i) (for_control e) =
        let (c, m, at, is) = waiting (λ c. c.client_recv_que) i h.from_clients e refl in
        of_recv_client at is
    known h (broker_recv i) (for_control e) =
        let (c, m, at, is) = waiting (λ c. c.broker_recv_que) i h.from_brokers e refl in
        of_recv_broker at is
    known h (broadcast m) n = of_broadcast
    known h (client_send i) (for_radio e) =
        let (c, m, at, is) = waiting (λ c. c.client_send_que) i h.to_clients e refl in
        of_send_client at is
    known h (broker_send i) (for_broker e) =
        let (c, m, at, is) = waiting (λ c. c.broker_send_que) i h.to_brokers e refl in
        of_send_broker at is
    known h (client_send i) (for_control e) =
        elim ((subst (All IsForGateway) e h.for_gateway).0) [ ]
    known h (broker_send i) (for_control e) =
        elim ((subst (All IsForGateway) e h.for_gateway).0) [ ]
    known h na (for_control e) = elim ((subst (All IsForGateway) e h.for_gateway).0) [ ]
    known h timeout (for_control e) = elim ((subst (All IsForGateway) e h.for_gateway).0) [ ]
    known h (client_recv i) (for_radio e) = elim ((subst (All IsForClients) e h.for_clients).0) [ ]
    known h (broker_recv i) (for_radio e) = elim ((subst (All IsForClients) e h.for_clients).0) [ ]
    known h (broker_send i) (for_radio e) = elim ((subst (All IsForClients) e h.for_clients).0) [ ]
    known h na (for_radio e) = elim ((subst (All IsForClients) e h.for_clients).0) [ ]
    known h timeout (for_radio e) = elim ((subst (All IsForClients) e h.for_clients).0) [ ]
    known h (client_recv i) (for_broker e) = elim ((subst (All IsForBrokers) e h.for_brokers).0) [ ]
    known h (broker_recv i) (for_broker e) = elim ((subst (All IsForBrokers) e h.for_brokers).0) [ ]
    known h (client_send i) (for_broker e) = elim ((subst (All IsForBrokers) e h.for_brokers).0) [ ]
    known h na (for_broker e) = elim ((subst (All IsForBrokers) e h.for_brokers).0) [ ]
    known h timeout (for_broker e) = elim ((subst (All IsForBrokers) e h.for_brokers).0) [ ]
