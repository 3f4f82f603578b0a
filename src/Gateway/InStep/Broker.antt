-- ===== src/Gateway/InStep/Broker.antt =====
-- The rounds of BrokerRecvTask and BrokerSendTask (TomyGateway/src/BrokerRecvTask.cpp and
-- BrokerSendTask.cpp) keep messages and events in step.
use mqtt_s_gateway.Base.{
  Str, ℕ, zero, suc, ◌-◌, ◌≡◌, refl, subst, Bool, true, false, Option, none, some, List, [], ◌∷◌,
  ltb, set, drop, length-append, All-append, get_elem?-set, set-set, ap, ◌∙◌, ◌&&◌, length, Each,
  fails, gives, Each-if, Each-read,
}
use mqtt_s_gateway.Client.{ClientNode, set_broker_recv_message, disconnected}
use mqtt_s_gateway.Clients.{client_at}
use mqtt_s_gateway.Event.{Event, broker_recv}
use mqtt_s_gateway.Gateway.{Gateway, post, set_client}
use mqtt_s_gateway.Gateway.FromBroker.{
  receive_packet, Outcome, done, fault, out_of_fuel, recv_loop, filled, recv_and_fire_event,
  prepare, receive_from_broker, poll,
}
use mqtt_s_gateway.Gateway.InStep.{Paired, IsForGateway, of_broker, IsInStep, measured}
use mqtt_s_gateway.Gateway.InStep.Nodes.{Paired-also, Paired-same, Paired-post}
use mqtt_s_gateway.Mqtt.{MqttMessage}
use mqtt_s_gateway.Socket.{is_valid, Socket}
use mqtt_s_gateway.Socket

-- The gateway with this node in the place of client i, and this queue of events.
abbrev with_received : Gateway → ℕ → ClientNode → List Event → Gateway
with_received g i c que = record g {
  clients = record (g.clients) { nodes = set g.clients.nodes i c };
  gateway_event_que = que;
}

-- The gateway that the loop leaves.
data Leaves (g : Gateway) (i : ℕ) : Outcome → Type 0 where
  ended :
      {c : ClientNode} {que : List Event}
      → IsInStep (with_received g i c que)
      → Leaves g i (done c que)
  faulted : Leaves g i fault
  running : Leaves g i out_of_fuel

module _ (g : Gateway) (i : ℕ) (c0 : ClientNode) (at : client_at g.clients.nodes i ≡ some c0) where
  placed : (c : ClientNode) → client_at (set g.clients.nodes i c) i ≡ some c
  unfolding client_at
  placed c = get_elem?-set g.clients.nodes i c0 c at

  -- A change of the node at its place, for one kind of messages.
  moved :
      {p : Event → Option ℕ} {f : ClientNode → ℕ} {que : List Event} (c v : ClientNode)
      → Paired p f (set (set g.clients.nodes i c) i v) que
      → Paired p f (set g.clients.nodes i v) que
  moved {p = p} {f = f} {que = que} c v h =
      subst (λ ns. Paired p f ns que) (set-set g.clients.nodes i c v) h

  one_more :
      (c : ClientNode) (que : List Event) (m : MqttMessage)
      → IsInStep (with_received g i c que)
      → IsInStep (with_received g i (set_broker_recv_message c m) (post que (broker_recv i)))
  unfolding set_broker_recv_message
  one_more c que m h =
      let v = set_broker_recv_message c m in
      record {
        to_clients = moved c v (Paired-same h.to_clients i c v (placed c) refl);
        to_brokers = moved c v (Paired-same h.to_brokers i c v (placed c) refl);
        from_clients =
            Paired-also (moved c v (Paired-same h.from_clients i c v (placed c) refl))
              (broker_recv i) refl;
        from_brokers = moved c v (
            Paired-post h.from_brokers i c v (placed c) (broker_recv i)
              (length-append c.broker_recv_que (m ∷ [])) refl);
        for_clients = h.for_clients;
        for_brokers = h.for_brokers;
        for_gateway = All-append IsForGateway que _ h.for_gateway (of_broker, tt);
      }

  loop-Leaves :
      (fuel : ℕ) (packet : Str) (len : ℕ) (c : ClientNode) (que : List Event)
      → IsInStep (with_received g i c que)
      → Leaves g i (recv_loop i fuel packet len c que)
  unfolding recv_loop
  loop-Leaves zero packet len c que h = running
  loop-Leaves (suc fuel) packet len c que h = known (ltb 0 len) (receive_packet packet) (λ m n.
      loop-Leaves fuel (drop n packet) (len - n) (set_broker_recv_message c m)
        (post que (broker_recv i)) (one_more c que m h))
    where
      known :
          (more : Bool) (r : Option (Option (MqttMessage × ℕ)))
          → ((m : MqttMessage) (n : ℕ)
              → Leaves g i (
                  recv_loop i fuel
                    (drop n packet)
                    (len - n)
                    (set_broker_recv_message c m)
                    (post que (broker_recv i))))
          → Leaves g i (elim more [
            | false ↦ done c que
            | true ↦ elim r [
              | none ↦ fault
              | some none ↦ done c que
              | some (some (m, n)) ↦
                  recv_loop i fuel
                    (drop n packet)
                    (len - n)
                    (set_broker_recv_message c m)
                    (post que (broker_recv i))
            ]
          ])
      known false r next = ended h
      known true none next = faulted
      known true (some none) next = ended h
      known true (some (some (m, n))) next = next m n

  -- The node has changed, but none of its queues.
  changed :
      (c v : ClientNode) (que : List Event)
      → v.broker_send_que ≡ c.broker_send_que
      → v.broker_recv_que ≡ c.broker_recv_que
      → v.client_send_que ≡ c.client_send_que
      → v.client_recv_que ≡ c.client_recv_que
      → IsInStep (with_received g i c que)
      → IsInStep (with_received g i v que)
  changed c v que bs br cs cr h = record {
    to_clients = moved c v (Paired-same h.to_clients i c v (placed c) (ap length cs));
    to_brokers = moved c v (Paired-same h.to_brokers i c v (placed c) (ap length bs));
    from_clients = moved c v (Paired-same h.from_clients i c v (placed c) (ap length cr));
    from_brokers = moved c v (Paired-same h.from_brokers i c v (placed c) (ap length br));
    for_clients = h.for_clients;
    for_brokers = h.for_brokers;
    for_gateway = h.for_gateway;
  }

  fire-Leaves :
      (received : Option Str) (c : ClientNode) (que : List Event)
      → IsInStep (with_received g i c que)
      → Leaves g i (recv_and_fire_event i received c que)
  unfolding recv_and_fire_event
  fire-Leaves none c que h =
      ended (changed c (record c { status = disconnected }) que refl refl refl refl h)
  fire-Leaves (some bytes) c que h =
      loop-Leaves (suc (length bytes)) (filled bytes) (length bytes) c que h

  -- The node in the place of the one that stood there.
  pub replaced_node :
      (v : ClientNode)
      → v.broker_send_que ≡ c0.broker_send_que
      → v.broker_recv_que ≡ c0.broker_recv_que
      → v.client_send_que ≡ c0.client_send_que
      → v.client_recv_que ≡ c0.client_recv_que
      → IsInStep g
      → IsInStep (with_received g i v g.gateway_event_que)
  replaced_node v bs br cs cr h = record {
    to_clients = Paired-same h.to_clients i c0 v at (ap length cs);
    to_brokers = Paired-same h.to_brokers i c0 v at (ap length bs);
    from_clients = Paired-same h.from_clients i c0 v at (ap length cr);
    from_brokers = Paired-same h.from_brokers i c0 v at (ap length br);
    for_clients = h.for_clients;
    for_brokers = h.for_brokers;
    for_gateway = h.for_gateway;
  }

pub receive_from_broker-IsInStep :
    (g : Gateway) (i : ℕ) (ready : Bool) (received : Option Str)
    → IsInStep g
    → Each IsInStep (receive_from_broker g i ready received)
unfolding receive_from_broker set_client
receive_from_broker-IsInStep g i ready received h =
    Each-read (client_at g.clients.nodes i) _ (λ c at.
      let tested = record c { socket = (is_valid c.socket).1 } in
      let same = replaced_node g i c at tested refl refl refl refl h in
      Each-if ((is_valid c.socket).0 && ready)
        (after (recv_and_fire_event i received tested g.gateway_event_que)
          (fire-Leaves g i c at received tested g.gateway_event_que same))
        (gives same))
  where
    after :
        (o : Outcome)
        → Leaves g i o
        → Each IsInStep (elim o [
          | done c' que ↦ some (record (set_client g i c') { gateway_event_que = que })
          | fault ↦ none
          | out_of_fuel ↦ none
        ])
    after (done c que) (ended left) = gives left
    after fault faulted = fails
    after out_of_fuel running = fails

measured-prepare :
    (f : ClientNode → ℕ) (nodes : List ClientNode) (j : ℕ)
    → ((c : ClientNode) (s : Socket.Socket) → f (record c { socket = s }) ≡ f c)
    → measured f (prepare nodes) j ≡ measured f nodes j
unfolding measured prepare
measured-prepare f [] j e = refl
measured-prepare f (c ∷ cs) zero e = e c _
measured-prepare f (c ∷ cs) (suc j) e = measured-prepare f cs j e

Paired-prepare :
    {p : Event → Option ℕ} {f : ClientNode → ℕ} {nodes : List ClientNode} {que : List Event}
    → ((c : ClientNode) (s : Socket.Socket) → f (record c { socket = s }) ≡ f c)
    → Paired p f nodes que
    → Paired p f (prepare nodes) que
Paired-prepare {f = f} {nodes = nodes} e h = record {
  each = λ j. measured-prepare f nodes j e ∙ h.each j;
}

pub poll-IsInStep : (g : Gateway) → IsInStep g → IsInStep (poll g)
unfolding poll
poll-IsInStep g h = record {
  to_clients = Paired-prepare (λ c s. refl) h.to_clients;
  to_brokers = Paired-prepare (λ c s. refl) h.to_brokers;
  from_clients = Paired-prepare (λ c s. refl) h.from_clients;
  from_brokers = Paired-prepare (λ c s. refl) h.from_brokers;
  for_clients = h.for_clients;
  for_brokers = h.for_brokers;
  for_gateway = h.for_gateway;
}
