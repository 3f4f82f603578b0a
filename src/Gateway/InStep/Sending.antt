-- ===== src/Gateway/InStep/Sending.antt =====
-- A step of BrokerSendTask (TomyGateway/src/BrokerSendTask.cpp) keeps messages and events in step.
use mqtt_s_gateway.Base.{
  ℕ, ◌-◌, ◌≡◌, refl, Option, none, some, List, [], ◌∷◌, ◌++◌, arith, nonzero, take, All, ◌>>=◌,
  Each, gives, Each-bind, Each-chain, Each-if, Each-read,
}
use mqtt_s_gateway.Client.{
  Outgoing, own, connect_at, ClientNode, get_message, connect_message, delete_outgoing,
  delete_broker_send_message,
}
use mqtt_s_gateway.Clients.{client_at}
use mqtt_s_gateway.Event.{
  Event, na, timeout, broker_send, broker_recv, client_send, client_recv, broadcast,
}
use mqtt_s_gateway.Gateway.{Gateway, set_client, on_client_node, delete_event}
use mqtt_s_gateway.Gateway.InStep.{
  IsForBrokers, held, client_sends, broker_sends, client_recvs, broker_recvs, IsInStep,
}
use mqtt_s_gateway.Gateway.InStep.Broker.{replaced_node}
use mqtt_s_gateway.Gateway.InStep.Nodes.{Paired-same, Paired-take}
use mqtt_s_gateway.Gateway.InStep.Radio.{LeavesInStep}
use mqtt_s_gateway.Gateway.ToBroker.{
  Attempt, delivered, dropped, waits, attempt, outgoing_message, conclude, skip, send_event, resume,
  next_send, send_to_broker, buffered,
}
use mqtt_s_gateway.Socket.{OsAnswers, sem_wait, Socket}
use mqtt_s_gateway.Socket

-- The node has lost the front message for the broker, and is otherwise the same in its queues.
record Lost (c v : ClientNode) : Type 0 where
  to_clients : client_sends v ≡ client_sends c
  to_brokers : broker_sends v ≡ broker_sends c - 1
  from_clients : client_recvs v ≡ client_recvs c
  from_brokers : broker_recvs v ≡ broker_recvs c

delete-Lost : (c : ClientNode) → Each (Lost c) (delete_broker_send_message c)
unfolding delete_broker_send_message delete_outgoing
delete-Lost c = known c.broker_send_que
  where
    known :
        (que : List Outgoing)
        → Each
            (Lost (record c { broker_send_que = que }))
            (delete_outgoing que (record c { broker_send_que = que }))
    known [] = gives (record {
      to_clients = refl;
      to_brokers = omega arith;
      from_clients = refl;
      from_brokers = refl;
    })
    known (own m ∷ rest) = gives (record {
      to_clients = refl;
      to_brokers = omega arith;
      from_clients = refl;
      from_brokers = refl;
    })
    known (connect_at at ∷ rest) =
        Each-bind (connect_message (record c { broker_send_que = connect_at at ∷ rest }) at) _ (λ m.
          gives (record {
            to_clients = refl;
            to_brokers = omega arith;
            from_clients = refl;
            from_brokers = refl;
          }))

-- BrokerSendTask holds the event; when it deletes it, it is free.
abbrev holding : Event → Gateway → Gateway
holding ev g = record g { sender = some ev }

abbrev freed : Gateway → Gateway
freed g = record g { sender = none }

delete_held :
    (g : Gateway) (i : ℕ)
    → IsInStep (holding (broker_send i) g)
    → Each IsInStep (delete_event (freed g) (broker_send i))
unfolding delete_event on_client_node set_client
delete_held g i h = Each-read (client_at g.clients.nodes i) _ (λ c at.
    Each-chain _ (delete-Lost c) (λ v gone. gives (record {
      to_clients = Paired-same h.to_clients i c v at gone.to_clients;
      to_brokers = Paired-take h.to_brokers i c v at gone.to_brokers refl;
      from_clients = Paired-same h.from_clients i c v at gone.from_clients;
      from_brokers = Paired-same h.from_brokers i c v at gone.from_brokers;
      for_clients = h.for_clients;
      for_brokers = h.for_brokers.1;
      for_gateway = h.for_gateway;
    })))

conclude-IsInStep :
    (g : Gateway) (i : ℕ) (c : ClientNode) (a : Attempt)
    → client_at g.clients.nodes i ≡ some c
    → IsInStep (holding (broker_send i) g)
    → Each LeavesInStep (conclude (freed g) i c (broker_send i) a)
unfolding conclude set_client
conclude-IsInStep g i c (delivered bytes s) at h =
    Each-chain _
      (delete_held (set_client g i (record c { socket = s })) i (
        replaced_node (holding (broker_send i) g) i c at (record c { socket = s }) refl refl refl
          refl h))
      (λ g' left. gives left)
conclude-IsInStep g i c (dropped s) at h =
    Each-chain _
      (delete_held (set_client g i (record c { socket = s })) i (
        replaced_node (holding (broker_send i) g) i c at (record c { socket = s }) refl refl refl
          refl h))
      (λ g' left. gives left)
conclude-IsInStep g i c (waits s) at h = gives (
    replaced_node (holding (broker_send i) g) i c at (record c { socket = s }) refl refl refl refl
      h)

send_event-IsInStep :
    (os : OsAnswers) (g : Gateway) (i : ℕ)
    → IsInStep (holding (broker_send i) g)
    → Each LeavesInStep (send_event os (freed g) (broker_send i))
unfolding send_event skip
send_event-IsInStep os g i h = Each-read (client_at g.clients.nodes i) _ (λ c at.
    Each-bind (get_message c.broker_send_que) _ (λ front.
      Each-bind (outgoing_message c front) _ (λ m. Each-bind (buffered m) _ (λ w.
        Each-if (nonzero w.2) (conclude-IsInStep g i c (attempt os c.socket (take w.2 w.1)) at h)
          (Each-chain _ (delete_held g i h) (λ g' left. gives left))))))

resume-IsInStep :
    (g : Gateway) (i : ℕ)
    → IsInStep (holding (broker_send i) g)
    → Each LeavesInStep (resume (holding (broker_send i) g) (broker_send i))
unfolding resume set_client
resume-IsInStep g i h =
    Each-read (client_at g.clients.nodes i) _ (λ c at. known c at (sem_wait c.socket))
  where
    known :
        (c : ClientNode)
        → client_at g.clients.nodes i ≡ some c
        → (free : Option Socket.Socket)
        → Each LeavesInStep (elim free [
          | none ↦ some (holding (broker_send i) g, [])
          | some s ↦
              (delete_event
                  (record (set_client (holding (broker_send i) g) i (record c { socket = s })) {
                    sender = none;
                  })
                  (broker_send i)
                >>= λ g'. some (g', []))
        ])
    known c at none = gives h
    known c at (some s) =
        Each-chain _
          (delete_held (set_client g i (record c { socket = s })) i (
            replaced_node (holding (broker_send i) g) i c at (record c { socket = s }) refl refl
              refl refl h))
          (λ g' left. gives left)

pub send_to_broker-IsInStep :
    (os : OsAnswers) (g : Gateway) → IsInStep g → Each LeavesInStep (send_to_broker os g)
unfolding send_to_broker next_send
send_to_broker-IsInStep os g h = known g.sender g.broker_send_que h h.for_brokers
  where
    known :
        (s : Option Event) (que : List Event)
        → IsInStep (record g { sender = s; broker_send_que = que })
        → All IsForBrokers (held s ++ que)
        → Each LeavesInStep (next_send os (record g { sender = s; broker_send_que = que }) s que)
    known none [] k all_for = gives k
    known (some (broker_send i)) que k all_for =
        resume-IsInStep (record g { broker_send_que = que }) i k
    known none (broker_send i ∷ rest) k all_for =
        send_event-IsInStep os (record g { broker_send_que = rest }) i
          (record {
            to_clients = k.to_clients;
            to_brokers = k.to_brokers;
            from_clients = k.from_clients;
            from_brokers = k.from_brokers;
            for_clients = k.for_clients;
            for_brokers = k.for_brokers;
            for_gateway = k.for_gateway;
          })
    known (some (client_send i)) que k all_for = elim (all_for.0) [ ]
    known (some (client_recv i)) que k all_for = elim (all_for.0) [ ]
    known (some (broker_recv i)) que k all_for = elim (all_for.0) [ ]
    known (some (broadcast m)) que k all_for = elim (all_for.0) [ ]
    known (some na) que k all_for = elim (all_for.0) [ ]
    known (some timeout) que k all_for = elim (all_for.0) [ ]
    known none (client_send i ∷ rest) k all_for = elim (all_for.0) [ ]
    known none (client_recv i ∷ rest) k all_for = elim (all_for.0) [ ]
    known none (broker_recv i ∷ rest) k all_for = elim (all_for.0) [ ]
    known none (broadcast m ∷ rest) k all_for = elim (all_for.0) [ ]
    known none (na ∷ rest) k all_for = elim (all_for.0) [ ]
    known none (timeout ∷ rest) k all_for = elim (all_for.0) [ ]
