-- ===== src/Gateway/InStep/Radio.antt =====
-- A round of ClientSendTask (TomyGateway/src/ClientSendTask.cpp) keeps messages and events in step.
use mqtt_s_gateway.Base.{
  Str, ℕ, refl, some, List, [], ◌∷◌, All, length-drop, ◌>>=◌, Each, gives, Each-bind, Each-chain,
  Each-read,
}
use mqtt_s_gateway.Client.{delete_client_send_message}
use mqtt_s_gateway.Clients.{client_at}
use mqtt_s_gateway.Event.{
  Event, na, timeout, broker_send, broker_recv, client_send, client_recv, broadcast,
}
use mqtt_s_gateway.Gateway.{Gateway, set_client, on_client_node, delete_event}
use mqtt_s_gateway.Gateway.InStep.{IsForClients, IsInStep}
use mqtt_s_gateway.Gateway.InStep.Nodes.{Paired-same, Paired-ignore, Paired-take}
use mqtt_s_gateway.Gateway.ToClients.{radio_bytes, send_to_radio}
use mqtt_s_gateway.Sn.{SnMessage}

-- The gateway with an event for the radio still in front.
abbrev with_send : Event → Gateway → Gateway
with_send ev g = record g { client_send_que = ev ∷ g.client_send_que }

delete_sent :
    (g : Gateway) (i : ℕ)
    → IsInStep (with_send (client_send i) g)
    → Each IsInStep (delete_event g (client_send i))
unfolding delete_event on_client_node set_client delete_client_send_message
delete_sent g i h = Each-read (client_at g.clients.nodes i) _ (λ c at.
    let v = delete_client_send_message c in
    gives (record {
      to_clients = Paired-take h.to_clients i c v at (length-drop 1 c.client_send_que) refl;
      to_brokers = Paired-same h.to_brokers i c v at refl;
      from_clients = Paired-same h.from_clients i c v at refl;
      from_brokers = Paired-same h.from_brokers i c v at refl;
      for_clients = h.for_clients.1;
      for_brokers = h.for_brokers;
      for_gateway = h.for_gateway;
    }))

sent_to_all : (g : Gateway) (m : SnMessage) → IsInStep (with_send (broadcast m) g) → IsInStep g
sent_to_all g m h = record {
  to_clients = Paired-ignore h.to_clients refl;
  to_brokers = h.to_brokers;
  from_clients = h.from_clients;
  from_brokers = h.from_brokers;
  for_clients = h.for_clients.1;
  for_brokers = h.for_brokers;
  for_gateway = h.for_gateway;
}

-- The gateway behind a round.
abbrev pub LeavesInStep : Gateway × Str → Type 0
LeavesInStep r = IsInStep r.0

pub send_to_radio-IsInStep : (g : Gateway) → IsInStep g → Each LeavesInStep (send_to_radio g)
unfolding send_to_radio delete_event
send_to_radio-IsInStep g h = known g.client_send_que h h.for_clients
  where
    known :
        (que : List Event)
        → IsInStep (record g { client_send_que = que })
        → All IsForClients que
        → Each LeavesInStep (elim que [
          | [] ↦ some (g, [])
          | ev ∷ rest ↦
              (radio_bytes g ev >>= λ bytes.
              (delete_event (record g { client_send_que = rest }) ev >>= λ g'. some (g', bytes)))
        ])
    known [] k all_for = gives h
    known (client_send i ∷ rest) k all_for = Each-bind (radio_bytes g (client_send i)) _ (λ bytes.
        Each-chain _ (delete_sent (record g { client_send_que = rest }) i k)
          (λ g' left. gives left))
    known (broadcast m ∷ rest) k all_for =
        Each-bind (radio_bytes g (broadcast m)) _
          (λ bytes. gives (sent_to_all (record g { client_send_que = rest }) m k))
    known (client_recv i ∷ rest) k all_for = elim (all_for.0) [ ]
    known (broker_recv i ∷ rest) k all_for = elim (all_for.0) [ ]
    known (broker_send i ∷ rest) k all_for = elim (all_for.0) [ ]
    known (na ∷ rest) k all_for = elim (all_for.0) [ ]
    known (timeout ∷ rest) k all_for = elim (all_for.0) [ ]
