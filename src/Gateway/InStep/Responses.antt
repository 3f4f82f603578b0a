-- ===== src/Gateway/InStep/Responses.antt =====
-- A round of ClientRecvTask (TomyGateway/src/ClientRecvTask.cpp) keeps messages and events in step.
use mqtt_s_gateway.Base.{
  Str, ℕ, ◌+◌, ◌≡◌, refl, ap, ◌∙◌, Bool, true, false, Option, none, some, [], ◌∷◌, ltb, ◌==◌,
  if◌then◌else◌, length, length-append, All-append, ◌>>=◌, Each, gives, Each-bind, Each-chain,
  Each-read, get_elem?, Each-if, Each-weaken,
}
use mqtt_s_gateway.Client.{ClientNode, set_client_recv_message}
use mqtt_s_gateway.Client.Queues.{update_status-SameQueues}
use mqtt_s_gateway.Clients.{get_client, client_at, set_node_id, create_node}
use mqtt_s_gateway.Event.{client_recv, broadcast}
use mqtt_s_gateway.Gateway.{Gateway, post, set_client, on_client_node}
use mqtt_s_gateway.Gateway.FromClients.{
  remote_address16, absorbed, blank_message, receive_search, receive_known, payload, is_for_node,
  client_id_of, admit, receive_new, receive_response,
}
use mqtt_s_gateway.Gateway.InStep.{
  all, IsForGateway, of_client, client_sends, broker_sends, client_recvs, broker_recvs, IsInStep,
}
use mqtt_s_gateway.Gateway.InStep.Admission.{create_node-IsInStep}
use mqtt_s_gateway.Gateway.InStep.Nodes.{Paired-also, Paired-same, Paired-post}
use mqtt_s_gateway.Sn.{SnMessage}
use mqtt_s_gateway.Sn.Types.{sn_type_connect, sn_type_searchgw}
use mqtt_s_gateway.Timer.{TimeVal}
use mqtt_s_gateway.Xbee.{XbResponse}

-- The node has one more message from its client, and is otherwise the same in its queues.
record Got (c v : ClientNode) : Type 0 where
  to_clients : client_sends v ≡ client_sends c
  to_brokers : broker_sends v ≡ broker_sends c
  from_clients : client_recvs v ≡ client_recvs c + 1
  from_brokers : broker_recvs v ≡ broker_recvs c

set_recv-Got :
    (c : ClientNode) (now : TimeVal) (m : SnMessage)
    → Each (Got c) (set_client_recv_message c now m)
unfolding set_client_recv_message
set_recv-Got c now m = Each-chain _ (update_status-SameQueues c now m) (λ c' same. gives (record {
  to_clients = ap length same.client_send;
  to_brokers = ap length same.broker_send;
  from_clients =
      length-append c'.client_recv_que (m ∷ []) ∙ ap (λ q. length q + 1) same.client_recv;
  from_brokers = ap length same.broker_recv;
}))

-- The node gets the message, and its event is posted.
arrive :
    (g : Gateway) (i : ℕ) (k : ClientNode → Option ClientNode)
    → IsInStep g
    → ((c : ClientNode) → Each (Got c) (k c))
    → Each IsInStep (
        on_client_node g i k >>= λ g'.
        some (record g' { gateway_event_que = post g'.gateway_event_que (client_recv i) }))
unfolding on_client_node set_client
arrive g i k h got =
    Each-chain _
      (Each-read (client_at g.clients.nodes i) _ (λ c at.
        Each-chain {P = Arrived} _ (got c) (λ v new. gives (record {
          to_clients = Paired-same h.to_clients i c v at new.to_clients;
          to_brokers = Paired-same h.to_brokers i c v at new.to_brokers;
          from_clients = Paired-post h.from_clients i c v at (client_recv i) new.from_clients refl;
          from_brokers =
              Paired-also (Paired-same h.from_brokers i c v at new.from_brokers) (client_recv i)
                refl;
          for_clients = h.for_clients;
          for_brokers = h.for_brokers;
          for_gateway = All-append IsForGateway g.gateway_event_que _ h.for_gateway (of_client, tt);
        }))))
      (λ g' posted. gives posted)
  where
    Arrived : Gateway → Type 0
    Arrived g' =
        IsInStep (record g' { gateway_event_que = post g'.gateway_event_que (client_recv i) })

receive_search-IsInStep :
    (g : Gateway) (r : XbResponse) → IsInStep g → Each IsInStep (receive_search g r)
unfolding receive_search
receive_search-IsInStep g r h = Each-bind (absorbed blank_message r) _ (λ m. gives (record {
  to_clients = h.to_clients;
  to_brokers = h.to_brokers;
  from_clients = Paired-also h.from_clients (broadcast m) refl;
  from_brokers = Paired-also h.from_brokers (broadcast m) refl;
  for_clients = h.for_clients;
  for_brokers = h.for_brokers;
  for_gateway = All-append IsForGateway g.gateway_event_que _ h.for_gateway (all, tt);
}))

receive_known-IsInStep :
    (now : TimeVal) (g : Gateway) (r : XbResponse) (type i : ℕ)
    → IsInStep g
    → Each IsInStep (receive_known now g r type i)
unfolding receive_known
receive_known-IsInStep now g r type i h = Each-bind (absorbed blank_message r) _ (λ m.
    Each-bind (if type == sn_type_connect then remote_address16 r else some 0) _ (λ addr16.
      arrive g i _ h (λ c.
        Each-chain _ (set_recv-Got c now m)
          (λ c' got. gives (addressed c c' addr16 (type == sn_type_connect) got)))))
  where
    addressed :
        (c c' : ClientNode) (addr16 : ℕ) (test : Bool)
        → Got c c'
        → Got c (if test then record c' { address16 = addr16 } else c')
    addressed c c' addr16 true got = record {
      to_clients = got.to_clients;
      to_brokers = got.to_brokers;
      from_clients = got.from_clients;
      from_brokers = got.from_brokers;
    }
    addressed c c' addr16 false got = got

admit-Got :
    (now : TimeVal) (r : XbResponse) (m : SnMessage) (c : ClientNode)
    → Each (Got c) (admit now r m c)
unfolding admit set_node_id
admit-Got now r m c =
    Each-bind (remote_address16 r) _
      (λ addr16. Each-bind (client_id_of m) _ (λ id. known addr16 id (ltb 0 (length id))))
  where
    known :
        (addr16 : ℕ) (id : Str) (test : Bool)
        → Each (Got c) (
            set_client_recv_message
              (record (if test then set_node_id c id else c) { address16 = addr16 })
              now
              m)
    known addr16 id true = Each-weaken (set_recv-Got _ now m) (λ v got. record {
      to_clients = got.to_clients;
      to_brokers = got.to_brokers;
      from_clients = got.from_clients;
      from_brokers = got.from_brokers;
    })
    known addr16 id false = Each-weaken (set_recv-Got _ now m) (λ v got. record {
      to_clients = got.to_clients;
      to_brokers = got.to_brokers;
      from_clients = got.from_clients;
      from_brokers = got.from_brokers;
    })

receive_new-IsInStep :
    (now : TimeVal) (g : Gateway) (r : XbResponse)
    → IsInStep g
    → Each IsInStep (receive_new now g r)
unfolding receive_new
receive_new-IsInStep now g r h =
    known (create_node g.clients r.addr64 none).1 (create_node-IsInStep g r.addr64 none h)
  where
    made : Gateway
    made = record g { clients = (create_node g.clients r.addr64 none).0 }

    known :
        (node : Option ℕ)
        → IsInStep made
        → Each IsInStep (elim node [
          | none ↦ some g
          | some i ↦
              (absorbed blank_message r >>= λ m.
              (on_client_node made i (admit now r m) >>= λ g'.
              some (record g' { gateway_event_que = post g'.gateway_event_que (client_recv i) })))
        ])
    known none k = gives h
    known (some i) k =
        Each-bind (absorbed blank_message r) _
          (λ m. arrive made i (admit now r m) k (admit-Got now r m))

pub receive_response-IsInStep :
    (now : TimeVal) (g : Gateway) (r : XbResponse)
    → IsInStep g
    → Each IsInStep (receive_response now g r)
unfolding receive_response
receive_response-IsInStep now g r h =
    Each-bind (payload r) _ (λ bytes.
      Each-bind (get_elem? bytes 1) _ (λ type. known type (get_client g.clients r.addr64)))
  where
    known :
        (type : ℕ) (found : Option ℕ)
        → Each IsInStep (elim found [
          | none ↦
              if type == sn_type_connect
              then receive_new now g r
              else if type == sn_type_searchgw
              then receive_search g r
              else some g
          | some i ↦
              if is_for_node type
              then receive_known now g r type i
              else if type == sn_type_searchgw
              then receive_search g r
              else some g
        ])
    known type none =
        Each-if (type == sn_type_connect) (receive_new-IsInStep now g r h)
          (Each-if (type == sn_type_searchgw) (receive_search-IsInStep g r h) (gives h))
    known type (some i) =
        Each-if (is_for_node type) (receive_known-IsInStep now g r type i h)
          (Each-if (type == sn_type_searchgw) (receive_search-IsInStep g r h) (gives h))
