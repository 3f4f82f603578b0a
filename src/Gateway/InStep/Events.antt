-- ===== src/Gateway/InStep/Events.antt =====
-- A round of GatewayControlTask::run (TomyGateway/src/GatewayControlTask.cpp) keeps messages and
-- events in step.
use mqtt_s_gateway.Base.{
  ℕ, ◌≡◌, refl, ◌∙◌, some, List, [], ◌∷◌, Each, gives, Each-bind, Each-chain, Each-if, ◌-◌, sym, ap,
  subst, ◌==◌, length, set, All, length-drop, Each-read,
}
use mqtt_s_gateway.Client.{
  ClientNode, get_message, delete_broker_recv_message, delete_client_recv_message,
}
use mqtt_s_gateway.Clients.{client_at}
use mqtt_s_gateway.Control.{run_client_recv, run_broker_recv}
use mqtt_s_gateway.Control.Closed.Dispatch.{
  handle_client_message-Closed, handle_broker_message-Closed,
}
use mqtt_s_gateway.Control.Context.{Desk, Each-printed}
use mqtt_s_gateway.Event.{
  Event, broadcast, na, timeout, broker_send, broker_recv, client_send, client_recv,
}
use mqtt_s_gateway.Gateway.{Gateway, timedwait, set_client}
use mqtt_s_gateway.Gateway.InStep.{held, IsInStep, IsForGateway}
use mqtt_s_gateway.Gateway.InStep.Control.{Deeds, kept, Deeds-Closed}
use mqtt_s_gateway.Gateway.InStep.Nodes.{Paired-same, Paired-ignore, Paired-take}
use mqtt_s_gateway.Gateway.InStep.Timeouts.{post-broadcast, run_timeout-IsInStep}
use mqtt_s_gateway.Gateway.Run.{
  Moment, desk_for, run_broadcast, leave_desk, at_desk, handle_event, run_control,
}
use mqtt_s_gateway.Sn.{SnMessage}
use mqtt_s_gateway.Sn.Replies.{sn_gw_info}
use mqtt_s_gateway.Sn.Types.{sn_type_searchgw}

-- The gateway with the event that is handled still in front.
abbrev with_event : Event → Gateway → Gateway
with_event ev g = record g { gateway_event_que = ev ∷ g.gateway_event_que }

module _ (mo : Moment) (g : Gateway) (i : ℕ) (c : ClientNode)
    (at : client_at g.clients.nodes i ≡ some c) where
  begin :
      (ev : Event)
      → IsInStep (with_event ev g)
      → Deeds g.clients.nodes (held g.sender) (desk_for mo g i c) (desk_for mo g i c)
  unfolding desk_for
  begin ev h = record {
    same_client = refl;
    to_clients = Paired-same h.to_clients i c c at refl;
    to_brokers = Paired-same h.to_brokers i c c at refl;
    recv_client = refl;
    recv_broker = refl;
    for_clients = h.for_clients;
    for_brokers = h.for_brokers;
  }

  -- The desk is left, and the handled message is deleted.
  left_client :
      (d : Desk)
      → IsInStep (with_event (client_recv i) g)
      → Deeds g.clients.nodes (held g.sender) (desk_for mo g i c) d
      → IsInStep (leave_desk g (record d { node = delete_client_recv_message d.node }))
  unfolding leave_desk desk_for delete_client_recv_message set_client
  left_client d h k =
      let v = delete_client_recv_message d.node in
      subst
        (λ n. IsInStep (record g {
          clients = record (g.clients) { nodes = set g.clients.nodes n v };
          client_send_que = d.client_send_que;
          broker_send_que = d.broker_send_que;
        }))
        (sym k.same_client)
        (record {
          to_clients = kept g.clients.nodes [] (desk_for mo g i c) at d.node v refl k.to_clients;
          to_brokers = kept g.clients.nodes [] (desk_for mo g i c) at d.node v refl k.to_brokers;
          from_clients =
              Paired-take h.from_clients i c v at
                (length-drop 1 d.node.client_recv_que ∙ ap (λ q. length q - 1) k.recv_client) refl;
          from_brokers =
              Paired-same (Paired-ignore h.from_brokers refl) i c v at (ap length k.recv_broker);
          for_clients = k.for_clients;
          for_brokers = k.for_brokers;
          for_gateway = h.for_gateway.1;
        })

  left_broker :
      (d : Desk)
      → IsInStep (with_event (broker_recv i) g)
      → Deeds g.clients.nodes (held g.sender) (desk_for mo g i c) d
      → IsInStep (leave_desk g (record d { node = delete_broker_recv_message d.node }))
  unfolding leave_desk desk_for delete_broker_recv_message set_client
  left_broker d h k =
      let v = delete_broker_recv_message d.node in
      subst
        (λ n. IsInStep (record g {
          clients = record (g.clients) { nodes = set g.clients.nodes n v };
          client_send_que = d.client_send_que;
          broker_send_que = d.broker_send_que;
        }))
        (sym k.same_client)
        (record {
          to_clients = kept g.clients.nodes [] (desk_for mo g i c) at d.node v refl k.to_clients;
          to_brokers = kept g.clients.nodes [] (desk_for mo g i c) at d.node v refl k.to_brokers;
          from_clients =
              Paired-same (Paired-ignore h.from_clients refl) i c v at (ap length k.recv_client);
          from_brokers =
              Paired-take h.from_brokers i c v at
                (length-drop 1 d.node.broker_recv_que ∙ ap (λ q. length q - 1) k.recv_broker) refl;
          for_clients = k.for_clients;
          for_brokers = k.for_brokers;
          for_gateway = h.for_gateway.1;
        })

client_recv-IsInStep :
    (mo : Moment) (g : Gateway) (i : ℕ)
    → IsInStep (with_event (client_recv i) g)
    → Each IsInStep (at_desk mo g i run_client_recv)
unfolding at_desk run_client_recv
client_recv-IsInStep mo g i h = Each-read (client_at g.clients.nodes i) _ (λ c at.
    Each-chain _
      (Each-bind (get_message c.client_recv_que) _ (λ m.
        Each-chain _
          (handle_client_message-Closed
            (Deeds-Closed g.clients.nodes (held g.sender) (desk_for mo g i c) at)
            (desk_for mo g i c) m (begin mo g i c at (client_recv i) h))
          (λ d deeds. gives (left_client mo g i c at d h deeds))))
      (λ d left. gives left))

broker_recv-IsInStep :
    (mo : Moment) (g : Gateway) (i : ℕ)
    → IsInStep (with_event (broker_recv i) g)
    → Each IsInStep (at_desk mo g i run_broker_recv)
unfolding at_desk run_broker_recv
broker_recv-IsInStep mo g i h = Each-read (client_at g.clients.nodes i) _ (λ c at.
    Each-chain _
      (Each-bind (get_message c.broker_recv_que) _ (λ m.
        Each-chain _
          (handle_broker_message-Closed
            (Deeds-Closed g.clients.nodes (held g.sender) (desk_for mo g i c) at)
            (desk_for mo g i c) m (begin mo g i c at (broker_recv i) h))
          (λ d deeds. gives (left_broker mo g i c at d h deeds))))
      (λ d left. gives left))

run_broadcast-IsInStep :
    (mo : Moment) (g : Gateway) (m : SnMessage)
    → IsInStep (with_event (broadcast m) g)
    → Each IsInStep (run_broadcast mo g m)
unfolding run_broadcast
run_broadcast-IsInStep mo g m h = Each-printed m (
    Each-if (m.type == sn_type_searchgw)
      (Each-bind (sn_gw_info mo.gw_id) _ (λ info. gives (post-broadcast g info taken)))
      (gives taken))
  where
    taken : IsInStep g
    taken = record {
      to_clients = h.to_clients;
      to_brokers = h.to_brokers;
      from_clients = Paired-ignore h.from_clients refl;
      from_brokers = Paired-ignore h.from_brokers refl;
      for_clients = h.for_clients;
      for_brokers = h.for_brokers;
      for_gateway = h.for_gateway.1;
    }

pub run_control-IsInStep :
    (mo : Moment) (g : Gateway) → IsInStep g → Each IsInStep (run_control mo g)
unfolding run_control handle_event
run_control-IsInStep mo g h = known g.gateway_event_que h h.for_gateway
  where
    known :
        (que : List Event)
        → IsInStep (record g { gateway_event_que = que })
        → All IsForGateway que
        → Each IsInStep (
            let taken = timedwait que in
            handle_event mo (record g { gateway_event_que = taken.1 }) taken.0)
    known [] k all_for = run_timeout-IsInStep mo (record g { gateway_event_que = [] }) k
    known (client_recv i ∷ rest) k all_for =
        client_recv-IsInStep mo (record g { gateway_event_que = rest }) i k
    known (broker_recv i ∷ rest) k all_for =
        broker_recv-IsInStep mo (record g { gateway_event_que = rest }) i k
    known (broadcast m ∷ rest) k all_for =
        run_broadcast-IsInStep mo (record g { gateway_event_que = rest }) m k
    known (client_send i ∷ rest) k all_for = elim (all_for.0) [ ]
    known (broker_send i ∷ rest) k all_for = elim (all_for.0) [ ]
    known (na ∷ rest) k all_for = elim (all_for.0) [ ]
    known (timeout ∷ rest) k all_for = elim (all_for.0) [ ]
