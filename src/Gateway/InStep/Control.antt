-- ===== src/Gateway/InStep/Control.antt =====
-- A step of GatewayControlTask (TomyGateway/src/GatewayControlTask.cpp) keeps messages and events
-- in step.
use mqtt_s_gateway.Base.{
  ℕ, ◌+◌, ◌≡◌, refl, ap, subst, ◌∙◌, Option, none, some, List, [], ◌∷◌, ◌++◌, append_assoc, length,
  set, All, length-append, All-append, get_elem?-set, set-set, ◌>>=◌, Each, fails, gives, holds,
}
use mqtt_s_gateway.Client.{
  Outgoing, ClientNode, update_status, set_client_send_message, set_broker_send_message,
}
use mqtt_s_gateway.Client.Queues.{SameQueues, update_status-SameQueues}
use mqtt_s_gateway.Clients.{client_at}
use mqtt_s_gateway.Control.Closed.{Closed}
use mqtt_s_gateway.Control.Context.{Desk, send_client, send_broker}
use mqtt_s_gateway.Event.{Event, broker_send, client_send}
use mqtt_s_gateway.Gateway.InStep.{
  to_client, to_broker, Paired, IsForClients, one, IsForBrokers, client_sends, broker_sends,
}
use mqtt_s_gateway.Gateway.InStep.Nodes.{Paired-same, Paired-post}
use mqtt_s_gateway.Sn.{SnMessage}

-- What a handler has done so far at the desk of one client, among all nodes: `before` are the
-- events for the broker in front of the desk's queue.
pub record Deeds (nodes : List ClientNode) (before : List Event) (base d : Desk) : Type 0 where
  pub same_client : d.client ≡ base.client
  pub to_clients : Paired to_client client_sends (set nodes base.client d.node) d.client_send_que
  pub to_brokers :
      Paired to_broker broker_sends (set nodes base.client d.node) (before ++ d.broker_send_que)
  pub recv_client : d.node.client_recv_que ≡ base.node.client_recv_que
  pub recv_broker : d.node.broker_recv_que ≡ base.node.broker_recv_que
  pub for_clients : All IsForClients d.client_send_que
  pub for_brokers : All IsForBrokers (before ++ d.broker_send_que)

module _ (nodes : List ClientNode) (before : List Event) (base : Desk)
    (at : client_at nodes base.client ≡ some base.node) where
  -- The node at the desk in its place.
  placed : (c : ClientNode) → client_at (set nodes base.client c) base.client ≡ some c
  unfolding client_at
  placed c = get_elem?-set nodes base.client base.node c at

  replaced :
      {p : Event → Option ℕ} {f : ClientNode → ℕ} {que : List Event} (c v : ClientNode)
      → Paired p f (set (set nodes base.client c) base.client v) que
      → Paired p f (set nodes base.client v) que
  replaced {p = p} {f = f} {que = que} c v h =
      subst (λ ns. Paired p f ns que) (set-set nodes base.client c v) h

  pub kept :
      {p : Event → Option ℕ} {f : ClientNode → ℕ} {que : List Event} (c v : ClientNode)
      → f v ≡ f c
      → Paired p f (set nodes base.client c) que
      → Paired p f (set nodes base.client v) que
  kept c v e h = replaced c v (Paired-same h base.client c v (placed c) e)

  -- The node has changed, but none of its queues.
  alike :
      (d : Desk) (v : ClientNode)
      → v.broker_send_que ≡ d.node.broker_send_que
      → v.broker_recv_que ≡ d.node.broker_recv_que
      → v.client_send_que ≡ d.node.client_send_que
      → v.client_recv_que ≡ d.node.client_recv_que
      → Deeds nodes before base d
      → Deeds nodes before base (record d { node = v })
  alike d v bs br cs cr h = record {
    same_client = h.same_client;
    to_clients = kept d.node v (ap length cs) h.to_clients;
    to_brokers = kept d.node v (ap length bs) h.to_brokers;
    recv_client = cr ∙ h.recv_client;
    recv_broker = br ∙ h.recv_broker;
    for_clients = h.for_clients;
    for_brokers = h.for_brokers;
  }

  longer : {A : Type 0} (xs : List A) (x : A) → length (xs ++ x ∷ []) ≡ length xs + 1
  longer xs x = length-append xs (x ∷ [])

  sent_to_client :
      (d : Desk) (m : SnMessage) (c : ClientNode)
      → SameQueues d.node c
      → Deeds nodes before base d
      → Deeds nodes before base (record d {
        node = record c { client_send_que = c.client_send_que ++ m ∷ [] };
        client_send_que = d.client_send_que ++ client_send d.client ∷ [];
      })
  sent_to_client d m c same h =
      let v = record c { client_send_que = c.client_send_que ++ m ∷ [] } in
      record {
        same_client = h.same_client;
        to_clients = replaced d.node v (
            Paired-post h.to_clients base.client d.node v (placed d.node) (client_send d.client)
              (longer c.client_send_que m ∙ ap (λ q. length q + 1) same.client_send)
              (ap some h.same_client));
        to_brokers = kept d.node v (ap length same.broker_send) h.to_brokers;
        recv_client = same.client_recv ∙ h.recv_client;
        recv_broker = same.broker_recv ∙ h.recv_broker;
        for_clients = All-append IsForClients d.client_send_que _ h.for_clients (one, tt);
        for_brokers = h.for_brokers;
      }

  send_client-Deeds :
      (d : Desk) (m : SnMessage)
      → Deeds nodes before base d
      → Each (Deeds nodes before base) (send_client d m)
  unfolding send_client set_client_send_message
  send_client-Deeds d m h =
      known (update_status d.node d.now m) (update_status-SameQueues d.node d.now m)
    where
      known :
          (updated : Option ClientNode)
          → Each (SameQueues d.node) updated
          → Each (Deeds nodes before base) (
              (updated >>= λ c'.
              some (record c' { client_send_que = c'.client_send_que ++ m ∷ [] }))
              >>= λ node. some (record d {
                node = node;
                client_send_que = d.client_send_que ++ client_send d.client ∷ [];
              }))
      known none same = fails
      known (some c) same = gives (sent_to_client d m c (holds same) h)

  send_broker-Deeds :
      (d : Desk) (m : Outgoing)
      → Deeds nodes before base d
      → Deeds nodes before base (send_broker d m)
  unfolding send_broker set_broker_send_message
  send_broker-Deeds d m h =
      let v = record (d.node) { broker_send_que = d.node.broker_send_que ++ m ∷ [] } in
      let posted = append_assoc before d.broker_send_que (broker_send d.client ∷ []) in
      record {
        same_client = h.same_client;
        to_clients = kept d.node v refl h.to_clients;
        to_brokers = subst (Paired to_broker broker_sends (set nodes base.client v)) posted (
            replaced d.node v (
              Paired-post h.to_brokers base.client d.node v (placed d.node) (broker_send d.client)
                (longer d.node.broker_send_que m) (ap some h.same_client)));
        recv_client = h.recv_client;
        recv_broker = h.recv_broker;
        for_clients = h.for_clients;
        for_brokers =
            subst (All IsForBrokers) posted
              (All-append IsForBrokers (before ++ d.broker_send_que) _ h.for_brokers (one, tt));
      }

  pub Deeds-Closed : Closed (Deeds nodes before base)
  Deeds-Closed = record {
    to_client = send_client-Deeds;
    to_broker = send_broker-Deeds;
    on_node = λ d c same h.
        alike d c same.broker_send same.broker_recv same.client_send same.client_recv h;
    on_create = λ d name h. alike d _ refl refl refl refl h;
    on_clear = λ d h. alike d _ refl refl refl refl h;
  }
