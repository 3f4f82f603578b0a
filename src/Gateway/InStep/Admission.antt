-- ===== src/Gateway/InStep/Admission.antt =====
-- New nodes in the client list (ClientList::createNode and authorize of
-- TomyGateway/src/GatewayResourcesProvider.cpp) keep messages and events in step.
use mqtt_s_gateway.Base.{
  Str, ℕ, ◌≡◌, refl, ◌∙◌, not, ◌&&◌, Option, none, some, [], ◌∷◌, ltb, ◌==◌, length, inl, inr, List,
  Bool-cases,
}
use mqtt_s_gateway.Client.{XBeeAddress64, ClientNode, new_client}
use mqtt_s_gateway.Clients.{max_client_nodes, set_node_id, node_for, create_node}
use mqtt_s_gateway.Clients.Authorize.{
  Libc, erase_blanks, up_to_comma, authorize_line, authorize_lines, authorize,
}
use mqtt_s_gateway.Gateway.{Gateway}
use mqtt_s_gateway.Gateway.InStep.{client_sends, broker_sends, client_recvs, broker_recvs, IsInStep}
use mqtt_s_gateway.Gateway.InStep.Nodes.{Paired-new}

-- The new node has no messages.
node_for-empty :
    (f : ClientNode → ℕ) (addr : XBeeAddress64) (id : Option Str)
    → ((c : ClientNode) (a : XBeeAddress64) (t : Str)
        → f (record c { address64 = a; node_id = t }) ≡ f c)
    → f new_client ≡ 0
    → f (node_for addr id) ≡ 0
unfolding node_for set_node_id new_client
node_for-empty f addr none e z = e new_client addr [] ∙ z
node_for-empty f addr (some text) e z = e new_client addr text ∙ z

-- The list of clients has a new node, without messages.
pub create_node-IsInStep :
    (g : Gateway) (addr : XBeeAddress64) (id : Option Str)
    → IsInStep g
    → IsInStep (record g { clients = (create_node g.clients addr id).0 })
unfolding create_node new_client
create_node-IsInStep g addr id h =
    elim (Bool-cases (ltb g.clients.cnt max_client_nodes && not g.clients.authorized)) [
      | inl room ↦ rw room (record {
        to_clients =
            Paired-new h.to_clients (node_for addr id)
              (node_for-empty client_sends addr id (λ c a t. refl) refl);
        to_brokers =
            Paired-new h.to_brokers (node_for addr id)
              (node_for-empty broker_sends addr id (λ c a t. refl) refl);
        from_clients =
            Paired-new h.from_clients (node_for addr id)
              (node_for-empty client_recvs addr id (λ c a t. refl) refl);
        from_brokers =
            Paired-new h.from_brokers (node_for addr id)
              (node_for-empty broker_recvs addr id (λ c a t. refl) refl);
        for_clients = h.for_clients;
        for_brokers = h.for_brokers;
        for_gateway = h.for_gateway;
      })
      | inr full ↦ rw full h
    ]

authorize_line-IsInStep :
    (libc : Libc) (g : Gateway) (line : Str)
    → IsInStep g
    → IsInStep (record g { clients = authorize_line libc g.clients line })
unfolding authorize_line
authorize_line-IsInStep libc g line h = elim (Bool-cases (length (erase_blanks line) == 0)) [
  | inl empty ↦ rw empty h
  | inr other ↦ rw other (elim (Bool-cases (length (up_to_comma (erase_blanks line)) == 16)) [
    | inl good ↦ rw good (create_node-IsInStep g _ _ h)
    | inr bad ↦ rw bad h
  ])
]

authorize_lines-IsInStep :
    (libc : Libc) (g : Gateway) (lines : List Str)
    → IsInStep g
    → IsInStep (record g { clients = authorize_lines libc g.clients lines })
unfolding authorize_lines
authorize_lines-IsInStep libc g [] h = h
authorize_lines-IsInStep libc g (line ∷ lines) h =
    authorize_lines-IsInStep libc (record g { clients = authorize_line libc g.clients line }) lines
      (authorize_line-IsInStep libc g line h)

pub authorize-IsInStep :
    (libc : Libc) (g : Gateway) (file : Option (List Str))
    → IsInStep g
    → IsInStep (record g { clients = authorize libc g.clients file })
unfolding authorize
authorize-IsInStep libc g none h = h
authorize-IsInStep libc g (some lines) h =
    let k = authorize_lines-IsInStep libc g lines h in
    record {
      to_clients = k.to_clients;
      to_brokers = k.to_brokers;
      from_clients = k.from_clients;
      from_brokers = k.from_brokers;
      for_clients = k.for_clients;
      for_brokers = k.for_brokers;
      for_gateway = k.for_gateway;
    }
