-- ===== src/Clients.antt =====
-- Class ClientList of TomyGateway/src/GatewayResourcesProvider.cpp and operator== of XBeeAddress64 of
-- TomyGateway/src/libmq/ZBStack.cpp: the clients that the gateway knows. A ClientNode pointer is the
-- number of the node in the list; NULL is `none`.
pub mod Authorize
pub mod Invariant
pub mod Distinct
pub mod Erasing
use mqtt_s_gateway.Base.{
  Str, u16, ℕ, suc, ◌+◌, Bool, false, not, ◌&&◌, Option, none, some, List, [], ◌∷◌, ◌++◌, ltb, ◌==◌,
  if◌then◌else◌, length, get_elem?, ◌>>=◌,
}
use mqtt_s_gateway.Client.{XBeeAddress64, ClientNode, new_client}

abbrev pub max_client_nodes : ℕ
max_client_nodes = 500

pub record Clients : Type 0 where
  pub nodes : List ClientNode
  pub cnt : ℕ
  pub authorized : Bool

-- The constructor.
abbrev pub new_clients : Clients
new_clients = record { nodes = []; cnt = 0; authorized = false }

-- operator== of XBeeAddress64.
unfoldable pub same_address : XBeeAddress64 → XBeeAddress64 → Bool
same_address a b = (a.msb == b.msb) && (a.lsb == b.lsb)

-- The loop of getClient.
unfoldable pub find_client : List ClientNode → XBeeAddress64 → Option ℕ
unfolding same_address
find_client [] addr = none
find_client (c ∷ cs) addr =
    let later = find_client cs addr in
    if same_address c.address64 addr then some 0 else (later >>= λ i. some (suc i))

unfoldable pub get_client : Clients → XBeeAddress64 → Option ℕ
unfolding find_client
get_client cl addr = find_client cl.nodes addr

-- operator[]: past the end, a fault.
unfoldable pub client_at : List ClientNode → ℕ → Option ClientNode
client_at nodes i = get_elem? nodes i

-- setNodeId appends.
unfoldable pub set_node_id : ClientNode → Str → ClientNode
set_node_id c id = record c { node_id = c.node_id ++ id }

-- setAddress64
abbrev pub set_address64 : ClientNode → XBeeAddress64 → ClientNode
set_address64 c addr = record c { address64 = record { msb = addr.msb; lsb = addr.lsb } }

-- The new node of createNode; `id` is NULL for a node that a message from the radio makes.
unfoldable pub node_for : XBeeAddress64 → Option Str → ClientNode
unfolding set_node_id new_client
node_for addr id = elim id [
  | none ↦ set_address64 new_client addr
  | some text ↦ set_node_id (set_address64 new_client addr) text
]

-- createNode: the list, and the node it returns. Its loop compares the addresses of objects: no caller
-- passes the address of a node's own `_address64`, so that it finds nothing.
unfoldable pub create_node : Clients → XBeeAddress64 → Option Str → Clients × Option ℕ
unfolding node_for get_client
create_node cl addr id =
    if ltb cl.cnt max_client_nodes && not cl.authorized
    then (
      record cl { nodes = cl.nodes ++ node_for addr id ∷ []; cnt = u16 (cl.cnt + 1) },
      some (length cl.nodes),
    )
    else (cl, get_client cl addr)
