-- ===== src/Clients/Distinct.antt =====
-- Finding the nodes of the client list of TomyGateway/src/GatewayResourcesProvider.cpp.
use mqtt_s_gateway.Base.{
  Str, ℕ, ◌+◌, ◌≡◌, refl, ◌∙◌, inl, inr, Bool, true, not, ◌&&◌, Option, none, some, List, [], ◌∷◌,
  ◌++◌, arith, ltb, Bool-cases, Option-cases, length, ap, sym, false, if◌then◌else◌,
}
use mqtt_s_gateway.Client.{XBeeAddress64, ClientNode}
use mqtt_s_gateway.Clients.{
  max_client_nodes, Clients, same_address, find_client, get_client, set_node_id, node_for,
  create_node,
}
use mqtt_s_gateway.Clients.Invariant.{IsClients, create_node-IsClients}

shifted : ℕ → Option ℕ → Option ℕ
shifted n none = none
shifted n (some i) = some (n + i)

-- A search in two lists one behind the other.
find_found :
    (xs ys : List ClientNode) (a : XBeeAddress64) (i : ℕ)
    → find_client xs a ≡ some i
    → find_client (xs ++ ys) a ≡ some i
unfolding find_client
find_found [] ys a i e = cc
find_found (x ∷ xs) ys a i e = elim (Bool-cases (same_address x.address64 a)) [
  | inl here ↦ ground arith
  | inr other ↦ elim (Option-cases (find_client xs a)) [
    | inl missing ↦ ground arith
    | inr (j, found) ↦ ground (arith, find_found xs ys a j found)
  ]
]

find_missing :
    (xs ys : List ClientNode) (a : XBeeAddress64)
    → find_client xs a ≡ none
    → find_client (xs ++ ys) a ≡ shifted (length xs) (find_client ys a)
unfolding find_client shifted
find_missing [] ys a e = elim (Option-cases (find_client ys a)) [
  | inl missing ↦ ground arith
  | inr (j, found) ↦ ground arith
]
find_missing (x ∷ xs) ys a e = elim (Bool-cases (same_address x.address64 a)) [
  | inl here ↦ ground arith
  | inr other ↦ elim (Option-cases (find_client xs a)) [
    | inl missing ↦ elim (Option-cases (find_client ys a)) [
      | inl none_there ↦ ground (arith, find_missing xs ys a missing)
      | inr (j, found) ↦ ground (arith, find_missing xs ys a missing)
    ]
    | inr (j, found) ↦ ground arith
  ]
]

find_new :
    (addr : XBeeAddress64) (id : Option Str) (a : XBeeAddress64)
    → find_client (node_for addr id ∷ []) a ≡ (if same_address addr a then some 0 else none)
unfolding find_client node_for set_node_id
find_new addr none a = refl
find_new addr (some text) a = refl

first_known : Option ℕ → Option ℕ → Option ℕ
first_known none other = other
first_known (some i) other = some i

-- What is found for the address `a` once a node for `addr` was to be made: the node that was found
-- before, or else the new node, behind the others, if the list has room and takes new clients.
unfoldable pub found_after : Clients → XBeeAddress64 → XBeeAddress64 → Option ℕ
unfolding first_known
found_after cl addr a = first_known (get_client cl a) (
    if (ltb (length cl.nodes) max_client_nodes && not cl.authorized) && same_address addr a
    then some (length cl.nodes)
    else none)

module _ (cl : Clients) (addr : XBeeAddress64) (id : Option Str) (h : IsClients cl) where
  abbrev takes_new : Bool
  takes_new = ltb (length cl.nodes) max_client_nodes && not cl.authorized

  known_after :
      (a : XBeeAddress64) (i : ℕ)
      → get_client cl a ≡ some i
      → get_client (create_node cl addr id).0 a ≡ some i
  unfolding create_node get_client
  known_after a i found = elim (Bool-cases takes_new) [
    | inl has_room ↦
        rw (h.counted, has_room) (find_found cl.nodes (node_for addr id ∷ []) a i found)
    | inr full ↦ rw (h.counted, full) found
  ]

  unknown_after :
      (a : XBeeAddress64)
      → get_client cl a ≡ none
      → get_client (create_node cl addr id).0 a
        ≡ (if takes_new && same_address addr a then some (length cl.nodes) else none)
  unfolding create_node get_client shifted
  unknown_after a missing = elim (Bool-cases takes_new) [
    | inl has_room ↦
        rw (h.counted, has_room)
          (find_missing cl.nodes (node_for addr id ∷ []) a missing
            ∙ ap (shifted (length cl.nodes)) (find_new addr id a)
            ∙ at_end (same_address addr a))
    | inr full ↦ rw (h.counted, full) missing
  ]
    where
      at_end :
          (same : Bool)
          → shifted (length cl.nodes) (if same then some 0 else none)
            ≡ (if same then some (length cl.nodes) else none)
      at_end true = ap some (omega arith)
      at_end false = refl

  get_client_after :
      (a : XBeeAddress64) → get_client (create_node cl addr id).0 a ≡ found_after cl addr a
  unfolding found_after
  get_client_after a =
      let new : Option ℕ =
        if takes_new && same_address addr a then some (length cl.nodes) else none in
      elim (Option-cases (get_client cl a)) [
        | inl missing ↦ unknown_after a missing ∙ ap (λ o. first_known o new) (sym missing)
        | inr (i, found) ↦ known_after a i found ∙ ap (λ o. first_known o new) (sym found)
      ]

  created :
      get_client cl addr ≡ none
      → (create_node cl addr id).1 ≡ (if takes_new then some (length cl.nodes) else none)
  unfolding create_node
  created missing = elim (Bool-cases takes_new) [
    | inl has_room ↦ rw (h.counted, has_room) refl
    | inr full ↦ rw (h.counted, full) missing
  ]

-- If the count of the list is its number of nodes, at most 500, and an address is not in the list, then
-- createNode returns the number of nodes there were, or NULL exactly if there were 500 or the list
-- is authorized. For every address getClient finds afterwards the node that it found before, or, if
-- it found none, the new node exactly if there is one and it has this address. The count is right
-- and bounded again.
pub create_node-get_client :
    (cl : Clients) (addr : XBeeAddress64) (id : Option Str) (a : XBeeAddress64)
    → IsClients cl
    → get_client cl addr ≡ none
    → ((create_node cl addr id).1 ≡ (
        if ltb (length cl.nodes) max_client_nodes && not cl.authorized
        then some (length cl.nodes)
        else none))
      × (get_client (create_node cl addr id).0 a ≡ found_after cl addr a)
      × IsClients (create_node cl addr id).0
create_node-get_client cl addr id a h missing = (
  created cl addr id h missing,
  get_client_after cl addr id h a,
  create_node-IsClients cl addr id h,
)
