-- ===== src/Clients/Erasing.antt =====
-- ClientList::erase of TomyGateway/src/GatewayResourcesProvider.cpp. Nothing calls it.
use mqtt_s_gateway.Base.{
  Str, u16, ℕ, zero, suc, ◌+◌, ◌-◌, ◌≤◌, ◌<◌, ◌≡◌, refl, ap, true, false, Option, none, some, List,
  [], ◌∷◌, ◌++◌, arith, ltb, if◌then◌else◌, ltb→lt, length, take, drop, length-append, length-drop,
  Each, fails, gives, Each-test, not, ◌&&◌, append-nil, take-append, drop_all,
}
use mqtt_s_gateway.Client.{XBeeAddress64, ClientNode}
use mqtt_s_gateway.Clients.{max_client_nodes, Clients, create_node, node_for}
use mqtt_s_gateway.Clients.Invariant.{IsClients}

-- The node is given by its number. The loop behind the removal indexes `_clientVector`, the pointer to
-- the one vector, so that it accesses memory behind that vector if it runs at all: `none`.
unfoldable pub erase : Clients → ℕ → Option Clients
erase cl i =
    let left = u16 (cl.cnt + 65535) in
    if ltb i (length cl.nodes)
    then (if ltb i left
        then none
        else some (record cl { nodes = take i cl.nodes ++ drop (i + 1) cl.nodes; cnt = left }))
    else some cl

one_less : (n : ℕ) → 0 < n → n ≤ 500 → u16 (n + 65535) ≡ n - 1
one_less n pos small = omega arith

length-take : {A : Type 0} (n : ℕ) (xs : List A) → n ≤ length xs → length (take n xs) ≡ n
length-take zero xs h = refl
length-take (suc n) [] h = absurd (omega arith)
length-take (suc n) (x ∷ xs) h = ap suc (length-take n xs (omega arith))

-- If the count of the client list is its number of nodes, at most 500, this still holds after an erase
-- that does not fault.
pub erase-IsClients : (cl : Clients) (i : ℕ) → IsClients cl → Each IsClients (erase cl i)
unfolding erase
erase-IsClients cl i h =
    Each-test (ltb i (length cl.nodes))
      (λ inside.
        Each-test (ltb i (u16 (cl.cnt + 65535))) (λ _. fails) (λ last. gives (kept inside last)))
      (λ _. gives h)
  where
    kept :
        ltb i (length cl.nodes) ≡ true
        → ltb i (u16 (cl.cnt + 65535)) ≡ false
        → IsClients (record cl {
          nodes = take i cl.nodes ++ drop (i + 1) cl.nodes;
          cnt = u16 (cl.cnt + 65535);
        })
    kept inside last =
        let lt : i < length cl.nodes = ltb→lt i (length cl.nodes) inside in
        let e : u16 (cl.cnt + 65535) ≡ cl.cnt - 1 =
          one_less cl.cnt (omega (arith, lt, h.counted)) h.bounded in
        record {
          counted = omega (
            arith,
            lt,
            e,
            h.counted,
            length-append (take i cl.nodes) (drop (i + 1) cl.nodes),
            length-take i cl.nodes (omega (arith, lt)),
            length-drop (i + 1) cl.nodes,
          );
          bounded = omega (arith, e, h.bounded);
        }

-- With room in a list whose count is right and which is not fixed by a file of clients, erasing the
-- node that createNode has just added gives back the list as it was.
pub erase-create_node :
    (cl : Clients) (addr : XBeeAddress64) (id : Option Str)
    → IsClients cl
    → cl.cnt < max_client_nodes
    → cl.authorized ≡ false
    → erase (create_node cl addr id).0 (length cl.nodes) ≡ some cl
unfolding create_node erase
erase-create_node cl addr id h room free =
    let new : List ClientNode = node_for addr id ∷ [] in
    let added = length-append cl.nodes new in
    let roomy : (ltb cl.cnt max_client_nodes && not cl.authorized) ≡ true =
      rw free (ground arith) in
    let inside : ltb (length cl.nodes) (length (cl.nodes ++ new)) ≡ true = ground (arith, added) in
    let back : u16 (u16 (cl.cnt + 1) + 65535) ≡ cl.cnt = omega (arith, room) in
    let last : ltb (length cl.nodes) cl.cnt ≡ false = ground (arith, h.counted) in
    rw
      (
        roomy,
        inside,
        back,
        last,
        take-append cl.nodes new,
        drop_all (length cl.nodes + 1) (cl.nodes ++ new) (omega (arith, added)),
        append-nil cl.nodes,
      )
      refl
