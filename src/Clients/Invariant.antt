-- ===== src/Clients/Invariant.antt =====
-- The size of the client list of TomyGateway/src/GatewayResourcesProvider.cpp.
use mqtt_s_gateway.Base.{
  Str, ◌≤◌, ◌<◌, ◌≡◌, inl, inr, true, not, ◌&&◌, Option, none, some, List, [], ◌∷◌, arith, ltb,
  ◌==◌, Bool-cases, length, length-append,
}
use mqtt_s_gateway.Client.{XBeeAddress64}
use mqtt_s_gateway.Clients.{max_client_nodes, Clients, node_for, create_node}
use mqtt_s_gateway.Clients.Authorize.{
  Libc, erase_blanks, up_to_comma, authorize_line, authorize_lines, authorize,
}

-- The count is the number of nodes, and there are at most 500.
pub record IsClients (cl : Clients) : Type 0 where
  pub counted : cl.cnt ≡ length cl.nodes
  pub bounded : cl.cnt ≤ max_client_nodes

pub create_node-IsClients :
    (cl : Clients) (addr : XBeeAddress64) (id : Option Str)
    → IsClients cl
    → IsClients (create_node cl addr id).0
unfolding create_node
create_node-IsClients cl addr id h =
    elim (Bool-cases (ltb cl.cnt max_client_nodes && not cl.authorized)) [
      | inl room ↦ rw room (record {
        counted =
            omega
              (arith, h.counted, room_lt cl room, length-append cl.nodes (node_for addr id ∷ []));
        bounded = omega (arith, room_lt cl room);
      })
      | inr full ↦ rw full h
    ]
  where
    room_lt :
        (cl : Clients) → (ltb cl.cnt max_client_nodes && not cl.authorized) ≡ true → cl.cnt < 500
    room_lt cl room = ground arith

authorize_line-IsClients :
    (libc : Libc) (cl : Clients) (line : Str)
    → IsClients cl
    → IsClients (authorize_line libc cl line)
unfolding authorize_line
authorize_line-IsClients libc cl line h =
    let text = erase_blanks line in
    elim (Bool-cases (length text == 0)) [
      | inl empty ↦ rw empty h
      | inr other ↦ rw other (elim (Bool-cases (length (up_to_comma text) == 16)) [
        | inl good ↦ rw good (create_node-IsClients cl _ _ h)
        | inr bad ↦ rw bad h
      ])
    ]

authorize_lines-IsClients :
    (libc : Libc) (cl : Clients) (lines : List Str)
    → IsClients cl
    → IsClients (authorize_lines libc cl lines)
unfolding authorize_lines
authorize_lines-IsClients libc cl [] h = h
authorize_lines-IsClients libc cl (line ∷ lines) h =
    authorize_lines-IsClients libc (authorize_line libc cl line) lines
      (authorize_line-IsClients libc cl line h)

-- If the count of the client list is its number of nodes, at most 500, this still holds after a file of
-- clients was read, however long it is and whether or not it can be opened.
pub authorize-IsClients :
    (libc : Libc) (cl : Clients) (file : Option (List Str))
    → IsClients cl
    → IsClients (authorize libc cl file)
unfolding authorize
authorize-IsClients libc cl none h = h
authorize-IsClients libc cl (some lines) h =
    let kept = authorize_lines-IsClients libc cl lines h in
    record { counted = kept.counted; bounded = kept.bounded }
