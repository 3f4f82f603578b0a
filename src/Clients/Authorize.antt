-- ===== src/Clients/Authorize.antt =====
-- ClientList::authorize of TomyGateway/src/GatewayResourcesProvider.cpp: the nodes that the file of
-- clients lists. The file is the list of the texts that `fgets` gives.
use mqtt_s_gateway.Base.{
  Str, ℕ, ◌+◌, ◌*◌, ◌/◌, ◌%◌, ◌^◌, Bool, true, ◌||◌, Option, none, some, List, [], ◌∷◌, ◌++◌, ◌==◌,
  if◌then◌else◌, length, take, drop,
}
use mqtt_s_gateway.Client.{XBeeAddress64}
use mqtt_s_gateway.Clients.{Clients, create_node}

-- What comes from outside of the program: the value that `strtoul` reads in base 16, and the bytes that
-- stand behind the eight that `strncpy` copies without a terminator.
pub record Libc : Type 0 where
  pub strtoul : Str → ℕ
  pub behind_hex : Str

-- A byte of the set that the loop looks for: a space, a tab, a newline, or one of the three of the wide
-- space of UTF-8.
abbrev pub is_blank : ℕ → Bool
is_blank b = (b == 0x20) || ((b == 0xe3) || ((b == 0x80) || ((b == 0x09) || (b == 0x0a))))

-- The loop that erases these bytes.
unfoldable pub erase_blanks : Str → Str
erase_blanks [] = []
erase_blanks (b ∷ bs) = let rest = erase_blanks bs in if is_blank b then rest else b ∷ rest

-- `data.substr(0, pos)` and `data.substr(pos + 1)` for the first comma; without one, both are all
-- of it.
unfoldable pub up_to_comma : Str → Str
up_to_comma [] = []
up_to_comma (b ∷ bs) = let rest = up_to_comma bs in if b == b',' then [] else b ∷ rest

unfoldable pub behind_comma : Str → Option Str
behind_comma [] = none
behind_comma (b ∷ bs) = let found = behind_comma bs in if b == b',' then some bs else found

-- The low 32 bits of the unsigned long whose first four bytes `setLong` wrote.
unfoldable pub stored_long : ℕ → ℕ
stored_long val =
    val / 2 ^ 24 % 256
    + val / 2 ^ 16 % 256 * 2 ^ 8
    + val / 2 ^ 8 % 256 * 2 ^ 16
    + val % 256 * 2 ^ 24

-- The address that sixteen digits stand for.
unfoldable pub read_address : Libc → Str → XBeeAddress64
unfolding stored_long
read_address libc addr = record {
  msb = stored_long (libc.strtoul (take 8 addr ++ libc.behind_hex));
  lsb = stored_long (libc.strtoul (drop 8 addr));
}

unfoldable pub authorize_line : Libc → Clients → Str → Clients
unfolding erase_blanks up_to_comma behind_comma read_address
authorize_line libc cl line =
    let text = erase_blanks line in
    let addr = up_to_comma text in
    let id : Str = elim (behind_comma text) [ none ↦ text | some rest ↦ rest ] in
    if length text == 0
    then cl
    else if length addr == 16
    then (create_node cl (read_address libc addr) (some id)).0
    else cl

unfoldable pub authorize_lines : Libc → Clients → List Str → Clients
unfolding authorize_line
authorize_lines libc cl [] = cl
authorize_lines libc cl (line ∷ lines) = authorize_lines libc (authorize_line libc cl line) lines

-- authorize: `none` for a file that cannot be opened.
unfoldable pub authorize : Libc → Clients → Option (List Str) → Clients
unfolding authorize_lines
authorize libc cl file = elim file [
  | none ↦ cl
  | some lines ↦ record (authorize_lines libc cl lines) { authorized = true }
]
