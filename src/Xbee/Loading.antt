-- ===== src/Xbee/Loading.antt =====
-- readPacket takes the data bytes of a frame into its buffer.
use mqtt_s_gateway.Base.{
  Str, IsByte, u8, ℕ, zero, suc, ◌+◌, ◌-◌, ◌≤◌, ◌<◌, ◌≡◌, refl, sym, ap, subst, ◌∙◌, false, some,
  [], ◌∷◌, ◌++◌, append-nil, append_assoc, arith, length, set, take, All, length-append, length-set,
}
use mqtt_s_gateway.Xbee.{max_frame_data_size, packet_length, XbeeState}
use mqtt_s_gateway.Xbee.Escaping.{proceed, read_packet-send_byte}
use mqtt_s_gateway.Xbee.Receive.{Round, again, store, accept, read_packet}
use mqtt_s_gateway.Xbee.Send.{send_byte, send_bytes, add_up}

take-set :
    (buf : Str) (k b : ℕ) → k < length buf → take (suc k) (set buf k b) ≡ take k buf ++ b ∷ []
take-set [] k b h = elim h [ ]
take-set (x ∷ buf) zero b h = refl
take-set (x ∷ buf) (suc k) b h = ap (◌∷◌ x) (take-set buf k b (omega arith))

add_up-snoc : (sum : ℕ) (bs : Str) (b : ℕ) → add_up sum (bs ++ b ∷ []) ≡ u8 (add_up sum bs + b)
unfolding add_up
add_up-snoc sum [] b = refl
add_up-snoc sum (c ∷ bs) b = add_up-snoc (u8 (sum + c)) bs b

pub add_up_lt : (sum : ℕ) (bs : Str) → IsByte sum → IsByte (add_up sum bs)
unfolding add_up
add_up_lt sum [] h = h
add_up_lt sum (b ∷ bs) h = add_up_lt (u8 (sum + b)) bs (omega arith)

-- The receiver has read the header of a frame of n data bytes for the API id `api`, and `loaded` of
-- them.
pub record IsLoaded (n api : ℕ) (x : XbeeState) (loaded : Str) : Type 0 where
  pub unescaped : x.escape ≡ false
  pub position : x.pos ≡ length loaded + 4
  pub summed : x.checksum_total ≡ add_up api loaded
  pub sized : packet_length x.response ≡ n + 1
  pub tagged : x.response.api_id ≡ api
  pub buf : Str
  pub allocated : x.response.frame_data ≡ some buf
  pub room : length buf ≡ max_frame_data_size
  pub held : take (length loaded) buf ≡ loaded

-- The state after a data byte.
abbrev after_byte : ℕ → XbeeState → Str → XbeeState
after_byte b x buf = record x {
  response = record (x.response) { frame_data = some (set buf (x.pos - 4) b) };
  escape = false;
  pos = u8 (x.pos + 1);
  checksum_total = u8 (x.checksum_total + b);
}

accept_data :
    (n api b : ℕ) (x : XbeeState) (loaded : Str) (l : IsLoaded n api x loaded)
    → length loaded < n
    → n ≤ 124
    → accept b x ≡ again (after_byte b x l.buf)
unfolding accept store packet_length
accept_data n api b x loaded l more fits = ground (arith, l)

load_byte :
    (n api b : ℕ) (x : XbeeState) (loaded : Str) (l : IsLoaded n api x loaded)
    → length loaded < n
    → n ≤ 124
    → IsLoaded n api (after_byte b x l.buf) (loaded ++ b ∷ [])
load_byte n api b x loaded l more fits = record {
  unescaped = refl;
  position = omega (arith, length-append loaded (b ∷ []), l.position);
  summed = omega (arith, add_up-snoc api loaded b, l.summed);
  sized = unfold packet_length in l.sized;
  tagged = l.tagged;
  buf = set l.buf (x.pos - 4) b;
  allocated = refl;
  room = length-set l.buf (x.pos - 4) b ∙ l.room;
  held = kept;
}
  where
    kept : take (length (loaded ++ b ∷ [])) (set l.buf (x.pos - 4) b) ≡ loaded ++ b ∷ []
    kept =
        let grown : length (loaded ++ b ∷ []) ≡ suc (length loaded) =
          omega (arith, length-append loaded (b ∷ [])) in
        let here : x.pos - 4 ≡ length loaded = omega (arith, l.position) in
        rw (grown, here)
          (take-set l.buf (length loaded) b (omega (arith, l.room))
            ∙ ap (λ (s : Str). s ++ b ∷ []) l.held)

-- The data bytes are read, and the receiver holds them.
pub read_data :
    (n api : ℕ) (bs loaded rest : Str) (x : XbeeState)
    → All IsByte bs
    → IsLoaded n api x loaded
    → length loaded + length bs ≤ n
    → n ≤ 124
    → (y : XbeeState) × (read_packet (send_bytes bs ++ rest) x ≡ read_packet rest y)
      × IsLoaded n api y (loaded ++ bs)
unfolding send_bytes
read_data n api [] loaded rest x bytes l more fits =
    (x, refl, subst (λ (s : Str). IsLoaded n api x s) (sym (append-nil loaded)) l)
read_data n api (b ∷ bs) loaded rest x bytes l more fits =
    let y = after_byte b x l.buf in
    let l' = load_byte n api b x loaded l (omega arith) fits in
    let (z, e, lz) =
      read_data n api bs (loaded ++ b ∷ []) rest y bytes.1 l'
        (omega (arith, length-append loaded (b ∷ []))) fits in
    (
      z,
      ap (λ (s : Str). read_packet s x) (append_assoc (send_byte b) (send_bytes bs) rest)
          ∙ read_packet-send_byte b (send_bytes bs ++ rest) x bytes.0 (omega (arith, l.position))
          ∙ ap (λ (r : Round). proceed r (send_bytes bs ++ rest))
              (accept_data n api b x loaded l (omega arith) fits)
          ∙ e,
      subst (λ (s : Str). IsLoaded n api z s) (append_assoc loaded (b ∷ []) bs) lz,
    )
