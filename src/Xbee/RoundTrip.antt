-- ===== src/Xbee/RoundTrip.antt =====
-- readPacket reads back the frames that sendRequest writes.
use mqtt_s_gateway.Base.{
  Str, IsByte, u8, ℕ, ◌+◌, ◌-◌, ◌≤◌, ◌≡◌, refl, ap, ◌∙◌, false, some, [], ◌∷◌, ◌++◌, arith, length,
  take, append_assoc, All, true, ◌/◌, ◌%◌,
}
use mqtt_s_gateway.Xbee.{max_frame_data_size, packet_length, XbeeState, start_byte, no_error}
use mqtt_s_gateway.Xbee.Escaping.{proceed, read_packet-send_byte, read_plain}
use mqtt_s_gateway.Xbee.Loading.{add_up_lt, IsLoaded, read_data}
use mqtt_s_gateway.Xbee.Receive.{again, accept, Round, read_packet, return, finish, restart}
use mqtt_s_gateway.Xbee.Send.{add_up, send_byte, send_bytes, send_frame}

-- A receiver between two frames.
pub record IsReady (x : XbeeState) : Type 0 where
  pub unescaped : x.escape ≡ false
  pub idle : x.pos ≡ 0
  pub cleared : x.checksum_total ≡ 0
  pub buf : Str
  pub allocated : x.response.frame_data ≡ some buf
  pub room : length buf ≡ max_frame_data_size

-- The states behind the start byte, the two length bytes and the API id.
abbrev started : XbeeState → XbeeState
started x = record x { pos = 1; escape = false }

abbrev high_read : XbeeState → XbeeState
high_read x = record x {
  pos = 2;
  escape = false;
  response = record (x.response) { msb_length = 0 };
}

abbrev low_read : XbeeState → ℕ → XbeeState
low_read x lsb = record x {
  pos = 3;
  escape = false;
  response = record (x.response) { msb_length = 0; lsb_length = lsb };
}

abbrev headed : XbeeState → ℕ → ℕ → XbeeState
headed x lsb api = record x {
  pos = 4;
  escape = false;
  checksum_total = u8 (x.checksum_total + api);
  response = record (x.response) { msb_length = 0; lsb_length = lsb; api_id = api };
}

accept_start :
    (x : XbeeState)
    → x.escape ≡ false
    → accept start_byte (restart start_byte x) ≡ again (started x)
unfolding accept restart
accept_start x u = ground arith

accept_high : (x : XbeeState) → accept 0 (started x) ≡ again (high_read x)
unfolding accept
accept_high x = refl

accept_low : (x : XbeeState) (lsb : ℕ) → accept lsb (high_read x) ≡ again (low_read x lsb)
unfolding accept
accept_low x lsb = refl

accept_api : (x : XbeeState) (lsb api : ℕ) → accept api (low_read x lsb) ≡ again (headed x lsb api)
unfolding accept
accept_api x lsb api = refl

-- A start byte begins a frame, also in the middle of another one.
read_start :
    (rest : Str) (x : XbeeState)
    → x.escape ≡ false
    → read_packet (start_byte ∷ rest) x ≡ read_packet rest (started x)
read_start rest x u =
    read_plain start_byte rest x (omega arith)
    ∙ ap (λ (r : Round). proceed r rest) (accept_start x u)

read_header :
    (lsb api : ℕ) (rest : Str) (x : XbeeState)
    → x.escape ≡ false
    → IsByte lsb
    → IsByte api
    → read_packet (start_byte ∷ (send_byte 0 ++ (send_byte lsb ++ (send_byte api ++ rest)))) x
      ≡ read_packet rest (headed x lsb api)
read_header lsb api rest x u hl ha =
    read_start _ x u
    ∙ read_packet-send_byte 0 _ (started x) (omega arith) (omega arith)
    ∙ ap (λ (r : Round). proceed r (send_byte lsb ++ (send_byte api ++ rest))) (accept_high x)
    ∙ read_packet-send_byte lsb _ (high_read x) hl (omega arith)
    ∙ ap (λ (r : Round). proceed r (send_byte api ++ rest)) (accept_low x lsb)
    ∙ read_packet-send_byte api rest (low_read x lsb) ha (omega arith)
    ∙ ap (λ (r : Round). proceed r rest) (accept_api x lsb api)

headed-IsLoaded :
    (n api : ℕ) (x : XbeeState)
    → IsReady x
    → n ≤ 124
    → IsByte api
    → IsLoaded n api (headed x (n + 1) api) []
unfolding packet_length add_up
headed-IsLoaded n api x r fits ha = record {
  unescaped = refl;
  position = omega arith;
  summed = omega (arith, r.cleared);
  sized = omega arith;
  tagged = refl;
  buf = r.buf;
  allocated = r.allocated;
  room = r.room;
  held = refl;
}

-- What the application gets of a frame.
pub record IsReceived (api : ℕ) (bytes : Str) (x : XbeeState) : Type 0 where
  pub available : x.response.complete ≡ true
  pub correct : x.response.error_code ≡ no_error
  pub tagged : x.response.api_id ≡ api
  pub counted : x.response.frame_length ≡ length bytes
  pub buf : Str
  pub allocated : x.response.frame_data ≡ some buf
  pub held : take (length bytes) buf ≡ bytes

-- The state that the last byte of a good frame leaves.
abbrev done : ℕ → XbeeState → XbeeState
done b x = record x {
  response = record (x.response) {
    checksum = b;
    complete = true;
    error_code = no_error;
    frame_length = u8 (x.pos + 252);
  };
  escape = false;
  pos = 0;
  checksum_total = 0;
}

accept_checksum :
    (n api : ℕ) (x : XbeeState) (bytes : Str)
    → IsLoaded n api x bytes
    → IsByte api
    → length bytes ≡ n
    → n ≤ 124
    → accept (255 - add_up api bytes) x ≡ return (done (255 - add_up api bytes) x)
unfolding accept finish
accept_checksum n api x bytes l ha e fits = ground (arith, l, add_up_lt api bytes ha)

frame_shape :
    (api : ℕ) (bytes rest : Str)
    → length bytes ≤ 124
    → send_frame api bytes ++ rest
      ≡ start_byte
        ∷ (send_byte 0
            ++ (send_byte (length bytes + 1)
                ++ (send_byte api
                    ++ (send_bytes bytes ++ (send_byte (255 - add_up api bytes) ++ rest)))))
unfolding send_frame
frame_shape api bytes rest fits =
    let high : (length bytes + 1) / 256 % 256 ≡ 0 = omega arith in
    let low : (length bytes + 1) % 256 ≡ length bytes + 1 = omega arith in
    rw (high, low) (simp append_assoc)

done-IsReceived :
    (n api b : ℕ) (x : XbeeState) (bytes : Str)
    → IsLoaded n api x bytes
    → length bytes ≡ n
    → n ≤ 124
    → IsReceived api bytes (done b x) × IsReady (done b x)
done-IsReceived n api b x bytes l e fits = (
  record {
    available = refl;
    correct = refl;
    tagged = l.tagged;
    counted = omega (arith, l.position);
    buf = l.buf;
    allocated = l.allocated;
    held = l.held;
  },
  record {
    unescaped = refl;
    idle = refl;
    cleared = refl;
    buf = l.buf;
    allocated = l.allocated;
    room = l.room;
  },
)

-- A receiver between two frames reads the bytes that sendRequest writes for an API id and at most 124
-- bytes of frame data: it leaves the bytes that follow, has the API id and the data with no error, and
-- is between two frames again.
pub read_packet-send_frame :
    (api : ℕ) (bytes rest : Str) (x : XbeeState)
    → IsReady x
    → IsByte api
    → All IsByte bytes
    → length bytes ≤ 124
    → (y : XbeeState) × (read_packet (send_frame api bytes ++ rest) x ≡ some (y, rest))
      × IsReceived api bytes y
      × IsReady y
read_packet-send_frame api bytes rest x r ha hb fits =
    let n = length bytes in
    let last = 255 - add_up api bytes in
    let (y, e, l) =
      read_data n api bytes [] (send_byte last ++ rest) (headed x (n + 1) api) hb
        (headed-IsLoaded n api x r fits ha) (omega arith) fits in
    let (got, ready) = done-IsReceived n api last y bytes l refl fits in
    (
      done last y,
      ap (λ (s : Str). read_packet s x) (frame_shape api bytes rest fits)
          ∙ read_header (n + 1) api _ x r.unescaped (omega arith) ha
          ∙ e
          ∙ read_packet-send_byte last rest y (omega arith) (omega (arith, l.position))
          ∙ ap (λ (z : Round). proceed z rest) (accept_checksum n api y bytes l ha refl fits),
      got,
      ready,
    )
