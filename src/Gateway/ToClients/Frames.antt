-- ===== src/Gateway/ToClients/Frames.antt =====
-- The frame of a message for a client: from its queue (TomyGateway/src/ClientSendTask.cpp) over the
-- frame data of TomyGateway/src/libmq/ZBStack.cpp to what a radio reads.
use mqtt_s_gateway.Base.{
  Str, IsByte, ℕ, zero, suc, ◌+◌, ◌≤◌, ◌≡◌, sym, ap, ◌∙◌, inl, inr, some, ◌∷◌, ◌++◌, arith, ltb,
  ltb→lt, Bool-cases, length, get_elem?, drop, All, get_elem?-append_left, drop-get_elem?, ◌>>=◌,
  ◌-◌, false, ◌==◌, get_elem?-append_right, drop_all, refl, true, append-nil, leb, replicate,
  length-replicate, take_all, [], length-append, All-append,
}
use mqtt_s_gateway.Client.{ClientNode, get_message}
use mqtt_s_gateway.Clients.{client_at}
use mqtt_s_gateway.Event.{client_send}
use mqtt_s_gateway.Gateway.{Gateway}
use mqtt_s_gateway.Gateway.ToClients.{copied, radio_bytes}
use mqtt_s_gateway.Mqtt.Deserialize.{read_block}
use mqtt_s_gateway.Sn.{absorb, SnMessage, allocate, write_block, put, body_length}
use mqtt_s_gateway.Xbee.{XbeeState}
use mqtt_s_gateway.Xbee.Receive.{read_packet}
use mqtt_s_gateway.Xbee.RoundTrip.{IsReady, IsReceived, read_packet-send_frame}
use mqtt_s_gateway.Xbee.Send.{
  frame_data, XbRequest, frame_header, collect, zb_tx_api_length, frame_data_length, send_frame,
  send_request, unicast,
}

-- A message as its block of bytes stands for it, short enough for one frame.
pub record IsSendable (m : SnMessage) : Type 0 where
  pub body : Str
  pub block : m.message ≡ m.length_byte ∷ m.type ∷ body
  pub counted : m.length_byte ≡ length body + 2
  pub bytes : All IsByte m.message
  pub fits : length body ≤ 109

read_body :
    (m : SnMessage) (s : IsSendable m) → read_block (body_length m) (drop 2 m.message) ≡ some s.body
unfolding read_block
read_body m s =
    let count : body_length m ≡ length s.body = omega (arith, s.counted, s.fits) in
    let enough : leb (length s.body) (length s.body) ≡ true = ground arith in
    rw (s.block) (rw (count) (rw enough (ap some (take_all (length s.body) s.body (omega arith)))))

put_body :
    (len type : ℕ) (body : Str)
    → put
        (record {
          message = len ∷ type ∷ replicate (length body) 0;
          length_byte = len;
          type = type;
        })
        0
        body
      ≡ some (record { message = len ∷ type ∷ body; length_byte = len; type = type })
unfolding put write_block
put_body len type body =
    let zeros : Str = replicate (length body) 0 in
    let size : length zeros ≡ length body = length-replicate (length body) 0 in
    let gone : drop (length body) zeros ≡ [] = drop_all (length body) zeros (omega (arith, size)) in
    let enough : leb (2 + length body) (length (len ∷ type ∷ zeros)) ≡ true =
      ground (arith, size) in
    let e : 2 + length body ≡ suc (suc (length body)) = omega arith in
    rw (enough, ◌>>=◌) (rw e (rw (gone, append-nil body) refl))

-- The copy that the task makes is the message.
copied_lem : (m : SnMessage) → IsSendable m → copied m ≡ some m
unfolding copied absorb allocate
copied_lem m s =
    let positive : (m.length_byte == 0) ≡ false = ground (arith, s.counted) in
    let longer : (m.length_byte == 1) ≡ false = ground (arith, s.counted) in
    let size : m.length_byte - 2 ≡ length s.body = omega (arith, s.counted) in
    rw (positive, longer, size, ◌>>=◌)
      (rw (read_body m s, ◌>>=◌)
        (put_body m.length_byte m.type s.body
          ∙ ap (λ block. some (record m { message = block })) (sym s.block)))

frame_data_lem :
    (r : XbRequest) (pos : ℕ) → frame_data r pos ≡ get_elem? (frame_header r ++ r.payload) pos
unfolding frame_data frame_header
frame_data_lem r pos = elim (Bool-cases (ltb pos 13)) [
  | inl low ↦
      rw low (sym (get_elem?-append_left (frame_header r) r.payload pos (ltb→lt pos 13 low)))
  | inr high ↦ rw high (
      let past : length (frame_header r) + (pos - zb_tx_api_length - 1) ≡ pos = ground arith in
      sym (get_elem?-append_right (frame_header r) r.payload (pos - zb_tx_api_length - 1))
      ∙ ap (get_elem? (frame_header r ++ r.payload)) past)
]

-- The loop of sendRequest reads a stretch of the frame data.
collect_lem :
    (r : XbRequest) (n i : ℕ)
    → i + n ≡ length (frame_header r ++ r.payload)
    → collect r n i ≡ some (drop i (frame_header r ++ r.payload))
unfolding collect
collect_lem r zero i e = ap some (sym (drop_all i (frame_header r ++ r.payload) (omega arith)))
collect_lem r (suc n) i e =
    let xs = frame_header r ++ r.payload in
    let (b, at, rest) = drop-get_elem? xs i (omega arith) in
    rw (frame_data_lem r i ∙ at, ◌>>=◌)
      (rw (collect_lem r n (i + 1) (omega arith), ◌>>=◌) (ap some (sym rest)))

header_bytes :
    (r : XbRequest) → IsByte r.broadcast_radius → IsByte r.option → All IsByte (frame_header r)
unfolding frame_header
header_bytes r hb ho = ground (arith, hb, ho)

-- The request for a message and a client, and the frame data that it stands for.
abbrev pub request_for : ClientNode → SnMessage → XbRequest
request_for c m = record {
  api_id = 0x10;
  addr64 = c.address64;
  addr16 = c.address16;
  broadcast_radius = 0;
  option = 0;
  payload = m.message;
  payload_length = m.length_byte;
}

abbrev pub frame_of : ClientNode → SnMessage → Str
frame_of c m = frame_header (request_for c m) ++ m.message

length-frame_of :
    (c : ClientNode) (m : SnMessage) → IsSendable m → length (frame_of c m) ≡ 13 + m.length_byte
unfolding frame_header
length-frame_of c m s =
    omega (
      arith,
      length-append (frame_header (request_for c m)) m.message,
      ap length s.block,
      s.counted,
    )

unicast_lem :
    (c : ClientNode) (m : SnMessage)
    → IsSendable m
    → unicast c.address64 c.address16 m.message m.length_byte 0
      ≡ some (send_frame 0x10 (frame_of c m))
unfolding unicast send_request frame_data_length
unicast_lem c m s =
    let all : frame_data_length (request_for c m) ≡ 13 + m.length_byte =
      omega (arith, s.counted, s.fits) in
    rw (all) (
      rw
        (
          collect_lem (request_for c m) (13 + m.length_byte) 0
              (omega (arith, length-frame_of c m s)),
          ◌>>=◌,
        )
        refl)

-- What ClientSendTask writes to the radio for the front message of a client, of at most 111 bytes
-- and with the length and the type in front, is read back by a frame reader between two frames,
-- whatever bytes follow: it gets the API id 0x10, the addresses and options in thirteen bytes, and
-- then the message.
pub read_packet-radio_bytes :
    (g : Gateway) (i : ℕ) (c : ClientNode) (m : SnMessage) (rest : Str) (x : XbeeState)
    → client_at g.clients.nodes i ≡ some c
    → get_message c.client_send_que ≡ some m
    → IsSendable m
    → IsReady x
    → (out : Str) × (y : XbeeState) × (radio_bytes g (client_send i) ≡ some out)
      × (read_packet (out ++ rest) x ≡ some (y, rest))
      × IsReceived 0x10 (frame_of c m) y
unfolding radio_bytes
read_packet-radio_bytes g i c m rest x at front s ready =
    let bytes =
      All-append IsByte (frame_header (request_for c m)) m.message
        (header_bytes (request_for c m) (omega arith) (omega arith)) s.bytes in
    let short : length (frame_of c m) ≤ 124 =
      omega (arith, length-frame_of c m s, s.counted, s.fits) in
    let (y, read, got, idle) =
      read_packet-send_frame 0x10 (frame_of c m) rest x ready (omega arith) bytes short in
    (
      send_frame 0x10 (frame_of c m),
      y,
      rw (at, ◌>>=◌) (rw (front, ◌>>=◌) (rw (copied_lem m s, ◌>>=◌) (unicast_lem c m s))),
      read,
      got,
    )
