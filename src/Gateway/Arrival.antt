-- ===== src/Gateway/Arrival.antt =====
-- The way of a client's message to the control task: from the bytes of the radio, through
-- TomyGateway/src/libmq/ZBStack.cpp, to the queues that TomyGateway/src/ClientRecvTask.cpp fills.
use mqtt_s_gateway.Base.{
  Str, ℕ, ◌/◌, ◌%◌, ◌^◌, ◌<◌, ◌≡◌, refl, sym, ap, ◌∙◌, some, [], ◌∷◌, ◌++◌, length, drop, take-drop,
  ◌>>=◌, take, IsByte, u8, ◌+◌, ◌-◌, ◌≤◌, arith, set, All, get_elem?-set,
}
use mqtt_s_gateway.Bytes.{get_long}
use mqtt_s_gateway.Client.{XBeeAddress64, ClientNode, set_client_recv_message}
use mqtt_s_gateway.Client.Queues.{update_status-publish}
use mqtt_s_gateway.Clients.{get_client, client_at}
use mqtt_s_gateway.Event.{client_recv}
use mqtt_s_gateway.Gateway.{Gateway, post, set_client, on_client_node}
use mqtt_s_gateway.Gateway.FromClients.{
  zb_payload_offset, payload, payload_length, absorbed, blank_message, receive_known,
  receive_response,
}
use mqtt_s_gateway.Sn.{SnMessage}
use mqtt_s_gateway.Sn.Builders.Blocks.{message_of, absorb_response-message_of}
use mqtt_s_gateway.Sn.Types.{sn_type_publish}
use mqtt_s_gateway.Timer.{TimeVal}
use mqtt_s_gateway.Xbee.{XbResponse, XbeeState}
use mqtt_s_gateway.Xbee.Accessors.{four_bytes}
use mqtt_s_gateway.Xbee.Receive.{received, check_response, read_packet}
use mqtt_s_gateway.Xbee.RoundTrip.{IsReceived, IsReady, read_packet-send_frame}
use mqtt_s_gateway.Xbee.Send.{send_frame}

-- The eleven bytes in front of the payload of a received frame: the address of the sender with the low
-- byte of each half first, as getLong reads it, its 16-bit address, and the options.
abbrev pub radio_header : XBeeAddress64 → ℕ → ℕ → Str
radio_header addr addr16 option =
    (addr.msb % 256)
    ∷ (addr.msb / 2 ^ 8 % 256)
    ∷ (addr.msb / 2 ^ 16 % 256)
    ∷ (addr.msb / 2 ^ 24 % 256)
    ∷ (addr.lsb % 256)
    ∷ (addr.lsb / 2 ^ 8 % 256)
    ∷ (addr.lsb / 2 ^ 16 % 256)
    ∷ (addr.lsb / 2 ^ 24 % 256)
    ∷ (addr16 / 2 ^ 8 % 256)
    ∷ (addr16 % 256)
    ∷ option
    ∷ []

abbrev pub arriving : XBeeAddress64 → ℕ → ℕ → Str → Str
arriving addr addr16 option body =
    radio_header addr addr16 option ++ (message_of sn_type_publish body).message

address_read :
    (y : XbeeState) (addr : XBeeAddress64) (addr16 option : ℕ) (body : Str)
    → addr.msb < 2 ^ 32
    → addr.lsb < 2 ^ 32
    → (got : IsReceived 0x90 (arriving addr addr16 option body) y)
    → (get_long got.buf 0 ≡ some addr.msb) × (get_long got.buf 4 ≡ some addr.lsb)
unfolding get_long
address_read y addr addr16 option body high low got =
    let bytes : Str = arriving addr addr16 option body in
    let whole : got.buf ≡ bytes ++ drop (length bytes) got.buf = sym (
      ap (λ xs. xs ++ drop (length bytes) got.buf) (sym got.held)
      ∙ take-drop (length bytes) got.buf) in
    (
      ap (λ buf. get_long buf 0) whole ∙ ap some (four_bytes addr.msb high),
      ap (λ buf. get_long buf 4) whole ∙ ap some (four_bytes addr.lsb low),
    )

-- The response that check_response makes of a received frame.
absorbed_frame :
    (y : XbeeState) (addr : XBeeAddress64) (addr16 option : ℕ) (body : Str)
    → addr.msb < 2 ^ 32
    → addr.lsb < 2 ^ 32
    → IsReceived 0x90 (arriving addr addr16 option body) y
    → (r : XbResponse) × (check_response y ≡ some (received r y))
      × (r.frame_data ≡ some (arriving addr addr16 option body))
      × (r.frame_length ≡ length (arriving addr addr16 option body))
      × (r.addr64 ≡ addr)
unfolding check_response mqtt_s_gateway.Xbee.absorb
absorbed_frame y addr addr16 option body high low got =
    let bytes : Str = arriving addr addr16 option body in
    let (msb, lsb) = address_read y addr addr16 option body high low got in
    let cut : take y.response.frame_length got.buf ≡ bytes =
      ap (λ n. take n got.buf) got.counted ∙ got.held in
    (
      record y.response { addr64 = addr; frame_data = some bytes },
      rw (got.available, got.allocated, ◌>>=◌, msb, ◌>>=◌, lsb, ◌>>=◌, cut) refl,
      refl,
      got.counted,
      refl,
    )

abbrev publish_of : Str → SnMessage
publish_of body = message_of sn_type_publish body

payload_lem :
    (r : XbResponse) (addr : XBeeAddress64) (addr16 option : ℕ) (body : Str)
    → r.frame_data ≡ some (arriving addr addr16 option body)
    → payload r ≡ some (publish_of body).message
unfolding payload
payload_lem r addr addr16 option body frame = rw (frame, ◌>>=◌) refl

absorbed_lem :
    (r : XbResponse) (addr : XBeeAddress64) (addr16 option : ℕ) (body : Str)
    → r.frame_data ≡ some (arriving addr addr16 option body)
    → r.frame_length ≡ length (arriving addr addr16 option body)
    → length body ≤ 240
    → absorbed blank_message r ≡ some (publish_of body)
unfolding absorbed payload_length
absorbed_lem r addr addr16 option body frame counted fits =
    let len : u8 (r.frame_length + 256 - zb_payload_offset) ≡ length body + 2 =
      omega (arith, counted, fits) in
    rw (payload_lem r addr addr16 option body frame, ◌>>=◌, len)
      (absorb_response-message_of blank_message sn_type_publish body)

-- What a round of ClientRecvTask leaves for a message of a known client: the message behind those that
-- wait, and its event behind those of the others.
pub record HasArrived (g : Gateway) (i : ℕ) (c : ClientNode) (m : SnMessage) (g' : Gateway)
    : Type 0 where
  pub node : ClientNode
  pub listed : client_at g'.clients.nodes i ≡ some node
  pub queued : node.client_recv_que ≡ c.client_recv_que ++ m ∷ []
  pub posted : g'.gateway_event_que ≡ g.gateway_event_que ++ client_recv i ∷ []

receive_publish :
    (now : TimeVal) (g : Gateway) (i : ℕ) (c : ClientNode) (r : XbResponse) (addr : XBeeAddress64)
    (addr16 option : ℕ) (body : Str)
    → r.frame_data ≡ some (arriving addr addr16 option body)
    → r.frame_length ≡ length (arriving addr addr16 option body)
    → length body ≤ 240
    → get_client g.clients r.addr64 ≡ some i
    → client_at g.clients.nodes i ≡ some c
    → (g' : Gateway) × (receive_response now g r ≡ some g') × HasArrived g i c (publish_of body) g'
unfolding receive_response receive_known on_client_node set_client_recv_message set_client
receive_publish now g i c r addr addr16 option body frame counted fits knows at =
    let m : SnMessage = publish_of body in
    let (c', updates, same, _, _) = update_status-publish c now m refl in
    let new : ClientNode = record c' { client_recv_que = c'.client_recv_que ++ m ∷ [] } in
    (
      record g {
        clients = record (g.clients) { nodes = set g.clients.nodes i new };
        gateway_event_que = post g.gateway_event_que (client_recv i);
      },
      rw
          (
            payload_lem r addr addr16 option body frame,
            ◌>>=◌,
            knows,
            absorbed_lem r addr addr16 option body frame counted fits,
            ◌>>=◌,
            at,
            ◌>>=◌,
            updates,
            ◌>>=◌,
          )
          refl,
      record {
        node = new;
        listed = unfold client_at in get_elem?-set g.clients.nodes i c new (unfold client_at in at);
        queued = ap (λ q. q ++ m ∷ []) same.client_recv;
        posted = refl;
      },
    )

-- A frame of API id 0x90 with the 64-bit address of a client in the list and a PUBLISH of at most
-- 109 bytes behind its header, written by a radio and read between two frames, whatever bytes
-- follow: readPacket takes exactly the frame, receiveResponse gives a response, and ClientRecvTask
-- queues the PUBLISH behind the messages of that client and posts the event, without a fault.
pub receive_response-Arrives :
    (now : TimeVal) (g : Gateway) (i : ℕ) (c : ClientNode) (addr : XBeeAddress64)
    (addr16 option : ℕ) (body rest : Str) (x : XbeeState)
    → addr.msb < 2 ^ 32
    → addr.lsb < 2 ^ 32
    → IsByte option
    → All IsByte body
    → length body ≤ 109
    → get_client g.clients addr ≡ some i
    → client_at g.clients.nodes i ≡ some c
    → IsReady x
    → (y : XbeeState) × (r : XbResponse) × (g' : Gateway) × (read_packet
          (send_frame 0x90 (arriving addr addr16 option body) ++ rest)
          x
        ≡ some (y, rest))
      × (check_response y ≡ some (received r y))
      × (receive_response now g r ≡ some g')
      × HasArrived g i c (message_of sn_type_publish body) g'
receive_response-Arrives now g i c addr addr16 option body rest x high low ho hb fits knows at
      ready =
    let bytes : Str = arriving addr addr16 option body in
    let (y, reads, got, _) =
      read_packet-send_frame 0x90 bytes rest x ready (omega arith)
        (arriving-bytes addr addr16 option body ho hb fits) (omega (arith, fits)) in
    let (r, checks, frame, counted, from) = absorbed_frame y addr addr16 option body high low got in
    let (g', receives, arrived) =
      receive_publish now g i c r addr addr16 option body frame counted (omega (arith, fits))
        (ap (get_client g.clients) from ∙ knows) at in
    (y, r, g', reads, checks, receives, arrived)
  where
    arriving-bytes :
        (addr : XBeeAddress64) (addr16 option : ℕ) (body : Str)
        → IsByte option
        → All IsByte body
        → length body ≤ 109
        → All IsByte (arriving addr addr16 option body)
    arriving-bytes addr addr16 option body ho hb fits = ground (arith, ho, hb, fits)
