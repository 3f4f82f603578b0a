-- ===== src/Xbee/Send.antt =====
-- XBRequest::getFrameData, XBee::sendRequest and sendByte.
use mqtt_s_gateway.Base.{
  Str, u8, ◌>>=◌, ℕ, zero, suc, ◌+◌, ◌-◌, ◌/◌, ◌%◌, ◌^◌, bit_xor, Bool, ◌||◌, Option, some, List,
  [], ◌∷◌, ◌++◌, ltb, ◌==◌, if◌then◌else◌, length, get_elem?,
}
use mqtt_s_gateway.Client.{XBeeAddress64}
use mqtt_s_gateway.Xbee.{start_byte, escape_byte, xon, xoff}

pub record XbRequest : Type 0 where
  pub api_id : ℕ
  pub addr64 : XBeeAddress64
  pub addr16 : ℕ
  pub broadcast_radius : ℕ
  pub option : ℕ
  pub payload : Str
  pub payload_length : ℕ

abbrev pub zb_tx_api_length : ℕ
zb_tx_api_length = 12

-- The thirteen bytes in front of the payload, in the order of the tests in getFrameData.
unfoldable pub frame_header : XbRequest → Str
frame_header r =
    0
    ∷ (r.addr64.msb % 256)
    ∷ (r.addr64.msb / 2 ^ 8 % 256)
    ∷ (r.addr64.msb / 2 ^ 16 % 256)
    ∷ (r.addr64.msb / 2 ^ 24 % 256)
    ∷ (r.addr64.lsb % 256)
    ∷ (r.addr64.lsb / 2 ^ 8 % 256)
    ∷ (r.addr64.lsb / 2 ^ 16 % 256)
    ∷ (r.addr64.lsb / 2 ^ 24 % 256)
    ∷ (r.addr16 / 2 ^ 8 % 256)
    ∷ (r.addr16 % 256)
    ∷ r.broadcast_radius
    ∷ r.option
    ∷ []

-- XBRequest::getFrameData
unfoldable pub frame_data : XbRequest → ℕ → Option ℕ
unfolding frame_header
frame_data r pos =
    if ltb pos 13
    then get_elem? (frame_header r) pos
    else get_elem? r.payload (pos - zb_tx_api_length - 1)

-- XBRequest::getFrameDataLength, a uint8_t.
unfoldable pub frame_data_length : XbRequest → ℕ
frame_data_length r = u8 (zb_tx_api_length + 1 + r.payload_length)

-- The frame data that the loop of sendRequest reads in `count` rounds from `i` on.
unfoldable pub collect : XbRequest → ℕ → ℕ → Option Str
collect r zero i = some []
collect r (suc count) i = do b ← frame_data r i; rest ← collect r count (i + 1); some (b ∷ rest)

abbrev pub is_special : ℕ → Bool
is_special b = (b == start_byte) || ((b == escape_byte) || ((b == xon) || (b == xoff)))

-- sendByte with `escape` set.
unfoldable pub send_byte : ℕ → Str
send_byte b = if is_special b then escape_byte ∷ bit_xor b 0x20 ∷ [] else b ∷ []

unfoldable pub send_bytes : List ℕ → Str
unfolding send_byte
send_bytes [] = []
send_bytes (b ∷ bs) = send_byte b ++ send_bytes bs

-- `checksum += b`, in a uint8_t, over the bytes.
unfoldable pub add_up : ℕ → Str → ℕ
add_up sum [] = sum
add_up sum (b ∷ bs) = add_up (u8 (sum + b)) bs

-- The bytes that sendRequest writes for an API id and frame data.
unfoldable pub send_frame : ℕ → Str → Str
send_frame api bytes =
    let len = length bytes + 1 in
    start_byte
    ∷ (send_byte (len / 256 % 256)
        ++ (send_byte (len % 256)
            ++ (send_byte api ++ (send_bytes bytes ++ send_byte (255 - add_up api bytes)))))

-- sendRequest
unfoldable pub send_request : XbRequest → Option Str
send_request r = do bytes ← collect r (frame_data_length r) 0; some (send_frame r.api_id bytes)

-- ZBeeStack::unicast and broadcast: the request that they fill in and send. `_apiId` is 0x10 from the
-- constructor on, and `_broadcastRadius` 0.
unfoldable pub unicast : XBeeAddress64 → ℕ → Str → ℕ → ℕ → Option Str
unfolding send_request
unicast addr64 addr16 payload payload_length option = send_request (record {
  api_id = 0x10;
  addr64 = addr64;
  addr16 = addr16;
  broadcast_radius = 0;
  option = option;
  payload = payload;
  payload_length = payload_length;
})

unfoldable pub broadcast : Str → ℕ → Option Str
unfolding unicast
broadcast payload payload_length =
    unicast (record { msb = 0; lsb = 0xffff0000 }) 0xfffe payload payload_length 0
