-- ===== src/Xbee/Accessors.antt =====
-- The accessors of XBResponse and XBRequest of TomyGateway/src/libmq/ZBStack.cpp. `frame_data` is the
-- buffer that the pointer leads to, `none` behind a `free`.
use mqtt_s_gateway.Base.{
  Str, ℕ, ◌+◌, ◌*◌, ◌/◌, ◌%◌, ◌^◌, ◌<◌, ◌≡◌, refl, ap, Bool, true, false, ◌&&◌, Option, some, [],
  arith, ltb, nonzero, get_elem?, ◌>>=◌,
}
use mqtt_s_gateway.Bytes.{get_long}
use mqtt_s_gateway.Client.{XBeeAddress64}
use mqtt_s_gateway.Xbee.{XbResponse}
use mqtt_s_gateway.Xbee.Send.{XbRequest, frame_header, send_request, unicast}

-- The setters of XBResponse.
abbrev pub set_msb_length : XbResponse → ℕ → XbResponse
set_msb_length r n = record r { msb_length = n }

abbrev pub set_lsb_length : XbResponse → ℕ → XbResponse
set_lsb_length r n = record r { lsb_length = n }

abbrev pub set_checksum : XbResponse → ℕ → XbResponse
set_checksum r n = record r { checksum = n }

abbrev pub set_frame_data_length : XbResponse → ℕ → XbResponse
set_frame_data_length r n = record r { frame_length = n }

abbrev pub set_frame_data : XbResponse → Option Str → XbResponse
set_frame_data r buf = record r { frame_data = buf }

abbrev pub set_available : XbResponse → Bool → XbResponse
set_available r done = record r { complete = done }

abbrev pub set_error_code : XbResponse → ℕ → XbResponse
set_error_code r code = record r { error_code = code }

abbrev pub set_api_id : XbResponse → ℕ → XbResponse
set_api_id r api = record r { api_id = api }

unfoldable pub is_error : XbResponse → Bool
is_error r = ltb 0 r.error_code

-- getPayload, getRemoteAddressMsb, getRemoteAddressLsb and getOption.
unfoldable pub get_payload : XbResponse → ℕ → Option ℕ
get_payload r i = r.frame_data >>= λ frame. get_elem? frame (11 + i)

unfoldable pub remote_address_msb : XbResponse → Option ℕ
remote_address_msb r = r.frame_data >>= λ frame. get_long frame 0

unfoldable pub remote_address_lsb : XbResponse → Option ℕ
remote_address_lsb r = r.frame_data >>= λ frame. get_long frame 4

unfoldable pub get_option : XbResponse → Option ℕ
get_option r = r.frame_data >>= λ frame. get_elem? frame 10

-- isBroadcast: `getOption() && 0x02`
unfoldable pub is_broadcast : XbResponse → Option Bool
is_broadcast r = get_option r >>= λ o. some (nonzero o && nonzero 0x02)

-- The constructor of XBRequest, and its setters.
abbrev pub new_request : XbRequest
new_request = record {
  api_id = 0x10;
  addr64 = record { msb = 0; lsb = 0 };
  addr16 = 0;
  broadcast_radius = 0;
  option = 0;
  payload = [];
  payload_length = 0;
}

abbrev pub set_request_address64 : XbRequest → XBeeAddress64 → XbRequest
set_request_address64 r addr = record r { addr64 = record { msb = addr.msb; lsb = addr.lsb } }

abbrev pub set_request_address16 : XbRequest → ℕ → XbRequest
set_request_address16 r addr = record r { addr16 = addr }

abbrev pub set_request_option : XbRequest → ℕ → XbRequest
set_request_option r o = record r { option = o }

abbrev pub set_request_payload : XbRequest → Str → XbRequest
set_request_payload r bytes = record r { payload = bytes }

abbrev pub set_request_payload_length : XbRequest → ℕ → XbRequest
set_request_payload_length r n = record r { payload_length = n }

-- What unicast sends is what its calls of the setters leave in a new request.
pub unicast-setters :
    (addr64 : XBeeAddress64) (addr16 : ℕ) (bytes : Str) (len o : ℕ)
    → unicast addr64 addr16 bytes len o
      ≡ send_request (
          set_request_payload_length
            (set_request_payload
              (set_request_option
                (set_request_address16 (set_request_address64 new_request addr64) addr16)
                o)
              bytes)
            len)
unfolding unicast
unicast-setters addr64 addr16 bytes len o = refl

-- isBroadcast holds exactly for an option that is not 0, whatever its second bit says.
pub is_broadcast_any_option :
    (r : XbResponse) (o : ℕ) → get_option r ≡ some o → is_broadcast r ≡ some (ltb 0 o)
unfolding is_broadcast
is_broadcast_any_option r o e = rw (e, ◌>>=◌) (both (ltb 0 o))
  where
    both : (b : Bool) → some (b && true) ≡ some b
    both true = refl
    both false = refl

-- The four bytes of a number below 2^32, put together again.
pub four_bytes :
    (n : ℕ)
    → n < 2 ^ 32
    → (n / 2 ^ 24 % 256 * 2 ^ 24 + n / 2 ^ 16 % 256 * 2 ^ 16 + n / 2 ^ 8 % 256 * 2 ^ 8) % 2 ^ 32
        + n % 256
      ≡ n
four_bytes n h = omega (arith, h)

-- The eight bytes of the address in the frame that is sent, read as the address of a response: the
-- address of a client in 32-bit halves comes back.
pub get_long-frame_header :
    (r : XbRequest)
    → r.addr64.msb < 2 ^ 32
    → r.addr64.lsb < 2 ^ 32
    → (get_long (frame_header r) 1 ≡ some r.addr64.msb)
      × (get_long (frame_header r) 5 ≡ some r.addr64.lsb)
unfolding get_long frame_header
get_long-frame_header r high low =
    (ap some (four_bytes r.addr64.msb high), ap some (four_bytes r.addr64.lsb low))
