-- ===== src/Xbee.antt =====
-- Classes XBResponse, XBRequest and XBee of TomyGateway/src/libmq/ZBStack.cpp: the API frames of the
-- XBee radio. A byte stream is a list; its end stands for a `read` that returns false. The frame
-- buffer is `none` after `free`, and an access to it then faults, as one outside of its bounds does.
pub mod Send
pub mod Receive
pub mod Escaping
pub mod Loading
pub mod RoundTrip
pub mod Corruption
pub mod Accessors
use mqtt_s_gateway.Base.{
  Str, ◌>>=◌, ℕ, ◌+◌, ◌*◌, ◌%◌, Bool, false, Option, none, some, take, replicate,
}
use mqtt_s_gateway.Bytes.{get_long}
use mqtt_s_gateway.Client.{XBeeAddress64}

abbrev pub start_byte : ℕ
start_byte = 0x7e

abbrev pub escape_byte : ℕ
escape_byte = 0x7d

abbrev pub xon : ℕ
xon = 0x11

abbrev pub xoff : ℕ
xoff = 0x13

abbrev pub max_frame_data_size : ℕ
max_frame_data_size = 128

abbrev pub no_error : ℕ
no_error = 0

abbrev pub checksum_failure : ℕ
checksum_failure = 1

abbrev pub packet_exceeds_byte_array_length : ℕ
packet_exceeds_byte_array_length = 2

pub record XbResponse : Type 0 where
  pub frame_data : Option Str
  pub msb_length : ℕ
  pub lsb_length : ℕ
  pub checksum : ℕ
  pub frame_length : ℕ
  pub error_code : ℕ
  pub complete : Bool
  pub api_id : ℕ
  pub addr64 : XBeeAddress64

-- XBResponse::getPacketLength: `((_msbLength << 8) & 0xff) + (_lsbLength & 0xff)`
unfoldable pub packet_length : XbResponse → ℕ
packet_length r = r.msb_length * 256 % 256 + r.lsb_length % 256

-- XBResponse::reset frees the buffer and keeps the pointer.
unfoldable pub reset : XbResponse → XbResponse
reset r = record r {
  frame_data = none;
  msb_length = 0;
  lsb_length = 0;
  checksum = 0;
  frame_length = 0;
  error_code = no_error;
  complete = false;
}

-- XBResponse::absorb, into a response whose own buffer is freed.
unfoldable pub absorb : XbResponse → Option XbResponse
absorb src = do
  frame ← src.frame_data
  msb ← get_long frame 0
  lsb ← get_long frame 4
  some (record src {
    addr64 = record { msb = msb; lsb = lsb };
    frame_data = some (take src.frame_length frame);
  })

pub record XbeeState : Type 0 where
  pub response : XbResponse
  pub escape : Bool
  pub pos : ℕ
  pub checksum_total : ℕ

-- The constructor, with a zeroed buffer of MAX_FRAME_DATA_SIZE bytes.
unfoldable pub new_xbee : XbeeState
new_xbee = record {
  response = record {
    frame_data = some (replicate max_frame_data_size 0);
    msb_length = 0;
    lsb_length = 0;
    checksum = 0;
    frame_length = 0;
    error_code = no_error;
    complete = false;
    api_id = 0;
    addr64 = record { msb = 0; lsb = 0 };
  };
  escape = false;
  pos = 0;
  checksum_total = 0;
}
