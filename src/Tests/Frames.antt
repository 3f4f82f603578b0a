-- ===== src/Tests/Frames.antt =====
-- The XBee frames and the timer at concrete values.
use mqtt_s_gateway.Base.{
  Str, ◌≡◌, refl, true, false, Option, none, some, [], ◌∷◌, ◌++◌, arith, replicate,
}
use mqtt_s_gateway.Timer.{TimeVal, Timer}
use mqtt_s_gateway.Xbee.{max_frame_data_size, no_error, XbeeState}
use mqtt_s_gateway.Xbee.Receive.{read_packet}
use mqtt_s_gateway.Xbee.RoundTrip.{IsReady, IsReceived, read_packet-send_frame}
use mqtt_s_gateway.Xbee.Send.{send_frame}

-- A receiver that has just been made.
abbrev receiver : XbeeState
receiver = record {
  response = record {
    frame_data = some (replicate max_frame_data_size 0);
    msb_length = 0;
    lsb_length = 0;
    checksum = 0;
    frame_length = 0;
    error_code = no_error;
    complete = false;
    api_id = 0;
    addr64 = record { msb = 0; lsb = 0 };
  };
  escape = false;
  pos = 0;
  checksum_total = 0;
}

receiver-IsReady : IsReady receiver
receiver-IsReady = record {
  unescaped = refl;
  idle = refl;
  cleared = refl;
  buf = replicate max_frame_data_size 0;
  allocated = refl;
  room = refl;
}

-- Data with bytes that are escaped.
abbrev sample : Str
sample = 0x7e ∷ 1 ∷ 0x7d ∷ 0x13 ∷ []

read_packet-send_frame_example :
    (y : XbeeState) × (read_packet (send_frame 0x90 sample ++ 0x7e ∷ []) receiver
      ≡ some (y, 0x7e ∷ []))
    × IsReceived 0x90 sample y
    × IsReady y
read_packet-send_frame_example =
    read_packet-send_frame 0x90 sample (0x7e ∷ []) receiver receiver-IsReady (omega arith)
      (omega arith) (omega arith)

-- The receiver behind the length of a frame.
abbrev inside : XbeeState
inside = record receiver { pos = 3 }

-- A receiver that has received a frame of 8 data bytes, and the bytes of a frame with a wrong checksum.
abbrev filled : XbeeState
filled = record receiver {
  response = record (receiver.response) { complete = true; frame_length = 8 };
}

abbrev damaged : Str
damaged = 0x7e ∷ 0 ∷ 2 ∷ 0x90 ∷ 5 ∷ 0 ∷ []

abbrev state_of : Option (XbeeState × Str) → XbeeState
state_of none = receiver
state_of (some (y, rest)) = y

abbrev misread : XbeeState
misread = state_of (read_packet damaged filled)

-- A timer of two seconds.
abbrev two_seconds : Timer
two_seconds = record { start_time = record { tv_sec = 100; tv_usec = 999000 }; millis = 2000 }

abbrev late : TimeVal
late = record { tv_sec = 103; tv_usec = 0 }
