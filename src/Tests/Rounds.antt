-- ===== src/Tests/Rounds.antt =====
-- The tasks of the gateway, the client list and the socket at concrete values.
use mqtt_s_gateway.Base.{
  Str, ℕ, ◌+◌, ◌-◌, ◌*◌, ◌≡◌, refl, ◌⊎◌, true, false, ◌&&◌, Option, none, some, List, [], ◌∷◌, ◌++◌,
  arith, leb, if◌then◌else◌, replicate,
}
use mqtt_s_gateway.Bytes.{get_uint16, set_uint16, utf_serialize}
use mqtt_s_gateway.Client.{own, XBeeAddress64, ClientNode, set_keep_alive, update_status}
use mqtt_s_gateway.Clients.{Clients, get_client, create_node, client_at}
use mqtt_s_gateway.Clients.Authorize.{Libc, authorize}
use mqtt_s_gateway.Clients.Distinct.{create_node-get_client, found_after}
use mqtt_s_gateway.Clients.Invariant.{IsClients, authorize-IsClients}
use mqtt_s_gateway.Control.{handle_client_message, run_client_recv}
use mqtt_s_gateway.Control.Connect.{begin_session, send_connect, handle_sn_connect}
use mqtt_s_gateway.Event.{broker_send, broker_recv, client_recv, client_send}
use mqtt_s_gateway.Gateway.{Gateway, new_gateway}
use mqtt_s_gateway.Gateway.FromBroker.{done, out_of_fuel, recv_loop, recv_and_fire_event, poll}
use mqtt_s_gateway.Gateway.FromBroker.Packets.{received, recv_and_fire_event-packets}
use mqtt_s_gateway.Gateway.FromBroker.Stuck.{Stuck, recv_loop_stuck}
use mqtt_s_gateway.Gateway.FromBroker.Wire.{Packet, publish, puback, wires}
use mqtt_s_gateway.Gateway.FromClients.{receive_response, remote_address16}
use mqtt_s_gateway.Gateway.InStep.{IsInStep}
use mqtt_s_gateway.Gateway.InStep.Reachable.{
  controls, hears, Run, started, next, for_control, HasMessage, Run-IsInStep, Run-HasMessage,
}
use mqtt_s_gateway.Gateway.Run.{Moment, run_control}
use mqtt_s_gateway.Gateway.ToBroker.{waits, attempt, send_to_broker, serialize_for_broker, buffered}
use mqtt_s_gateway.Gateway.ToBroker.Delivery.{IsIdle, attempt_lem}
use mqtt_s_gateway.Gateway.ToBroker.Settling.{IsSettled, send_to_broker-IsSettled}
use mqtt_s_gateway.Gateway.ToClients.{radio_bytes}
use mqtt_s_gateway.Gateway.ToClients.Frames.{IsSendable, frame_of, read_packet-radio_bytes}
use mqtt_s_gateway.Mqtt.{MqttMessage, set_message_id, mqtt_pub_ack, mqtt_publish}
use mqtt_s_gateway.Mqtt.Deserialize.{read_block}
use mqtt_s_gateway.Mqtt.RoundTrip.{IsPublish}
use mqtt_s_gateway.Mqtt.Serialize.{Written}
use mqtt_s_gateway.Sn.{body_text, absorb_response, absorb, sn_message, put}
use mqtt_s_gateway.Sn.Requests.{
  connect_duration, sn_connect, is_clean_session, is_will_required, absorb_connect,
}
use mqtt_s_gateway.Socket.{OsAnswers, Socket}
use mqtt_s_gateway.Tests.Desks.{noon, node, desk, connack_ok}
use mqtt_s_gateway.Xbee.{XbResponse, new_xbee, XbeeState}
use mqtt_s_gateway.Xbee.Receive.{read_packet}
use mqtt_s_gateway.Xbee.RoundTrip.{IsReady, IsReceived}
use mqtt_s_gateway.RemainingLength
use mqtt_s_gateway.Socket

-- A frame with a CONNECT of the client "n".
abbrev connect_frame : XbResponse
connect_frame = record {
  frame_data =
      some (
        0 ∷ 0 ∷ 0 ∷ 1 ∷ 0 ∷ 0 ∷ 0 ∷ 2 ∷ 0x12 ∷ 0x34 ∷ 0 ∷ 7 ∷ 0x04 ∷ 0x04 ∷ 1 ∷ 0 ∷ 30 ∷ b'n' ∷ []);
  msb_length = 0;
  lsb_length = 19;
  checksum = 0;
  frame_length = 18;
  error_code = 0;
  complete = true;
  api_id = 0x90;
  addr64 = record { msb = 1; lsb = 2 };
}

abbrev gateway_of : Option Gateway → Gateway
gateway_of none = new_gateway noon
gateway_of (some g) = g

abbrev heard : Gateway
heard = gateway_of (receive_response noon (new_gateway noon) connect_frame)

abbrev moment : Moment
moment = record {
  now = noon;
  time_bytes = desk.time_bytes;
  unspecified = desk.unspecified;
  gw_id = 1;
}

abbrev handled : Gateway
handled = gateway_of (run_control moment heard)

heard-Run : Run noon heard
unfolding receive_response new_gateway absorb_response read_block remote_address16 body_text
    update_status set_keep_alive connect_duration get_uint16
heard-Run = next started (hears noon connect_frame refl)

Run-IsInStep_example : IsInStep handled
unfolding run_control receive_response new_gateway absorb_response read_block remote_address16
    body_text update_status set_keep_alive connect_duration get_uint16 run_client_recv
    handle_client_message handle_sn_connect absorb_connect put sn_connect sn_message begin_session
    send_connect is_clean_session is_will_required absorb set_uint16
Run-IsInStep_example = Run-IsInStep noon handled (next heard-Run (controls moment refl))

Run-HasMessage_example : HasMessage heard (client_recv 0)
unfolding receive_response new_gateway absorb_response read_block remote_address16 body_text
    update_status set_keep_alive connect_duration get_uint16
Run-HasMessage_example = Run-HasMessage noon heard (client_recv 0) heard-Run (for_control refl)

-- A PUBLISH of two bytes and a PUBACK that arrive together.
abbrev news : MqttMessage
news = record mqtt_publish { message_id = 3; topic = b't' ∷ []; payload = 1 ∷ 2 ∷ []; len = 2 }

news-IsPublish : IsPublish news
news-IsPublish = record {
  of_type = refl;
  flags_low = omega arith;
  id_range = omega arith;
  payload_len = refl;
  short_payload = omega arith;
  fits = omega arith;
}

abbrev arrivals : List Packet
arrivals = publish news ∷ puback 5 ∷ []

abbrev arrived : Str
arrived = 0x30 ∷ 7 ∷ 0 ∷ 1 ∷ b't' ∷ 0 ∷ 3 ∷ 1 ∷ 2 ∷ 0x40 ∷ 2 ∷ 0 ∷ 5 ∷ []

recv_and_fire_event-packets_example :
    recv_and_fire_event 0 (some arrived) node []
    ≡ done (received node arrivals) ([] ++ replicate 2 (broker_recv 0))
unfolding wires RemainingLength.encode RemainingLength.decode RemainingLength.serialize
    utf_serialize set_uint16
recv_and_fire_event-packets_example =
    recv_and_fire_event-packets 0 arrivals arrived node [] (news-IsPublish, (omega arith, tt)) refl
      (omega arith)

recv_loop_stuck_example :
    recv_loop 0 7 (0x90 ∷ 0xfc ∷ 0xff ∷ 0x03 ∷ 0 ∷ 1 ∷ 0 ∷ []) 7 node [] ≡ out_of_fuel
recv_loop_stuck_example = recv_loop_stuck 0 7 0 1 0 [] 7 node [] (omega arith)

-- An operating system that gives connections but sends nothing.
abbrev mute : OsAnswers
mute = record {
  descriptor = 3;
  option_set = true;
  family_supported = true;
  connected = true;
  sent = false;
}

new_socket-IsIdle : IsIdle Socket.new_socket
new_socket-IsIdle = record { unasked = refl; unposted = refl }

attempt_lem_example :
    attempt mute Socket.new_socket (0xe0 ∷ 0 ∷ [])
    ≡ waits (record { sock = 3; discon_req = true; sem = 0 })
attempt_lem_example = attempt_lem mute Socket.new_socket (0xe0 ∷ 0 ∷ []) new_socket-IsIdle

abbrev bound_node : ClientNode
bound_node = record node { broker_send_que = own (set_message_id mqtt_pub_ack 5) ∷ [] }

abbrev outbound : Gateway
outbound = record (new_gateway noon) {
  clients = record { nodes = bound_node ∷ []; cnt = 1; authorized = false };
  broker_send_que = broker_send 0 ∷ [];
}

abbrev puback_bytes : Written
puback_bytes = (set_message_id mqtt_pub_ack 5, 0x40 ∷ 2 ∷ 0 ∷ 5 ∷ [], 4)

send_to_broker-IsSettled_example :
    (g1 : Gateway) × (out : Str) × (send_to_broker mute outbound ≡ some (g1, out))
    × (IsSettled 0 [] g1
        ⊎ ((g2 : Gateway) × (send_to_broker mute (poll g1) ≡ some (g2, [])) × IsSettled 0 [] g2))
unfolding new_gateway client_at buffered serialize_for_broker RemainingLength.encode
    RemainingLength.decode RemainingLength.serialize set_uint16
send_to_broker-IsSettled_example =
    send_to_broker-IsSettled mute mute outbound 0 [] bound_node (set_message_id mqtt_pub_ack 5) []
      puback_bytes refl refl refl refl new_socket-IsIdle refl

-- A list with one client, and the address of another one.
abbrev one_client : Clients
one_client = record { nodes = node ∷ []; cnt = 1; authorized = false }

abbrev other_address : XBeeAddress64
other_address = record { msb = 1; lsb = 2 }

one_client-IsClients : IsClients one_client
one_client-IsClients = record { counted = refl; bounded = omega arith }

create_node-get_client_example :
    ((create_node one_client other_address none).1 ≡ some 1)
    × (get_client (create_node one_client other_address none).0 other_address ≡ some 1)
    × IsClients (create_node one_client other_address none).0
unfolding get_client found_after
create_node-get_client_example =
    create_node-get_client one_client other_address none other_address one_client-IsClients refl

-- Hexadecimal digits, up to the first byte that is none.
abbrev digit : ℕ → Option ℕ
digit b =
    if leb b'0' b && leb b b'9'
    then some (b - b'0')
    else if leb b'A' b && leb b b'F'
    then some (b - b'A' + 10)
    else none

abbrev digits : ℕ → Str → ℕ
digits value [] = value
digits value (b ∷ bs) =
    let following = digits (value * 16 + elim (digit b) [ none ↦ 0 | some d ↦ d ]) bs in
    elim (digit b) [ none ↦ value | some d ↦ following ]

abbrev hexadecimal : Libc
hexadecimal = record { strtoul = digits 0; behind_hex = 0 ∷ [] }

-- "0013A200409B0A11,x" with a blank and a newline.
abbrev listed : Str
listed =
    b'0' ∷ b'0' ∷ b'1' ∷ b'3' ∷ b'A' ∷ b'2' ∷ b'0' ∷ b'0' ∷ b'4' ∷ b'0' ∷ b'9' ∷ b'B' ∷ b'0' ∷ b'A'
    ∷ b'1' ∷ b'1' ∷ b',' ∷ 0x20 ∷ b'x' ∷ 0x0a ∷ []

authorize-IsClients_example :
    IsClients (authorize hexadecimal one_client (some (listed ∷ (0x0a ∷ []) ∷ [])))
authorize-IsClients_example =
    authorize-IsClients hexadecimal one_client (some (listed ∷ (0x0a ∷ []) ∷ []))
      one_client-IsClients

-- A CONNACK waits for the client.
abbrev answered : ClientNode
answered = record node { client_send_que = connack_ok ∷ [] }

abbrev answering : Gateway
answering = record (new_gateway noon) {
  clients = record { nodes = answered ∷ []; cnt = 1; authorized = false };
  client_send_que = client_send 0 ∷ [];
}

connack_ok-IsSendable : IsSendable connack_ok
connack_ok-IsSendable = record {
  body = 0 ∷ [];
  block = refl;
  counted = refl;
  bytes = (omega arith, (omega arith, (omega arith, tt)));
  fits = omega arith;
}

idle_receiver-IsReady : IsReady new_xbee
unfolding new_xbee
idle_receiver-IsReady = record {
  unescaped = refl;
  idle = refl;
  cleared = refl;
  buf = replicate 128 0;
  allocated = refl;
  room = refl;
}

read_packet-radio_bytes_example :
    (out : Str) × (y : XbeeState) × (radio_bytes answering (client_send 0) ≡ some out)
    × (read_packet (out ++ 0x7e ∷ []) new_xbee ≡ some (y, 0x7e ∷ []))
    × IsReceived 0x10 (frame_of answered connack_ok) y
unfolding client_at
read_packet-radio_bytes_example =
    read_packet-radio_bytes answering 0 answered connack_ok (0x7e ∷ []) new_xbee refl refl
      connack_ok-IsSendable idle_receiver-IsReady
