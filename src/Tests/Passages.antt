-- ===== src/Tests/Passages.antt =====
-- Messages on their way through the gateway, and a client list, at concrete values.
use mqtt_s_gateway.Base.{
  Str, ◌≡◌, refl, true, false, none, some, [], ◌∷◌, ◌++◌, arith, str_eq, replicate, ◌≤◌,
}
use mqtt_s_gateway.Client.{ClientNode}
use mqtt_s_gateway.Clients.{Clients, same_address, find_client, get_client, client_at, create_node}
use mqtt_s_gateway.Clients.Erasing.{erase, erase-create_node}
use mqtt_s_gateway.Clients.Invariant.{IsClients}
use mqtt_s_gateway.Control.Context.{Desk}
use mqtt_s_gateway.Control.Downstream.{handle_publish}
use mqtt_s_gateway.Event.{broker_recv, client_recv}
use mqtt_s_gateway.Gateway.{Gateway, new_gateway}
use mqtt_s_gateway.Gateway.Arrival.{arriving, HasArrived, receive_response-Arrives}
use mqtt_s_gateway.Gateway.Ascent.{send_to_broker-run_control}
use mqtt_s_gateway.Gateway.Downward.{
  IsDelivered, Delivers, handle_publish-Delivers, handle_publish_overflow,
}
use mqtt_s_gateway.Gateway.FromClients.{receive_response}
use mqtt_s_gateway.Gateway.Relay.{send_to_radio-run_control}
use mqtt_s_gateway.Gateway.Run.{Moment, run_control}
use mqtt_s_gateway.Gateway.ToBroker.{send_to_broker, buffered}
use mqtt_s_gateway.Gateway.ToBroker.Overflow.{buffered-connect}
use mqtt_s_gateway.Gateway.ToBroker.Settling.{IsSettled}
use mqtt_s_gateway.Gateway.ToClients.{send_to_radio}
use mqtt_s_gateway.Gateway.ToClients.Frames.{frame_of}
use mqtt_s_gateway.Mqtt.{MqttMessage, mqtt_publish, mqtt_connect}
use mqtt_s_gateway.Mqtt.Deserialize.{deserialize_publish}
use mqtt_s_gateway.Mqtt.Serialize.{Written, connect_length}
use mqtt_s_gateway.Sn.{SnMessage}
use mqtt_s_gateway.Sn.Builders.Absorbing.{publish_body}
use mqtt_s_gateway.Sn.Builders.Blocks.{message_of}
use mqtt_s_gateway.Sn.Types.{sn_type_publish}
use mqtt_s_gateway.Socket.{OsAnswers}
use mqtt_s_gateway.Tests.Desks.{noon, node, desk}
use mqtt_s_gateway.Topics.{get_topic_id, get_topic, find_name, get_topic_by_id, find_id}
use mqtt_s_gateway.Xbee.{XbResponse, XbeeState, new_xbee}
use mqtt_s_gateway.Xbee.Receive.{read_packet, received, check_response}
use mqtt_s_gateway.Xbee.RoundTrip.{IsReady, IsReceived}
use mqtt_s_gateway.Xbee.Send.{send_frame}

-- A PUBLISH of the broker for the topic "t", with two bytes of data and QoS 1.
abbrev report : MqttMessage
report = record mqtt_publish {
  flags = 0x02;
  message_id = 3;
  topic = b't' ∷ [];
  payload = 1 ∷ 2 ∷ [];
  len = 2;
}

handle_publish-Delivers_example :
    (d' : Desk) × (handle_publish desk report ≡ some d') × Delivers desk report 257 d'
unfolding get_topic_id get_topic find_name str_eq
handle_publish-Delivers_example =
    handle_publish-Delivers desk report 257 (omega arith) refl (omega arith) (omega arith)
      (omega arith) (omega arith)

handle_publish_overflow_example :
    handle_publish desk (record report { payload = replicate 200 1; len = 200 }) ≡ none
unfolding get_topic_id get_topic find_name str_eq
handle_publish_overflow_example =
    handle_publish_overflow desk (record report { payload = replicate 200 1; len = 200 }) 257
      (omega arith) refl (omega arith) (omega arith) (omega arith)

-- The body of a PUBLISH for the topic 257 with the message id 5 and two bytes of data.
abbrev publish_bytes : Str
publish_bytes = 0x20 ∷ 1 ∷ 1 ∷ 0 ∷ 5 ∷ 42 ∷ 43 ∷ []

abbrev listening : Gateway
listening = record (new_gateway noon) {
  clients = record { nodes = node ∷ []; cnt = 1; authorized = false };
}

new_xbee-IsReady : IsReady new_xbee
unfolding new_xbee
new_xbee-IsReady = record {
  unescaped = refl;
  idle = refl;
  cleared = refl;
  buf = replicate 128 0;
  allocated = refl;
  room = refl;
}

receive_response-Arrives_example :
    (y : XbeeState) × (r : XbResponse) × (g' : Gateway) × (read_packet
        (send_frame 0x90 (arriving node.address64 7 1 publish_bytes) ++ 0x7e ∷ [])
        new_xbee
      ≡ some (y, 0x7e ∷ []))
    × (check_response y ≡ some (received r y))
    × (receive_response noon listening r ≡ some g')
    × HasArrived listening 0 node (message_of sn_type_publish publish_bytes) g'
unfolding get_client find_client same_address client_at
receive_response-Arrives_example =
    receive_response-Arrives noon listening 0 node node.address64 7 1 publish_bytes (0x7e ∷ [])
      new_xbee (omega arith) (omega arith) (omega arith) (ground arith) (omega arith) refl refl
      new_xbee-IsReady

-- A list with room for one more client.
abbrev roomy : Clients
roomy = record { nodes = node ∷ []; cnt = 1; authorized = false }

roomy-IsClients : IsClients roomy
roomy-IsClients = record { counted = refl; bounded = omega arith }

erase-create_node_example :
    erase (create_node roomy (record { msb = 1; lsb = 2 }) none).0 1 ≡ some roomy
erase-create_node_example =
    erase-create_node roomy (record { msb = 1; lsb = 2 }) none roomy-IsClients (omega arith) refl

abbrev moment : Moment
moment = record {
  now = noon;
  time_bytes = 0 ∷ 0 ∷ 0 ∷ 1 ∷ [];
  unspecified = record { topic_id = 0; client_id = []; string_word = 0; created_word = 0 };
  gw_id = 1;
}

-- The PUBLISH of the broker waits for the client.
abbrev informed : ClientNode
informed = record node { broker_recv_que = report ∷ [] }

abbrev descending : Gateway
descending = record listening {
  clients = record { nodes = informed ∷ []; cnt = 1; authorized = false };
  gateway_event_que = broker_recv 0 ∷ [];
}

send_to_radio-run_control_example :
    (g1 : Gateway) × (g2 : Gateway) × (out : Str) × (y : XbeeState) × (m : SnMessage) × (run_control
        moment descending
      ≡ some g1)
    × (send_to_radio g1 ≡ some (g2, out))
    × (g2.client_send_que ≡ [])
    × (read_packet (out ++ 0x7e ∷ []) new_xbee ≡ some (y, 0x7e ∷ []))
    × IsReceived 0x10 (frame_of informed m) y
    × IsDelivered report 257 m
unfolding get_topic_id get_topic find_name str_eq client_at new_gateway
send_to_radio-run_control_example =
    send_to_radio-run_control moment descending 0 informed report 257 [] (0x7e ∷ []) new_xbee refl
      refl refl refl refl refl (omega arith) refl (omega arith) (omega arith) (omega arith)
      (ground arith) (omega arith) new_xbee-IsReady

-- The PUBLISH of a client waits for the control task, and the client has a connection.
abbrev speaking : ClientNode
speaking = record node {
  client_recv_que = message_of sn_type_publish (publish_body 0x20 257 5 (42 ∷ 43 ∷ [])) ∷ [];
  socket = record { sock = 3; discon_req = false; sem = 0 };
}

abbrev ascending : Gateway
ascending = record listening {
  clients = record { nodes = speaking ∷ []; cnt = 1; authorized = false };
  gateway_event_que = client_recv 0 ∷ [];
}

abbrev sending : OsAnswers
sending = record {
  descriptor = 0;
  option_set = true;
  family_supported = true;
  connected = true;
  sent = true;
}

send_to_broker-run_control_example :
    (g1 : Gateway) × (g2 : Gateway) × (out : Str) × (read : MqttMessage) × (run_control moment
        ascending
      ≡ some g1)
    × (send_to_broker sending g1 ≡ some (g2, out))
    × IsSettled 0 [] g2
    × (deserialize_publish mqtt_publish (out ++ []) ≡ some (read, true))
    × (read.topic ≡ b't' ∷ [])
    × (read.payload ≡ 42 ∷ 43 ∷ [])
    × (read.message_id ≡ 5)
unfolding get_topic_by_id find_id client_at new_gateway
send_to_broker-run_control_example =
    send_to_broker-run_control moment sending ascending 0 speaking
      (record { topic_id = 257; topic_str = b't' ∷ [] }) 0x20 257 5 (42 ∷ 43 ∷ []) [] [] refl refl
      refl refl refl refl refl (omega arith) (omega arith) (omega arith) (omega arith)
      (record { unasked = refl; unposted = refl }) (omega arith) refl

-- A CONNECT with a client id of one byte.
abbrev greeting : MqttMessage
greeting = record mqtt_connect { client_id = b'c' ∷ []; connect_flags = 0x02 }

buffered-connect_example :
    (connect_length greeting ≤ 496 → (w : Written) × (buffered greeting ≡ some w))
    × (500 ≤ connect_length greeting → buffered greeting ≡ none)
unfolding connect_length
buffered-connect_example = buffered-connect greeting refl (omega arith)
