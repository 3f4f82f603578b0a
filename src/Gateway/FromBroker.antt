-- ===== src/Gateway/FromBroker.antt =====
-- BrokerRecvTask of TomyGateway/src/BrokerRecvTask.cpp: the packets of the broker become messages
-- of the client node and events.
pub mod Wire
pub mod Packets
pub mod Stuck
use mqtt_s_gateway.Base.{
  Str, u16, ℕ, zero, suc, ◌+◌, ◌-◌, bit_and, Bool, true, false, ◌&&◌, Option, none, some, List, [],
  ◌∷◌, ◌++◌, ltb, ◌==◌, if◌then◌else◌, length, get_elem?, drop, replicate, ◌>>=◌, ◌*◌, leb,
}
use mqtt_s_gateway.Client.{disconnected, ClientNode, set_broker_recv_message, update_to}
use mqtt_s_gateway.Clients.{client_at}
use mqtt_s_gateway.Event.{Event, broker_recv}
use mqtt_s_gateway.Gateway.{Gateway, post, set_client}
use mqtt_s_gateway.Mqtt.{
  MqttMessage, mqtt_ping_resp, mqtt_conn_ack, mqtt_unsub_ack, mqtt_pub_ack, mqtt_sub_ack,
  mqtt_publish,
}
use mqtt_s_gateway.Mqtt.Deserialize.{
  deserialize_message, deserialize_conn_ack, deserialize_sub_ack, deserialize_publish,
}
use mqtt_s_gateway.Mqtt.Serialize.{serialize_publish}
use mqtt_s_gateway.Mqtt.Types.{
  mqtt_type_connack, mqtt_type_publish, mqtt_type_puback, mqtt_type_suback, mqtt_type_unsuback,
  mqtt_type_pingresp,
}
use mqtt_s_gateway.Socket.{is_valid}
use mqtt_s_gateway.RemainingLength
use mqtt_s_gateway.Socket

abbrev pub socket_maxbuffer_length : ℕ
socket_maxbuffer_length = 500

-- `_printBuf` of the task.
abbrev pub print_buf_size : ℕ
print_buf_size = 2500

-- `msgPrint(sbuff, m)`: three characters for the first byte and for each byte of the remaining length,
-- and the final 0, go to `_printBuf`; a write past its end faults.
abbrev pub printed : MqttMessage → Option (Option MqttMessage)
printed m = if leb (3 * m.remain_length + 4) print_buf_size then some (some m) else none

-- The message that `deserialize` makes, whatever truth value it returns.
abbrev pub parsed : Option (MqttMessage × Bool) → Option (Option MqttMessage)
parsed none = none
parsed (some (m, good)) = printed m

-- `deserialize` and `serialize` of a PUBLISH: the second one sets `_remainLength`. The bytes that the
-- `serialize` functions write are only printed; the other ones leave the message as it is.
unfoldable pub parsed_publish : Str → Option (Option MqttMessage)
parsed_publish packet = do
  read ← deserialize_publish mqtt_publish packet
  written ← serialize_publish read.0
  printed written.0

-- The chain of tests on the first byte: a fault, an unknown type (`some none`), or the message.
unfoldable pub create_message : Str → Option (Option MqttMessage)
unfolding parsed_publish
create_message packet = do
  first ← get_elem? packet 0
  let kind = bit_and first 0xf0
  if kind == mqtt_type_puback
      then parsed (deserialize_message mqtt_pub_ack packet)
      else if kind == mqtt_type_publish
      then parsed_publish packet
      else if kind == mqtt_type_suback
      then parsed (deserialize_sub_ack mqtt_sub_ack packet)
      else if kind == mqtt_type_pingresp
      then parsed (deserialize_message mqtt_ping_resp packet)
      else if kind == mqtt_type_unsuback
      then parsed (deserialize_message mqtt_unsub_ack packet)
      else if kind == mqtt_type_connack
      then parsed (deserialize_conn_ack mqtt_conn_ack packet)
      else some none

-- `packetLength`, a uint16_t.
unfoldable pub packet_length : Str → Option ℕ
packet_length packet = do
  rl ← RemainingLength.deserialize RemainingLength.blank (drop 1 packet)
  n ← RemainingLength.decode rl
  some (u16 (1 + rl.size + n))

-- The message with the length of its packet, which is read after the message.
abbrev pub with_length : Option (Option MqttMessage) → Option ℕ → Option (Option (MqttMessage × ℕ))
with_length none n = none
with_length (some none) n = some none
with_length (some (some m)) none = none
with_length (some (some m)) (some n) = some (some (m, n))

-- One packet: the message and the length, or `some none` for an unknown type.
unfoldable pub receive_packet : Str → Option (Option (MqttMessage × ℕ))
unfolding create_message packet_length
receive_packet packet = with_length (create_message packet) (packet_length packet)

-- How the loop ends: with a client node and the queue of events, in an access out of bounds, or not
-- within the fuel.
pub data Outcome : Type 0 where
  done : ClientNode → List Event → Outcome
  fault : Outcome
  out_of_fuel : Outcome

-- The while loop of recvAndFireEvent for the client of number `i`; one unit of fuel is one test of
-- `recvLength > 0`. A negative recvLength ends the loop as 0 does.
unfoldable pub recv_loop : ℕ → ℕ → Str → ℕ → ClientNode → List Event → Outcome
unfolding receive_packet set_broker_recv_message
recv_loop i zero packet recv_length c que = out_of_fuel
recv_loop i (suc fuel) packet recv_length c que = elim (ltb 0 recv_length) [
  | false ↦ done c que
  | true ↦ elim (receive_packet packet) [
    | none ↦ fault
    | some none ↦ done c que
    | some (some (m, n)) ↦
        recv_loop i fuel (drop n packet) (recv_length - n) (set_broker_recv_message c m)
          (post que (broker_recv i))
  ]
]

-- The buffer that `recv` filled: what it got, in the zeroed block.
abbrev pub filled : Str → Str
filled bytes = bytes ++ replicate (socket_maxbuffer_length - length bytes) 0

-- recvAndFireEvent, for what `recv` gives: at most 500 bytes, or `none` for -1, after which the loop is
-- not entered.
unfoldable pub recv_and_fire_event : ℕ → Option Str → ClientNode → List Event → Outcome
unfolding recv_loop
recv_and_fire_event i received c que = elim received [
  | none ↦ done (update_to c disconnected) que
  | some bytes ↦ recv_loop i (suc (length bytes)) (filled bytes) (length bytes) c que
]

-- The first loop of `run`: isValid of each socket, which carries out the requested disconnects.
unfoldable pub prepare : List ClientNode → List ClientNode
unfolding is_valid
prepare [] = []
prepare (c ∷ cs) = record c { socket = (is_valid c.socket).1 } ∷ prepare cs

-- The second loop at one client: `ready` is its bit in `readfds`, and `received` what `recv` gives.
unfoldable pub receive_from_broker : Gateway → ℕ → Bool → Option Str → Option Gateway
unfolding client_at is_valid set_client recv_and_fire_event
receive_from_broker g i ready received = do
  c ← client_at g.clients.nodes i
  let valid = is_valid c.socket
  let tested = record c { socket = valid.1 }
  let fired = recv_and_fire_event i received tested g.gateway_event_que
  if valid.0 && ready
      then (elim fired [
        | done c' que ↦ some (record (set_client g i c') { gateway_event_que = que })
        | fault ↦ none
        | out_of_fuel ↦ none
      ])
      else some (set_client g i tested)

-- The first loop on the gateway.
unfoldable pub poll : Gateway → Gateway
unfolding prepare
poll g = record g { clients = record (g.clients) { nodes = prepare g.clients.nodes } }
