-- ===== src/Gateway/FromBroker/Stuck.antt =====
-- When the loop of recvAndFireEvent of TomyGateway/src/BrokerRecvTask.cpp comes to its end.
use mqtt_s_gateway.Base.{
  Str, ℕ, zero, suc, ◌-◌, ◌<◌, ◌≡◌, refl, ◌∙◌, Bool, true, false, some, List, ◌∷◌, arith, drop,
}
use mqtt_s_gateway.Bytes.{get_uint16}
use mqtt_s_gateway.Client.{ClientNode, set_broker_recv_message}
use mqtt_s_gateway.Event.{Event, broker_recv}
use mqtt_s_gateway.Gateway.{post}
use mqtt_s_gateway.Gateway.FromBroker.{
  create_message, packet_length, receive_packet, Outcome, done, fault, out_of_fuel, recv_loop,
}
use mqtt_s_gateway.Mqtt.{MqttMessage}
use mqtt_s_gateway.Mqtt.Deserialize.{deserialize_sub_ack}
use mqtt_s_gateway.RemainingLength

-- A round of the loop, by what stands at the packet.
pub recv_loop_next :
    (i fuel : ℕ) (packet : Str) (len : ℕ) (c : ClientNode) (que : List Event) (m : MqttMessage)
    (n : ℕ)
    → 0 < len
    → receive_packet packet ≡ some (some (m, n))
    → recv_loop i (suc fuel) packet len c que
      ≡ recv_loop i fuel
          (drop n packet)
          (len - n)
          (set_broker_recv_message c m)
          (post que (broker_recv i))
unfolding recv_loop
recv_loop_next i fuel packet zero c que m n lt e = absurd (omega arith)
recv_loop_next i fuel packet (suc len) c que m n lt e = ground arith

pub recv_loop_last :
    (i fuel : ℕ) (packet : Str) (c : ClientNode) (que : List Event)
    → recv_loop i (suc fuel) packet 0 c que ≡ done c que
unfolding recv_loop
recv_loop_last i fuel packet c que = refl

is_out : Outcome → Bool
is_out (done c que) = false
is_out fault = false
is_out out_of_fuel = true

-- A place before the end of what was received where a packet of length 0 stands.
pub record Stuck (packet : Str) (len : ℕ) : Type 0 where
  pub place : ℕ
  pub message : MqttMessage
  pub before_end : place < len
  pub no_length : receive_packet (drop place packet) ≡ some (some (message, 0))

-- The SUBACK packet 90 FC FF 03 counts as 65536 bytes, which is 0 in a uint16_t, and only the two bytes of
-- its `_remainLength` are printed: the loop never ends at it, if an id and a QoS follow it, whatever
-- they and the bytes behind them are, and however much fuel is given.
pub recv_loop_stuck :
    (i fuel high low qos : ℕ) (rest : Str) (len : ℕ) (c : ClientNode) (que : List Event)
    → 0 < len
    → recv_loop i fuel (0x90 ∷ 0xfc ∷ 0xff ∷ 0x03 ∷ high ∷ low ∷ qos ∷ rest) len c que ≡ out_of_fuel
unfolding recv_loop receive_packet create_message deserialize_sub_ack packet_length
    RemainingLength.deserialize RemainingLength.decode RemainingLength.encode get_uint16
recv_loop_stuck i zero high low qos rest len c que lt = refl
recv_loop_stuck i (suc fuel) high low qos rest len c que lt =
    recv_loop_next i fuel (0x90 ∷ 0xfc ∷ 0xff ∷ 0x03 ∷ high ∷ low ∷ qos ∷ rest) len c que _ 0 lt
      refl
    ∙ recv_loop_stuck i fuel high low qos rest (len - 0) _ _ (omega arith)
