-- ===== src/Gateway/FromBroker/Packets.antt =====
-- The packets of the broker that arrive together become messages and events in their order
-- (recvAndFireEvent of TomyGateway/src/BrokerRecvTask.cpp).
use mqtt_s_gateway.Base.{
  Str, ℕ, ◌+◌, ◌≤◌, ◌<◌, ◌≡◌, refl, ap, some, List, [], ◌∷◌, ◌++◌, append_assoc, arith, length,
  length-append, sym, subst, ◌∙◌, map, replicate, All, zero, suc, ◌-◌, append-nil, drop-append,
  some-injective, chained,
}
use mqtt_s_gateway.Client.{ClientNode, set_broker_recv_message}
use mqtt_s_gateway.Event.{Event, broker_recv}
use mqtt_s_gateway.Gateway.{post}
use mqtt_s_gateway.Gateway.FromBroker.{done, recv_loop, recv_and_fire_event}
use mqtt_s_gateway.Gateway.FromBroker.Stuck.{recv_loop_next, recv_loop_last}
use mqtt_s_gateway.Gateway.FromBroker.Wire.{
  Packet, IsPacket, wire, wires, message_of, IsRead, packet-IsRead,
}

-- The client node and the queue of events behind the packets.
abbrev pub received : ClientNode → List Packet → ClientNode
received c ps = record c { broker_recv_que = c.broker_recv_que ++ map message_of ps }

wires_split :
    (p : Packet) (ps : List Packet) (bytes : Str)
    → wires (p ∷ ps) ≡ some bytes
    → (b : Str) × (bs : Str) × (wire p ≡ some b) × (wires ps ≡ some bs) × (bytes ≡ b ++ bs)
unfolding wires
wires_split p ps bytes e = chained (wire p) (wires ps) ◌++◌ bytes e

received_next :
    (i : ℕ) (p : Packet) (ps : List Packet) (c : ClientNode) (que : List Event)
    → done
        (received (set_broker_recv_message c (message_of p)) ps)
        (post que (broker_recv i) ++ replicate (length ps) (broker_recv i))
      ≡ done (received c (p ∷ ps)) (que ++ replicate (length (p ∷ ps)) (broker_recv i))
unfolding set_broker_recv_message
received_next i p ps c que =
    rw
      (
        append_assoc c.broker_recv_que (message_of p ∷ []) (map message_of ps),
        append_assoc que (broker_recv i ∷ []) (replicate (length ps) (broker_recv i)),
      )
      refl

-- The loop at the first packet.
at_packet :
    (i fuel : ℕ) (p : Packet) (b bs rest : Str) (c : ClientNode) (que : List Event)
    → IsRead p b
    → recv_loop i (suc fuel) ((b ++ bs) ++ rest) (length (b ++ bs)) c que
      ≡ recv_loop i fuel
          (bs ++ rest)
          (length bs)
          (set_broker_recv_message c (message_of p))
          (post que (broker_recv i))
at_packet i fuel p b bs rest c que (some_bytes, read) =
    let len : length (b ++ bs) ≡ length b + length bs = length-append b bs in
    let left : length (b ++ bs) - length b ≡ length bs = omega arith in
    rw (append_assoc b bs rest) (
      recv_loop_next i fuel (b ++ (bs ++ rest)) (length (b ++ bs)) c que (message_of p) (length b)
        (omega arith) (read (bs ++ rest))
      ∙ rw (drop-append b (bs ++ rest), left) refl)

recv_loop_packets :
    (i fuel : ℕ) (ps : List Packet) (bytes rest : Str) (c : ClientNode) (que : List Event)
    → All IsPacket ps
    → wires ps ≡ some bytes
    → length bytes ≤ 500
    → length bytes < fuel
    → recv_loop i fuel (bytes ++ rest) (length bytes) c que
      ≡ done (received c ps) (que ++ replicate (length ps) (broker_recv i))
unfolding wires
recv_loop_packets i zero ps bytes rest c que h e short lt = absurd (omega arith)
recv_loop_packets i (suc fuel) [] bytes rest c que h e short lt =
    subst
      (λ b. recv_loop i (suc fuel) (b ++ rest) (length b) c que ≡ done (received c []) (que ++ []))
      (some-injective e)
      (recv_loop_last i fuel rest c que
        ∙ sym (rw (append-nil c.broker_recv_que, append-nil que) refl))
recv_loop_packets i (suc fuel) (p ∷ ps) bytes rest c que h e short lt =
    let (b, bs, first, others, same) = wires_split p ps bytes e in
    let counted : length bytes ≡ length b + length bs = ap length same ∙ length-append b bs in
    let read = packet-IsRead p b h.0 first (omega arith) in
    let pos = read.0 in
    subst
      (λ x.
        recv_loop i (suc fuel) (x ++ rest) (length x) c que
        ≡ done (received c (p ∷ ps)) (que ++ replicate (length (p ∷ ps)) (broker_recv i)))
      (sym same)
      (at_packet i fuel p b bs rest c que read
        ∙ recv_loop_packets i fuel ps bs rest _ _ h.1 others (omega arith) (omega arith)
        ∙ received_next i p ps c que)

-- If recvAndFireEvent receives, in at most 500 bytes, any PUBLISH and PUBACK packets one behind the
-- other, with fields in range and as the serializers write them, the loop ends, the client node's
-- queue grows by exactly their messages in their order, and the queue of events by one event for
-- each of them.
pub recv_and_fire_event-packets :
    (i : ℕ) (ps : List Packet) (bytes : Str) (c : ClientNode) (que : List Event)
    → All IsPacket ps
    → wires ps ≡ some bytes
    → length bytes ≤ 500
    → recv_and_fire_event i (some bytes) c que
      ≡ done (received c ps) (que ++ replicate (length ps) (broker_recv i))
unfolding recv_and_fire_event
recv_and_fire_event-packets i ps bytes c que h e short =
    recv_loop_packets i (suc (length bytes)) ps bytes _ c que h e short (omega arith)
