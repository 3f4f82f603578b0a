-- ===== src/Gateway/FromBroker/Wire.antt =====
-- A packet as the broker writes it, and what one round of recvAndFireEvent of
-- TomyGateway/src/BrokerRecvTask.cpp makes of it.
use mqtt_s_gateway.Base.{
  Str, IsU16, ℕ, ◌+◌, ◌≤◌, ◌<◌, ◌≡◌, refl, ap, Option, some, List, [], ◌∷◌, ◌++◌, append_assoc,
  arith, length, length-append, ◌>>=◌, sym, subst, ◌∙◌, some-injective, ◌*◌, true, leb,
}
use mqtt_s_gateway.Bytes.{get_uint16, set_uint16}
use mqtt_s_gateway.Gateway.FromBroker.{
  parsed_publish, create_message, packet_length, receive_packet, print_buf_size,
}
use mqtt_s_gateway.Mqtt.{MqttMessage, set_message_id, mqtt_pub_ack}
use mqtt_s_gateway.Mqtt.Deserialize.{deserialize_message}
use mqtt_s_gateway.Mqtt.Lengths.{length-utf_serialize, length-set_uint16}
use mqtt_s_gateway.Mqtt.RoundTrip.{
  length-encoding, IsPublish, body_of, first_high, publish_length, serialize_publish_lem, read_back,
  header_read,
}
use mqtt_s_gateway.Mqtt.Serialize.{serialize_message, serialize_publish}
use mqtt_s_gateway.RemainingLength.RoundTrip.{encoding, decode-encoding, deserialize-encoding}
use mqtt_s_gateway.RemainingLength

-- A packet as the broker means it, in the fields of the gateway's own messages.
pub data Packet : Type 0 where
  publish : MqttMessage → Packet
  puback : ℕ → Packet

abbrev pub IsPacket : Packet → Type 0
IsPacket (publish m) = IsPublish m
IsPacket (puback id) = IsU16 id

-- The bytes of the packets, one behind the other.
unfoldable pub wire : Packet → Option Str
unfolding serialize_publish serialize_message
wire (publish m) = serialize_publish m >>= λ w. some (w.1)
wire (puback id) = serialize_message (set_message_id mqtt_pub_ack id) >>= λ w. some (w.1)

unfoldable pub wires : List Packet → Option Str
unfolding wire
wires [] = some []
wires (p ∷ ps) = do bytes ← wire p; others ← wires ps; some (bytes ++ others)

-- The message that the client node gets.
unfoldable pub message_of : Packet → MqttMessage
message_of (publish m) = read_back m
message_of (puback id) = set_message_id mqtt_pub_ack id

-- What one round reads, whatever bytes follow.
abbrev pub IsRead : Packet → Str → Type 0
IsRead p bytes =
    (0 < length bytes)
    × ((rest : Str) → receive_packet (bytes ++ rest) ≡ some (some (message_of p, length bytes)))

abbrev publish_bytes : MqttMessage → Str
publish_bytes m =
    (0x30 + m.flags) ∷ (RemainingLength.serialize (encoding (publish_length m)) ++ body_of m)

wire_publish : (m : MqttMessage) → IsPublish m → wire (publish m) ≡ some (publish_bytes m)
unfolding wire
wire_publish m h = rw (serialize_publish_lem m h) refl

length-publish_bytes :
    (m : MqttMessage)
    → IsPublish m
    → length (publish_bytes m) ≡ 1 + (encoding (publish_length m)).size + publish_length m
length-publish_bytes m h =
    simp (length-append, length-utf_serialize, length-set_uint16, length-encoding)
      (omega (arith, h.payload_len))

read_back-IsPublish : (m : MqttMessage) → IsPublish m → IsPublish (read_back m)
read_back-IsPublish m h = record {
  of_type = refl;
  flags_low = h.flags_low;
  id_range = h.id_range;
  payload_len = h.payload_len;
  short_payload = h.short_payload;
  fits = h.fits;
}

publish_shape :
    (m : MqttMessage) (rest : Str)
    → publish_bytes m ++ rest
      ≡ (0x30 + m.flags)
        ∷ (RemainingLength.serialize (encoding (publish_length m)) ++ (body_of m ++ rest))
publish_shape m rest =
    ap (◌∷◌ (0x30 + m.flags))
      (append_assoc (RemainingLength.serialize (encoding (publish_length m))) (body_of m) rest)

-- What is printed of the packet stays within the print buffer.
print_fits :
    (m : MqttMessage)
    → IsPublish m
    → length (publish_bytes m) ≤ 500
    → leb (3 * publish_length (read_back m) + 4) print_buf_size ≡ true
print_fits m h short = let counted = length-publish_bytes m h in ground (arith, counted, short)

create_publish :
    (m : MqttMessage) (rest : Str)
    → IsPublish m
    → length (publish_bytes m) ≤ 500
    → create_message (publish_bytes m ++ rest) ≡ some (some (read_back m))
unfolding create_message parsed_publish
create_publish m rest h short =
    rw
      (
        publish_shape m rest,
        first_high m.flags h.flags_low,
        header_read m rest h,
        ◌>>=◌,
        serialize_publish_lem (read_back m) (read_back-IsPublish m h),
        ◌>>=◌,
        print_fits m h short,
      )
      refl

length_publish :
    (m : MqttMessage) (rest : Str)
    → IsPublish m
    → length (publish_bytes m) ≤ 500
    → packet_length (publish_bytes m ++ rest) ≡ some (length (publish_bytes m))
unfolding packet_length
length_publish m rest h short =
    let n = publish_length m in
    let counted = length-publish_bytes m h in
    rw
      (
        publish_shape m rest,
        deserialize-encoding n (body_of m ++ rest) h.fits,
        ◌>>=◌,
        decode-encoding n h.fits,
        ◌>>=◌,
      )
      (ap some (omega (arith, counted)))

publish-IsRead :
    (m : MqttMessage)
    → IsPublish m
    → length (publish_bytes m) ≤ 500
    → IsRead (publish m) (publish_bytes m)
unfolding receive_packet message_of
publish-IsRead m h short = (
  omega (arith, length-publish_bytes m h),
  λ rest. rw (create_publish m rest h short, length_publish m rest h short) refl,
)

puback-IsRead :
    (id : ℕ) → IsU16 id → (bytes : Str) × (wire (puback id) ≡ some bytes) × IsRead (puback id) bytes
unfolding receive_packet message_of wire serialize_message create_message deserialize_message
    packet_length RemainingLength.encode RemainingLength.decode RemainingLength.serialize
    RemainingLength.deserialize set_uint16 get_uint16
puback-IsRead id h = (_, refl, (omega arith, λ rest. ground arith))

-- What a packet that fits the buffer is on the wire.
pub packet-IsRead :
    (p : Packet) (bytes : Str)
    → IsPacket p
    → wire p ≡ some bytes
    → length bytes ≤ 500
    → IsRead p bytes
packet-IsRead (publish m) bytes h e short =
    let same : publish_bytes m ≡ bytes = some-injective (sym (wire_publish m h) ∙ e) in
    subst (λ b. length b ≤ 500 → IsRead (publish m) b) same (publish-IsRead m h) short
packet-IsRead (puback id) bytes h e short =
    let (b, written, read) = puback-IsRead id h in
    subst (λ x. IsRead (puback id) x) (some-injective (sym written ∙ e)) read
