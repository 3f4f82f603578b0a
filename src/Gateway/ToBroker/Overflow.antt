-- ===== src/Gateway/ToBroker/Overflow.antt =====
-- The buffer of TomyGateway/src/BrokerSendTask.cpp and the length of a CONNECT, which serialize of
-- TomyGateway/src/libmq/Messages.cpp does not compare.
use mqtt_s_gateway.Base.{
  u16, ℕ, ◌+◌, ◌≤◌, ◌<◌, ◌≡◌, refl, true, false, none, some, arith, leb, length, length-append,
  ◌>>=◌, bit_or, ◌∷◌, ◌++◌,
}
use mqtt_s_gateway.Gateway.ToBroker.{serialize_for_broker, buffered}
use mqtt_s_gateway.Mqtt.{MqttMessage}
use mqtt_s_gateway.Mqtt.Lengths.{length-connect_body}
use mqtt_s_gateway.Mqtt.RoundTrip.{length-encoding, size-encoding, with_header_lem}
use mqtt_s_gateway.Mqtt.Serialize.{Written, connect_body, connect_length, serialize_connect}
use mqtt_s_gateway.Mqtt.Types.{mqtt_type_connect}
use mqtt_s_gateway.RemainingLength.RoundTrip.{encoding}
use mqtt_s_gateway.RemainingLength

serializes_connect :
    (m : MqttMessage) → m.type ≡ mqtt_type_connect → serialize_for_broker m ≡ serialize_connect m
unfolding serialize_for_broker
serializes_connect m is = rw is refl

length-serialize_connect :
    (m : MqttMessage)
    → connect_length m < 65532
    → (w : Written) × (serialize_connect m ≡ some w)
      × (length w.1 ≡ 1 + (encoding (connect_length m)).size + connect_length m)
unfolding serialize_connect
length-serialize_connect m h =
    let n : ℕ = connect_length m in
    let whole : u16 n ≡ n = omega (arith, h) in
    let first : ℕ = bit_or m.type m.flags in
    (
      (
        record m { remain_length = n },
        first ∷ (RemainingLength.serialize (encoding n) ++ connect_body m),
        u16 (1 + (encoding n).size + n),
      ),
      rw whole (
          with_header_lem (record m { remain_length = n }) first (connect_body m)
            (omega (arith, h))),
      omega (
        arith,
        length-append (RemainingLength.serialize (encoding n)) (connect_body m),
        length-encoding n,
        length-connect_body m,
      ),
    )

-- A CONNECT whose variable header and texts have at most 496 bytes fits the buffer of the task, and
-- one of 500 bytes or more (up to the limit of the remaining length) is written past the end of the
-- buffer.
pub buffered-connect :
    (m : MqttMessage)
    → m.type ≡ mqtt_type_connect
    → connect_length m < 65532
    → (connect_length m ≤ 496 → (w : Written) × (buffered m ≡ some w))
      × (500 ≤ connect_length m → buffered m ≡ none)
unfolding buffered
buffered-connect m is h =
    let (w, writes, len) = length-serialize_connect m h in
    let (low, high) = size-encoding (connect_length m) in
    (
      λ short.
          let fits : leb (length w.1) 500 ≡ true = ground (arith, len, high, short) in
          (w, rw (serializes_connect m is, writes, ◌>>=◌, fits) refl),
      λ long.
          let over : leb (length w.1) 500 ≡ false = ground (arith, len, low, long) in
          rw (serializes_connect m is, writes, ◌>>=◌, over) refl,
    )
