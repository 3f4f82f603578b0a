-- ===== src/Gateway/Passage.antt =====
-- The way of a client's PUBLISH to the broker: from handleSnPublish of
-- TomyGateway/src/GatewayControlTask.cpp to the bytes of TomyGateway/src/BrokerSendTask.cpp.
use mqtt_s_gateway.Base.{
  Str, IsU16, ◌≤◌, ◌<◌, ◌≡◌, sym, ap, subst, some, arith, leb, length, drop, ℕ, refl, ◌∙◌, true, [],
  ◌∷◌, ◌++◌, length-take_le, ◌>>=◌, Each, fails, gives, Each-chain, Each-if, from_each, ◌==◌,
  eq→eqb, some-injective, ◌+◌,
}
use mqtt_s_gateway.Client.{own, set_broker_send_message}
use mqtt_s_gateway.Control.Context.{Desk, send_broker, printed, Each-printed}
use mqtt_s_gateway.Control.Forwarding.{marked_topic, marked_type, marked_id, await-Waits}
use mqtt_s_gateway.Control.Upstream.{publish_for_broker, forward_publish, handle_sn_publish}
use mqtt_s_gateway.Gateway.ToBroker.{serialize_for_broker, buffered}
use mqtt_s_gateway.Mqtt.{set_qos, set_dup, set_retain, set_payload, MqttMessage, mqtt_publish}
use mqtt_s_gateway.Mqtt.Deserialize.{read_block, deserialize_publish}
use mqtt_s_gateway.Mqtt.RoundTrip.{
  IsPublish, read_back, deserialize_publish-serialize_publish, length-serialize_publish,
}
use mqtt_s_gateway.Mqtt.Serialize.{Written, serialize_publish}
use mqtt_s_gateway.Mqtt.Types.{mqtt_type_publish}
use mqtt_s_gateway.Sn.{SnMessage}
use mqtt_s_gateway.Sn.Requests.{SnPublish, data_length, data_bytes, sn_publish, absorb_publish}
use mqtt_s_gateway.Topics.{Topic, get_topic_by_id}

read_block-short : (n : ℕ) (buf : Str) → Each (λ out. length out ≤ n) (read_block n buf)
unfolding read_block
read_block-short n buf = Each-if (leb n (length buf)) (gives (length-take_le n buf)) fails

data-short : (p : SnPublish) (bytes : Str) → data_bytes p ≡ some bytes → length bytes < 256
unfolding data_bytes data_length
data-short p bytes e =
    let short = from_each (read_block-short (data_length p) (drop 7 p.base.message)) e in
    omega (arith, short)

marked_flags : (p : SnPublish) (name : Str) → (publish_for_broker p name).flags < 16
unfolding publish_for_broker set_dup set_retain set_qos
marked_flags p name = ground arith

forwarded-IsPublish :
    (p : SnPublish) (name bytes : Str)
    → data_bytes p ≡ some bytes
    → IsU16 p.msg_id
    → length name ≤ 60000
    → IsPublish (set_payload (publish_for_broker p name) bytes)
unfolding set_payload
forwarded-IsPublish p name bytes reads id fits =
    let short = data-short p bytes reads in
    record {
      of_type = marked_type p name bytes;
      flags_low = marked_flags p name;
      id_range = subst IsU16 (sym (marked_id p name bytes)) id;
      payload_len = omega (arith, short);
      short_payload = omega arith;
      fits = omega (arith, ap length (marked_topic p name bytes), fits, short);
    }

-- A message that BrokerSendTask writes and a reader of MQTT reads as this PUBLISH.
pub record IsReadAs (m : MqttMessage) (name bytes : Str) (id : ℕ) (rest : Str) : Type 0 where
  pub written : Written
  pub read : MqttMessage
  pub writes : buffered m ≡ some written
  pub counted : written.2 ≡ length written.1
  pub some_bytes : 0 < written.2
  pub reads : deserialize_publish mqtt_publish (written.1 ++ rest) ≡ some (read, true)
  pub named : read.topic ≡ name
  pub carries : read.payload ≡ bytes
  pub numbered : read.message_id ≡ id

serializes_publish :
    (m : MqttMessage) → m.type ≡ mqtt_type_publish → serialize_for_broker m ≡ serialize_publish m
unfolding serialize_for_broker
serializes_publish m is =
    let test : (m.type == mqtt_type_publish) ≡ true = eq→eqb m.type mqtt_type_publish is in
    rw test refl

buffers_publish :
    (m : MqttMessage) (w : Written)
    → m.type ≡ mqtt_type_publish
    → serialize_publish m ≡ some w
    → length w.1 ≤ 498
    → buffered m ≡ some w
unfolding buffered
buffers_publish m w is writes short =
    let fits : leb (length w.1) 500 ≡ true = ground (arith, short) in
    rw (serializes_publish m is ∙ writes, ◌>>=◌, fits) refl

pub forwarded-IsReadAs :
    (p : SnPublish) (name bytes rest : Str)
    → data_bytes p ≡ some bytes
    → IsU16 p.msg_id
    → length name + length bytes ≤ 490
    → IsReadAs (set_payload (publish_for_broker p name) bytes) name bytes p.msg_id rest
unfolding set_payload
forwarded-IsReadAs p name bytes rest reads id fits =
    let m = set_payload (publish_for_broker p name) bytes in
    let is = forwarded-IsPublish p name bytes reads id (omega (arith, fits)) in
    let (v, wrote, back) = deserialize_publish-serialize_publish m rest is in
    let (w, writes, counted, some_bytes, short) =
      length-serialize_publish m is
        (omega (arith, ap length (marked_topic p name bytes), fits, is.payload_len)) in
    let same : v ≡ w = some-injective (sym wrote ∙ writes) in
    record {
      written = w;
      read = read_back m;
      writes = buffers_publish m w (marked_type p name bytes) writes short;
      counted = counted;
      some_bytes = some_bytes;
      reads =
          subst (λ u. deserialize_publish mqtt_publish (u.1 ++ rest) ≡ some (read_back m, true))
            same back;
      named = marked_topic p name bytes;
      carries = refl;
      numbered = marked_id p name bytes;
    }

-- What the desk has for the broker behind the PUBLISH.
abbrev pub Passes : Desk → Str → Str → ℕ → Str → Desk → Type 0
Passes d name bytes id rest d' =
    (m : MqttMessage) × (d'.node.broker_send_que ≡ d.node.broker_send_que ++ own m ∷ [])
    × IsReadAs m name bytes id rest

forward-Passes :
    (d : Desk) (p : SnPublish) (name bytes rest : Str)
    → data_bytes p ≡ some bytes
    → IsU16 p.msg_id
    → length name + length bytes ≤ 490
    → Each (Passes d name bytes p.msg_id rest) (forward_publish d p name)
unfolding forward_publish send_broker set_broker_send_message
forward-Passes d p name bytes rest reads id fits = Each-chain _ (await-Waits d p) (λ d1 w.
    rw (reads, ◌>>=◌)
      (gives (
        set_payload (publish_for_broker p name) bytes,
        ap (λ q. q ++ own (set_payload (publish_for_broker p name) bytes) ∷ []) w.broker_que,
        forwarded-IsReadAs p name bytes rest reads id fits,
      )))

-- A PUBLISH of a client with a known topic id, a message id of 16 bits and a name that has with the
-- data at most 490 bytes leaves handleSnPublish, unless that faults, as a message at the end of the
-- queue to the broker, and a reader of MQTT gets from the bytes that BrokerSendTask makes of it the
-- topic's name, the data and the message id of the client's PUBLISH, whatever bytes follow.
pub handle_sn_publish-Passes :
    (d d' : Desk) (msg : SnMessage) (p : SnPublish) (tp : Topic) (bytes rest : Str)
    → absorb_publish sn_publish msg ≡ some p
    → get_topic_by_id d.node.topics p.topic_id ≡ some tp
    → data_bytes p ≡ some bytes
    → IsU16 p.msg_id
    → length tp.topic_str + length bytes ≤ 490
    → handle_sn_publish d msg ≡ some d'
    → Passes d tp.topic_str bytes p.msg_id rest d'
unfolding handle_sn_publish
handle_sn_publish-Passes d d' msg p tp bytes rest takes knows reads id fits e =
    let forwards : handle_sn_publish d msg ≡ printed msg (forward_publish d p tp.topic_str) =
      rw (takes, ◌>>=◌) (rw knows refl) in
    from_each (Each-printed msg (forward-Passes d p tp.topic_str bytes rest reads id fits))
      (sym forwards ∙ e)
