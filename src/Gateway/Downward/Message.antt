-- ===== src/Gateway/Downward/Message.antt =====
-- The message that handlePublish of TomyGateway/src/GatewayControlTask.cpp makes for a client: its flags and
-- its block.
use mqtt_s_gateway.Base.{
  Str, IsByte, ℕ, ◌+◌, ◌/◌, ◌%◌, ◌≤◌, bit_and, bit_or, ◌≡◌, refl, Bool, true, false, some, [], ◌∷◌,
  ◌++◌, arith, ◌==◌, if◌then◌else◌, length, set, ◌>>=◌,
}
use mqtt_s_gateway.Bytes.{set_uint16}
use mqtt_s_gateway.Control.Downstream.{publish_for_client}
use mqtt_s_gateway.Mqtt.{MqttMessage, get_qos, is_dup, is_retain}
use mqtt_s_gateway.Sn.{sn_message, write_block, put}
use mqtt_s_gateway.Sn.Builders.Absorbing.{put_over, publish_body, publish_data_lem, written_publish}
use mqtt_s_gateway.Sn.Builders.Blocks.{message_of}
use mqtt_s_gateway.Sn.Replies.{
  publish_flags, set_publish_qos, set_publish_dup, publish_topic_id, publish_msg_id,
}
use mqtt_s_gateway.Sn.Requests.{SnPublish, sn_publish}
use mqtt_s_gateway.Sn.Types.{sn_type_publish, sn_flag_qos_1, sn_topic_type_normal}

-- A PUBLISH of the gateway.
abbrev pub gateway_publish : ℕ → ℕ → ℕ → Str → SnPublish
gateway_publish flags topic_id msg_id bytes =
    written_publish sn_type_publish flags topic_id msg_id bytes

abbrev keep : ℕ → ℕ
keep flags = bit_and flags 0xf3

publish_flags_lem :
    (old new topic_id msg_id : ℕ) (bytes : Str)
    → publish_flags (gateway_publish old topic_id msg_id bytes) new
      ≡ some (gateway_publish (keep new) topic_id msg_id bytes)
unfolding publish_flags
publish_flags_lem old new topic_id msg_id bytes =
    let body : Str = publish_body old topic_id msg_id bytes in
    let rest : Str = set_uint16 topic_id ++ (set_uint16 msg_id ++ bytes) in
    rw
      (
        put_over (message_of sn_type_publish body) ((length body + 2) ∷ sn_type_publish ∷ [])
            (old ∷ []) (keep new ∷ []) rest 0 refl refl refl,
        ◌>>=◌,
      )
      refl

-- The flags that handlePublish gives to the message.
abbrev with_qos : Bool → ℕ → ℕ
with_qos one flags =
    let cleared = bit_and flags 0x9f in keep (if one then bit_or cleared sn_flag_qos_1 else cleared)

abbrev with_dup : Bool → ℕ → ℕ
with_dup set flags = if set then keep (bit_or flags 0x80) else flags

abbrev client_flags : Bool → Bool → Bool → ℕ
client_flags one dup retain =
    with_dup retain (with_dup dup (with_qos one (keep sn_topic_type_normal)))

pub client_flags-qos :
    (one dup retain : Bool) → client_flags one dup retain / 32 % 4 ≡ (if one then 1 else 0)
client_flags-qos true true true = refl
client_flags-qos true true false = refl
client_flags-qos true false true = refl
client_flags-qos true false false = refl
client_flags-qos false true true = refl
client_flags-qos false true false = refl
client_flags-qos false false true = refl
client_flags-qos false false false = refl

pub client_flags-IsByte : (one dup retain : Bool) → IsByte (client_flags one dup retain)
client_flags-IsByte true true true = omega arith
client_flags-IsByte true true false = omega arith
client_flags-IsByte true false true = omega arith
client_flags-IsByte true false false = omega arith
client_flags-IsByte false true true = omega arith
client_flags-IsByte false true false = omega arith
client_flags-IsByte false false true = omega arith
client_flags-IsByte false false false = omega arith

dup_step :
    (set : Bool) (flags topic_id msg_id : ℕ) (bytes : Str)
    → (if set
        then set_publish_dup (gateway_publish flags topic_id msg_id bytes)
        else some (gateway_publish flags topic_id msg_id bytes))
      ≡ some (gateway_publish (with_dup set flags) topic_id msg_id bytes)
unfolding set_publish_dup
dup_step true flags topic_id msg_id bytes =
    publish_flags_lem flags (bit_or flags 0x80) topic_id msg_id bytes
dup_step false flags topic_id msg_id bytes = refl

abbrev pub flags_for : MqttMessage → ℕ
flags_for mq = client_flags (get_qos mq == 1) (is_dup mq) (is_retain mq)

-- The new PUBLISH before its data is set.
first_flags : publish_flags sn_publish sn_topic_type_normal ≡ some (gateway_publish 0 0 0 [])
unfolding publish_flags sn_publish sn_message put write_block set_uint16
first_flags = refl

first_topic_id :
    (id : ℕ) → publish_topic_id (gateway_publish 0 0 0 []) id ≡ some (gateway_publish 0 id 0 [])
unfolding publish_topic_id put write_block set_uint16
first_topic_id id = refl

first_msg_id :
    (id msg : ℕ)
    → publish_msg_id (gateway_publish 0 id 0 []) msg ≡ some (gateway_publish 0 id msg [])
unfolding publish_msg_id put write_block set_uint16
first_msg_id id msg = refl

pub publish_for_client_lem :
    (mq : MqttMessage) (id : ℕ)
    → length mq.payload ≤ 248
    → publish_for_client mq sn_topic_type_normal id
      ≡ some (gateway_publish (flags_for mq) id mq.message_id mq.payload)
unfolding publish_for_client set_publish_qos
publish_for_client_lem mq id fits =
    let msg : ℕ = mq.message_id in
    let bytes : Str = mq.payload in
    let one : Bool = get_qos mq == 1 in
    let start : ℕ = keep sn_topic_type_normal in
    rw
      (
        first_flags,
        ◌>>=◌,
        first_topic_id id,
        ◌>>=◌,
        first_msg_id id msg,
        ◌>>=◌,
        publish_data_lem (gateway_publish 0 id msg []) bytes fits,
        ◌>>=◌,
      )
      (rw
        (
          publish_flags_lem start
              (if one then bit_or (bit_and start 0x9f) sn_flag_qos_1 else bit_and start 0x9f) id msg
              bytes,
          ◌>>=◌,
          dup_step (is_dup mq) (with_qos one start) id msg bytes,
          ◌>>=◌,
        )
        (dup_step (is_retain mq) (with_dup (is_dup mq) (with_qos one start)) id msg bytes))
