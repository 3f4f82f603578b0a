-- ===== src/Gateway/Downward.antt =====
-- The way of a PUBLISH of the broker to a client: from handlePublish of
-- TomyGateway/src/GatewayControlTask.cpp to the message that ClientSendTask gives to the radio.
mod Message
use mqtt_s_gateway.Base.{
  Str, IsByte, ℕ, ◌+◌, ◌≤◌, ◌≡◌, refl, true, some, [], ◌∷◌, ◌++◌, arith, ◌==◌, if◌then◌else◌,
  length, ◌>>=◌, IsU16, All, ◌≢◌, ne→eqb, ap, ◌*◌, leb, ◌<◌, none,
}
use mqtt_s_gateway.Bytes.{set_uint16}
use mqtt_s_gateway.Client.{set_client_send_message}
use mqtt_s_gateway.Client.Queues.{update_status-publish}
use mqtt_s_gateway.Control.Context.{Desk, send_client, print_buf_size, printed_long}
use mqtt_s_gateway.Control.Downstream.{deliver, handle_publish}
use mqtt_s_gateway.Event.{client_send}
use mqtt_s_gateway.Gateway.Downward.Message.{
  gateway_publish, client_flags-qos, client_flags-IsByte, flags_for, publish_for_client_lem,
}
use mqtt_s_gateway.Gateway.ToClients.Frames.{IsSendable}
use mqtt_s_gateway.Mqtt.{MqttMessage, get_qos, is_dup, is_retain}
use mqtt_s_gateway.Sn.{SnMessage, body_length}
use mqtt_s_gateway.Sn.Builders.Absorbing.{publish_body, absorb_publish_lem, data_bytes_lem}
use mqtt_s_gateway.Sn.Builders.Blocks.{message_of}
use mqtt_s_gateway.Sn.Requests.{SnPublish, sn_publish, absorb_publish, publish_qos, data_bytes}
use mqtt_s_gateway.Sn.Types.{sn_type_publish}
use mqtt_s_gateway.Topics.{get_topic_id}

-- What the client node has for the client behind the PUBLISH: a message that MQTTSnPublish::absorb
-- takes with these fields and this data, and that the radio can send if the data fits a frame.
pub record IsDelivered (mq : MqttMessage) (id : ℕ) (m : SnMessage) : Type 0 where
  pub taken : SnPublish
  pub takes : absorb_publish sn_publish m ≡ some taken
  pub carries : data_bytes taken ≡ some mq.payload
  pub for_topic : taken.topic_id ≡ id
  pub numbered : taken.msg_id ≡ mq.message_id
  pub of_qos : publish_qos taken ≡ (if get_qos mq == 1 then 1 else 0)
  pub sendable : length mq.payload ≤ 104 → All IsByte mq.payload → IsSendable m

written-IsDelivered :
    (mq : MqttMessage) (id : ℕ)
    → length mq.payload ≤ 248
    → IsU16 id
    → IsU16 mq.message_id
    → IsDelivered mq id (gateway_publish (flags_for mq) id mq.message_id mq.payload).base
unfolding publish_qos set_uint16
written-IsDelivered mq id fits topic msg =
    let flags : ℕ = flags_for mq in
    record {
      taken = gateway_publish flags id mq.message_id mq.payload;
      takes = absorb_publish_lem sn_type_publish flags id mq.message_id mq.payload topic msg fits;
      carries = data_bytes_lem sn_type_publish flags id mq.message_id mq.payload fits;
      for_topic = refl;
      numbered = refl;
      of_qos = client_flags-qos (get_qos mq == 1) (is_dup mq) (is_retain mq);
      sendable = λ short bytes. record {
        body = publish_body flags id mq.message_id mq.payload;
        block = refl;
        counted = refl;
        bytes = (
          omega (arith, short),
          (
            omega arith,
            (
              client_flags-IsByte (get_qos mq == 1) (is_dup mq) (is_retain mq),
              (omega arith, (omega arith, (omega arith, (omega arith, bytes)))),
            ),
          ),
        );
        fits = omega (arith, short);
      };
    }

-- What the desk has for the client behind the PUBLISH, and the event that it posts.
pub record Delivers (d : Desk) (mq : MqttMessage) (id : ℕ) (d' : Desk) : Type 0 where
  pub message : SnMessage
  pub delivered : IsDelivered mq id message
  pub queued : d'.node.client_send_que ≡ d.node.client_send_que ++ message ∷ []
  pub posted : d'.client_send_que ≡ d.client_send_que ++ client_send d.client ∷ []
  pub for_client : d'.client ≡ d.client
  pub far : d'.node.address64 ≡ d.node.address64
  pub near : d'.node.address16 ≡ d.node.address16

send_client-publish :
    (d : Desk) (mq : MqttMessage) (id : ℕ) (body : Str)
    → IsDelivered mq id (message_of sn_type_publish body)
    → (d' : Desk) × (send_client d (message_of sn_type_publish body) ≡ some d')
      × Delivers d mq id d'
unfolding send_client set_client_send_message
send_client-publish d mq id body reads =
    let m : SnMessage = message_of sn_type_publish body in
    let (c', updates, same, far, near) = update_status-publish d.node d.now m refl in
    (
      record d {
        node = record c' { client_send_que = c'.client_send_que ++ m ∷ [] };
        client_send_que = d.client_send_que ++ client_send d.client ∷ [];
      },
      rw (updates, ◌>>=◌) refl,
      record {
        message = m;
        delivered = reads;
        queued = ap (λ q. q ++ m ∷ []) same.client_send;
        posted = refl;
        for_client = refl;
        far = far;
        near = near;
      },
    )

-- The printed body of the message stays within the print buffer.
print_fits :
    (flags id msg_id : ℕ) (bytes : Str)
    → length bytes ≤ 165
    → leb (3 * body_length (gateway_publish flags id msg_id bytes).base + 1) print_buf_size ≡ true
unfolding set_uint16
print_fits flags id msg_id bytes fits = ground (arith, fits)

-- A PUBLISH of the broker with at most 165 bytes of data and a 16-bit message id, for a topic that
-- the table of the client has under an id that is not 0 and of 16 bits, and whose name has not two
-- bytes, leaves handlePublish, which does not fault, as a message at the end of the queue to the
-- client, with an event behind the others: MQTTSnPublish::absorb takes the topic's id, the message
-- id, the data and the QoS 1 or 0 from it, and if the data are at most 104 bytes the message fits a
-- frame of the radio.
pub handle_publish-Delivers :
    (d : Desk) (mq : MqttMessage) (id : ℕ)
    → length mq.topic ≢ 2
    → get_topic_id d.node.topics mq.topic ≡ id
    → id ≢ 0
    → IsU16 id
    → length mq.payload ≤ 165
    → IsU16 mq.message_id
    → (d' : Desk) × (handle_publish d mq ≡ some d') × Delivers d mq id d'
unfolding handle_publish deliver
handle_publish-Delivers d mq id long knows some_id topic fits msg =
    let (d', sends, delivers) =
      send_client-publish d mq id (publish_body (flags_for mq) id mq.message_id mq.payload)
        (written-IsDelivered mq id (omega (arith, fits)) topic msg) in
    (
      d',
      rw
          (
            ne→eqb _ _ long,
            knows,
            ne→eqb _ _ some_id,
            publish_for_client_lem mq id (omega (arith, fits)),
            ◌>>=◌,
            print_fits (flags_for mq) id mq.message_id mq.payload fits,
          )
          sends,
      delivers,
    )

-- A PUBLISH of the broker with 166 to 248 bytes of data, for a topic that the table of the client has
-- under an id that is not 0, and whose name has not two bytes, makes handlePublish write past the end
-- of the buffer that the message is printed to.
pub handle_publish_overflow :
    (d : Desk) (mq : MqttMessage) (id : ℕ)
    → length mq.topic ≢ 2
    → get_topic_id d.node.topics mq.topic ≡ id
    → id ≢ 0
    → 165 < length mq.payload
    → length mq.payload ≤ 248
    → handle_publish d mq ≡ none
unfolding handle_publish deliver set_uint16
handle_publish_overflow d mq id long knows some_id over fits =
    let p : SnPublish = gateway_publish (flags_for mq) id mq.message_id mq.payload in
    rw (ne→eqb _ _ long, knows, ne→eqb _ _ some_id, publish_for_client_lem mq id fits, ◌>>=◌)
      (printed_long p.base (send_client d p.base) (omega (arith, over, fits)))
