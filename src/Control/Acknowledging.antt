-- ===== src/Control/Acknowledging.antt =====
-- The acknowledgements that GatewayControlTask.cpp gives a client: the PUBACK that waits for the
-- broker's, and the REGACK.
use mqtt_s_gateway.Base.{
  IsU16, ℕ, ◌≤◌, ◌<◌, ◌≡◌, refl, sym, ap, ◌∙◌, ◌≢◌, ◌↔◌, inl, inr, true, none, some, [], ◌∷◌, ◌++◌,
  arith, nonzero, eq→eqb, ne→eqb, ◌>>=◌,
}
use mqtt_s_gateway.Bytes.{get_uint16, set_uint16}
use mqtt_s_gateway.Client.{set_client_send_message}
use mqtt_s_gateway.Client.Queues.{IsIgnored, update_status-ignored}
use mqtt_s_gateway.Control.Context.{Desk, printed_short, send_client}
use mqtt_s_gateway.Control.Downstream.{handle_puback}
use mqtt_s_gateway.Control.Upstream.{await_pub_ack, handle_sn_register}
use mqtt_s_gateway.Event.{client_send}
use mqtt_s_gateway.Mqtt.{MqttMessage}
use mqtt_s_gateway.Sn.{SnMessage, sn_message, write_block, put, body_length}
use mqtt_s_gateway.Sn.Builders.Blocks.{message_of}
use mqtt_s_gateway.Sn.Replies.{sn_reg_ack, sn_pub_ack, pub_ack_msg_id}
use mqtt_s_gateway.Sn.Requests.{SnPublish, SnRegister, sn_register, absorb_register}
use mqtt_s_gateway.Sn.Types.{sn_type_regack, sn_type_puback, sn_rc_accepted}
use mqtt_s_gateway.Topics.{
  Topic, Topics, max_topic_count, topic_length, get_topic, get_topic_by_id, get_topic_id,
}
use mqtt_s_gateway.Topics.Invariant.{IsTopics, create_topic-IsTopics}
use mqtt_s_gateway.Topics.Lookup.{created, after_create, create_topic-lookup, create_topic_full}

-- The desk with a message at the end of the client's queue and its event.
abbrev pub with_message : Desk → SnMessage → Desk
with_message d m = record d {
  node = record (d.node) { client_send_que = d.node.client_send_que ++ m ∷ [] };
  client_send_que = d.client_send_que ++ client_send d.client ∷ [];
}

sends : (d : Desk) (m : SnMessage) → IsIgnored m.type → send_client d m ≡ some (with_message d m)
unfolding send_client set_client_send_message
sends d m is = rw (update_status-ignored d.node d.now m is, ◌>>=◌) refl

-- The PUBACK for a PUBLISH, as a block: type, topic id, message id and return code 0.
abbrev pub pub_ack_of : SnPublish → SnMessage
pub_ack_of p = message_of sn_type_puback (set_uint16 p.topic_id ++ (set_uint16 p.msg_id ++ 0 ∷ []))

sn_pub_ack_lem : (p : SnPublish) → sn_pub_ack p.msg_id p.topic_id ≡ some (pub_ack_of p)
unfolding sn_pub_ack sn_message put write_block set_uint16
sn_pub_ack_lem p = refl

pub_ack_msg_id_lem :
    (p : SnPublish) → IsU16 p.msg_id → pub_ack_msg_id (pub_ack_of p) ≡ some p.msg_id
unfolding pub_ack_msg_id set_uint16 get_uint16
pub_ack_msg_id_lem p range = ap some (omega (arith, range))

abbrev waits_for : Desk → SnPublish → Desk
waits_for d p = record d { node = record (d.node) { waited_pub_ack = some (pub_ack_of p) } }

abbrev answered : Desk → SnPublish → Desk
answered d p =
    with_message (record d { node = record (d.node) { waited_pub_ack = none } }) (pub_ack_of p)

module _ (d : Desk) (p : SnPublish) where
  await_lem : 0 < p.msg_id → await_pub_ack d p ≡ some (waits_for d p)
  unfolding await_pub_ack
  await_lem pos =
      let some_id : nonzero p.msg_id ≡ true = ground (arith, pos) in
      rw (some_id, sn_pub_ack_lem p, ◌>>=◌) refl

  module _ (mq : MqttMessage) (range : IsU16 p.msg_id) where
    other_lem : mq.message_id ≢ p.msg_id → handle_puback (waits_for d p) mq ≡ some (waits_for d p)
    unfolding handle_puback
    other_lem differs =
        rw (pub_ack_msg_id_lem p range, ◌>>=◌, ne→eqb p.msg_id mq.message_id (λ e. differs (sym e)))
          refl

    same_lem : mq.message_id ≡ p.msg_id → handle_puback (waits_for d p) mq ≡ some (answered d p)
    unfolding handle_puback
    same_lem is =
        rw (pub_ack_msg_id_lem p range, ◌>>=◌, eq→eqb p.msg_id mq.message_id (sym is))
          (sends _ (pub_ack_of p) (inl refl))

    again_lem : handle_puback (answered d p) mq ≡ some (answered d p)
    unfolding handle_puback
    again_lem = refl

-- Let a PUBLISH of a client have a message id that is not 0, of 16 bits. Once its PUBACK is kept, a
-- PUBACK of the broker with another message id changes nothing; one with the same message id puts
-- the client's PUBACK, which is a block with the topic id, the message id and the return code 0, at
-- the end of the queue to the client, with its event; and a second such PUBACK changes nothing. None
-- of these steps faults.
pub handle_puback-await_pub_ack :
    (d : Desk) (p : SnPublish) (mq other again : MqttMessage)
    → 0 < p.msg_id
    → IsU16 p.msg_id
    → other.message_id ≢ p.msg_id
    → mq.message_id ≡ p.msg_id
    → (d1 : Desk) × (d2 : Desk) × (await_pub_ack d p ≡ some d1)
      × (handle_puback d1 other ≡ some d1)
      × (handle_puback d1 mq ≡ some d2)
      × (handle_puback d2 again ≡ some d2)
      × (d2.node.client_send_que ≡ d.node.client_send_que ++ pub_ack_of p ∷ [])
      × (d2.client_send_que ≡ d.client_send_que ++ client_send d.client ∷ [])
handle_puback-await_pub_ack d p mq other again pos range differs is = (
  waits_for d p,
  answered d p,
  await_lem d p pos,
  other_lem d p other range differs,
  same_lem d p mq range is,
  again_lem d p again range,
  refl,
  refl,
)

-- The REGACK as a block: type, topic id, message id and the code for acceptance.
abbrev pub reg_ack_of : ℕ → ℕ → SnMessage
reg_ack_of id msg_id =
    message_of sn_type_regack (set_uint16 id ++ (set_uint16 msg_id ++ sn_rc_accepted ∷ []))

sn_reg_ack_lem : (id msg_id : ℕ) → sn_reg_ack msg_id id sn_rc_accepted ≡ some (reg_ack_of id msg_id)
unfolding sn_reg_ack sn_message put write_block set_uint16
sn_reg_ack_lem id msg_id = refl

-- The id that createTopic returns for the name, in the client's table and in the one it leaves.
abbrev pub new_id : Desk → SnRegister → ℕ
new_id d r = created d.node.topics r.topic_name d.unspecified.created_word

abbrev pub new_table : Desk → SnRegister → Topics
new_table d r = after_create d.node.topics r.topic_name d.unspecified.created_word

abbrev registered : Desk → SnRegister → Desk
registered d r =
    with_message (record d { node = record (d.node) { topics = new_table d r } })
      (reg_ack_of (new_id d r) r.msg_id)

registers :
    (d : Desk) (msg : SnMessage) (r : SnRegister)
    → absorb_register sn_register msg ≡ some r
    → body_length msg ≤ 170
    → handle_sn_register d msg ≡ some (registered d r)
unfolding handle_sn_register
registers d msg r takes short =
    printed_short msg _ short
    ∙ rw (takes, ◌>>=◌, sn_reg_ack_lem (new_id d r) r.msg_id, ◌>>=◌) (sends _ _ (inr refl))

-- Let a client with a well formed topic table send a REGISTER, with a body of at most 170 bytes, for a
-- name whose length is not 2. It does not fault, and a REGACK, which is a block with a topic id, the
-- message id of the REGISTER and the code for acceptance, is at the end of the queue to the client,
-- with its event. The table is well formed again. If the topic id is not 0, the table has it for the
-- name, and leads from it back to the name. It is 0, and accepted all the same, exactly if the name
-- was new and the table full.
pub handle_sn_register-create_topic :
    (d : Desk) (msg : SnMessage) (r : SnRegister)
    → absorb_register sn_register msg ≡ some r
    → body_length msg ≤ 170
    → IsTopics d.node.topics
    → topic_length r.topic_name ≢ 2
    → (d' : Desk) × (id : ℕ) × (handle_sn_register d msg ≡ some d')
      × (d'.node.client_send_que ≡ d.node.client_send_que ++ reg_ack_of id r.msg_id ∷ [])
      × (d'.client_send_que ≡ d.client_send_que ++ client_send d.client ∷ [])
      × IsTopics d'.node.topics
      × (0 < id
          → (get_topic_id d'.node.topics r.topic_name ≡ id)
            × (tp : Topic) × (get_topic_by_id d'.node.topics id ≡ some tp)
            × (tp.topic_str ≡ r.topic_name))
      × ((id ≡ 0)
          ↔ ((get_topic d.node.topics r.topic_name ≡ none) × (d.node.topics.cnt ≡ max_topic_count)))
handle_sn_register-create_topic d msg r takes short h long =
    let t : Topics = d.node.topics in
    let word : ℕ = d.unspecified.created_word in
    (
      registered d r,
      new_id d r,
      registers d msg r takes short,
      refl,
      refl,
      create_topic-IsTopics t r.topic_name word h long,
      (λ pos. create_topic-lookup t r.topic_name word h long pos),
      create_topic_full t r.topic_name word h long,
    )
