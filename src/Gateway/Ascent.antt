-- ===== src/Gateway/Ascent.antt =====
-- A PUBLISH of a client through two tasks: the round of TomyGateway/src/GatewayControlTask.cpp that
-- handles it and the round of TomyGateway/src/BrokerSendTask.cpp that writes it to the broker.
use mqtt_s_gateway.Base.{
  Str, ℕ, ◌<◌, ◌≡◌, refl, inl, inr, true, none, some, List, [], ◌∷◌, ◌++◌, nonzero, Bool-cases,
  ◌>>=◌, ap, ◌∙◌, arith, ltb, ◌==◌, eq→eqb, take, get_elem?-set, take_all, IsU16, ◌+◌, ◌≤◌, sym,
  subst, length, get_elem?, set,
}
use mqtt_s_gateway.Bytes.{set_uint16}
use mqtt_s_gateway.Client.{
  own, ClientNode, set_broker_send_message, get_message, delete_client_recv_message,
}
use mqtt_s_gateway.Clients.{client_at}
use mqtt_s_gateway.Control.{handle_client_message, run_client_recv}
use mqtt_s_gateway.Control.Context.{Desk, send_broker, printed_short}
use mqtt_s_gateway.Control.Upstream.{
  publish_for_broker, await_pub_ack, forward_publish, handle_sn_publish,
}
use mqtt_s_gateway.Event.{Event, broker_send, client_recv}
use mqtt_s_gateway.Gateway.{Gateway, set_client}
use mqtt_s_gateway.Gateway.Passage.{IsReadAs, forwarded-IsReadAs}
use mqtt_s_gateway.Gateway.Relay.{without_event}
use mqtt_s_gateway.Gateway.Run.{Moment, desk_for, leave_desk, at_desk, handle_event, run_control}
use mqtt_s_gateway.Gateway.ToBroker.{
  outgoing_message, conclude, send_event, next_send, send_to_broker, delivered, attempt,
}
use mqtt_s_gateway.Gateway.ToBroker.Delivery.{IsIdle, attempt_lem}
use mqtt_s_gateway.Gateway.ToBroker.Settling.{IsSettled, delete_own}
use mqtt_s_gateway.Mqtt.{MqttMessage, set_payload, mqtt_publish}
use mqtt_s_gateway.Mqtt.Deserialize.{deserialize_publish}
use mqtt_s_gateway.Sn.{SnMessage, sn_message, put, write_block, body_length}
use mqtt_s_gateway.Sn.Builders.Absorbing.{
  publish_body, written_publish, absorb_publish_lem, data_bytes_lem,
}
use mqtt_s_gateway.Sn.Builders.Blocks.{message_of}
use mqtt_s_gateway.Sn.Replies.{sn_pub_ack}
use mqtt_s_gateway.Sn.Requests.{SnPublish, sn_publish, absorb_publish, data_bytes}
use mqtt_s_gateway.Sn.Types.{sn_type_publish}
use mqtt_s_gateway.Socket.{OsAnswers}
use mqtt_s_gateway.Topics.{Topic, get_topic_by_id}

sn_pub_ack_total :
    (msg_id topic_id : ℕ) → (ack : SnMessage) × (sn_pub_ack msg_id topic_id ≡ some ack)
unfolding sn_pub_ack sn_message put write_block set_uint16
sn_pub_ack_total msg_id topic_id = (_, refl)

-- What a forwarded PUBLISH leaves on the desk.
record Forwards (d : Desk) (m : MqttMessage) (d' : Desk) : Type 0 where
  queued : d'.node.broker_send_que ≡ d.node.broker_send_que ++ own m ∷ []
  posted : d'.broker_send_que ≡ d.broker_send_que ++ broker_send d.client ∷ []
  for_client : d'.client ≡ d.client
  connection : d'.node.socket ≡ d.node.socket

abbrev mqtt_of : SnPublish → Str → Str → MqttMessage
mqtt_of p name bytes = set_payload (publish_for_broker p name) bytes

forward_total :
    (d : Desk) (p : SnPublish) (name bytes : Str)
    → data_bytes p ≡ some bytes
    → (d' : Desk) × (forward_publish d p name ≡ some d') × Forwards d (mqtt_of p name bytes) d'
unfolding forward_publish await_pub_ack send_broker set_broker_send_message
forward_total d p name bytes reads = elim (Bool-cases (nonzero p.msg_id)) [
  | inl some_id ↦
      let (ack, acks) = sn_pub_ack_total p.msg_id p.topic_id in
      (
        send_broker (record d { node = record (d.node) { waited_pub_ack = some ack } })
            (own (mqtt_of p name bytes)),
        rw (some_id, acks, ◌>>=◌, reads, ◌>>=◌) refl,
        record { queued = refl; posted = refl; for_client = refl; connection = refl },
      )
  | inr no_id ↦ (
    send_broker d (own (mqtt_of p name bytes)),
    rw (no_id, ◌>>=◌, reads, ◌>>=◌) refl,
    record { queued = refl; posted = refl; for_client = refl; connection = refl },
  )
]

handle_total :
    (d : Desk) (msg : SnMessage) (p : SnPublish) (tp : Topic) (bytes : Str)
    → msg.type ≡ sn_type_publish
    → body_length msg ≤ 170
    → absorb_publish sn_publish msg ≡ some p
    → get_topic_by_id d.node.topics p.topic_id ≡ some tp
    → data_bytes p ≡ some bytes
    → (d' : Desk) × (handle_client_message d msg ≡ some d')
      × Forwards d (mqtt_of p tp.topic_str bytes) d'
unfolding handle_client_message handle_sn_publish
handle_total d msg p tp bytes type prints takes knows reads =
    let (d', forwards, facts) = forward_total d p tp.topic_str bytes reads in
    let is : (msg.type == sn_type_publish) ≡ true = eq→eqb msg.type sn_type_publish type in
    (d', rw is (printed_short msg _ prints ∙ rw (takes, ◌>>=◌, knows) forwards), facts)

-- The desk of the client behind the event, without the message that was handled.
abbrev cleared : Desk → Desk
cleared d = record d { node = delete_client_recv_message d.node }

control_round :
    (mo : Moment) (g : Gateway) (i : ℕ) (c : ClientNode) (msg : SnMessage) (rest : List Event)
    (d : Desk)
    → g.gateway_event_que ≡ client_recv i ∷ rest
    → client_at g.clients.nodes i ≡ some c
    → get_message c.client_recv_que ≡ some msg
    → handle_client_message (desk_for mo g i c) msg ≡ some d
    → run_control mo g ≡ some (leave_desk (without_event g rest) (cleared d))
unfolding run_control handle_event at_desk run_client_recv
control_round mo g i c msg rest d que at front handles =
    rw (que, at, ◌>>=◌, front, ◌>>=◌, handles, ◌>>=◌) refl

-- A round of BrokerSendTask over an open connection.
broker_round :
    (os : OsAnswers) (g : Gateway) (i : ℕ) (c : ClientNode) (m : MqttMessage) (name bytes : Str)
    (id : ℕ) (rest : Str)
    → g.sender ≡ none
    → g.broker_send_que ≡ broker_send i ∷ []
    → client_at g.clients.nodes i ≡ some c
    → c.broker_send_que ≡ own m ∷ []
    → IsIdle c.socket
    → 0 < c.socket.sock
    → os.sent ≡ true
    → (r : IsReadAs m name bytes id rest)
    → (g' : Gateway) × (send_to_broker os g ≡ some (g', r.written.1)) × IsSettled i [] g'
unfolding send_to_broker next_send send_event outgoing_message conclude
broker_round os g i c m name bytes id rest idle que at front calm opened sent r =
    let s = c.socket in
    let out : Str = r.written.1 in
    let first : get_message c.broker_send_que ≡ some (own m) = ap get_message front in
    let some_bytes : nonzero r.written.2 ≡ true = ground (arith, r.some_bytes) in
    let all : take r.written.2 out ≡ out = take_all r.written.2 out (omega (arith, r.counted)) in
    let is_open : ltb 0 s.sock ≡ true = ground (arith, opened) in
    let sends : attempt os s out ≡ delivered out s =
      attempt_lem os s out calm ∙ rw (is_open, sent) refl in
    let (g', deleted, settled) =
      delete_own (set_client (record g { broker_send_que = [] }) i (record c { socket = s })) i
        (record c { socket = s }) m [] idle
        (unfold client_at set_client in
          get_elem?-set g.clients.nodes i c (record c { socket = s }) at)
        front in
    (
      g',
      ap (λ w. next_send os g w g.broker_send_que) idle
          ∙ ap (next_send os g none) que
          ∙ rw (at, ◌>>=◌, first, ◌>>=◌, r.writes, ◌>>=◌, some_bytes, all, sends, deleted, ◌>>=◌)
              refl,
      settled,
    )

print_fits :
    (flags topic_id msg_id : ℕ) (bytes : Str)
    → length bytes ≤ 165
    → body_length (written_publish sn_type_publish flags topic_id msg_id bytes).base ≤ 170
unfolding set_uint16
print_fits flags topic_id msg_id bytes fits = omega (arith, fits)

-- Let a PUBLISH of a client wait at the front for the control task, its event be the next one, and
-- nothing wait for the broker, with an open connection over which the operating system sends. If
-- the client's table has the topic id, the ids have 16 bits, the data are at most 165 bytes and
-- with the topic's name at most 490, then the next round of the control task and the next round of
-- BrokerSendTask do not fault, and a reader of MQTT gets the topic's name, the data and the message
-- id of the client from the bytes that are written, whatever bytes follow; no message for the
-- broker is left.
pub send_to_broker-run_control :
    (mo : Moment) (os : OsAnswers) (g : Gateway) (i : ℕ) (c : ClientNode) (tp : Topic)
    (flags topic_id msg_id : ℕ) (bytes : Str) (events : List Event) (rest : Str)
    → g.gateway_event_que ≡ client_recv i ∷ events
    → g.broker_send_que ≡ []
    → g.sender ≡ none
    → client_at g.clients.nodes i ≡ some c
    → c.broker_send_que ≡ []
    → get_message c.client_recv_que
      ≡ some (message_of sn_type_publish (publish_body flags topic_id msg_id bytes))
    → get_topic_by_id c.topics topic_id ≡ some tp
    → IsU16 topic_id
    → IsU16 msg_id
    → length bytes ≤ 165
    → length tp.topic_str + length bytes ≤ 490
    → IsIdle c.socket
    → 0 < c.socket.sock
    → os.sent ≡ true
    → (g1 : Gateway) × (g2 : Gateway) × (out : Str) × (read : MqttMessage) × (run_control mo g
        ≡ some g1)
      × (send_to_broker os g1 ≡ some (g2, out))
      × IsSettled i [] g2
      × (deserialize_publish mqtt_publish (out ++ rest) ≡ some (read, true))
      × (read.topic ≡ tp.topic_str)
      × (read.payload ≡ bytes)
      × (read.message_id ≡ msg_id)
unfolding desk_for leave_desk set_client client_at delete_client_recv_message
send_to_broker-run_control mo os g i c tp flags topic_id msg_id bytes events rest que none_left idle
      at empty front knows topic id short fits calm opened sent =
    let p : SnPublish = written_publish sn_type_publish flags topic_id msg_id bytes in
    let m : MqttMessage = mqtt_of p tp.topic_str bytes in
    let takes =
      absorb_publish_lem sn_type_publish flags topic_id msg_id bytes topic id
        (omega (arith, short)) in
    let reads = data_bytes_lem sn_type_publish flags topic_id msg_id bytes (omega (arith, short)) in
    let r : IsReadAs m tp.topic_str bytes msg_id rest =
      forwarded-IsReadAs p tp.topic_str bytes rest reads id fits in
    let (d, handles, f) =
      handle_total (desk_for mo g i c) p.base p tp bytes refl
        (print_fits flags topic_id msg_id bytes short) takes knows reads in
    let g1 : Gateway = leave_desk (without_event g events) (cleared d) in
    let c1 : ClientNode = (cleared d).node in
    let at1 : client_at g1.clients.nodes i ≡ some c1 =
      ap (λ k. get_elem? (set g.clients.nodes k c1) i) f.for_client
      ∙ get_elem?-set g.clients.nodes i c c1 at in
    let next : g1.broker_send_que ≡ broker_send i ∷ [] =
      f.posted ∙ ap (λ q. q ++ broker_send i ∷ []) none_left in
    let only : c1.broker_send_que ≡ own m ∷ [] = f.queued ∙ ap (λ q. q ++ own m ∷ []) empty in
    let (g2, sends, settled) =
      broker_round os g1 i c1 m tp.topic_str bytes msg_id rest idle next at1 only
        (subst IsIdle (sym f.connection) calm) (subst (λ s. 0 < s.sock) (sym f.connection) opened)
        sent r in
    (
      g1,
      g2,
      r.written.1,
      r.read,
      control_round mo g i c p.base events d que at front handles,
      sends,
      settled,
      r.reads,
      r.named,
      r.carries,
      r.numbered,
    )
