-- ===== src/Gateway/Relay.antt =====
-- A PUBLISH of the broker through two tasks: the round of TomyGateway/src/GatewayControlTask.cpp that
-- handles it and the round of TomyGateway/src/ClientSendTask.cpp that gives it to the radio.
use mqtt_s_gateway.Base.{
  Str, ℕ, ◌≡◌, refl, some, List, [], ◌∷◌, IsByte, IsU16, ◌≤◌, ◌≢◌, ◌++◌, arith, length, All, ◌>>=◌,
  ap, subst, ◌∙◌, get_elem?, set, get_elem?-set,
}
use mqtt_s_gateway.Client.{
  ClientNode, get_message, delete_broker_recv_message, delete_client_send_message,
}
use mqtt_s_gateway.Clients.{client_at}
use mqtt_s_gateway.Control.{handle_broker_message, run_broker_recv}
use mqtt_s_gateway.Control.Context.{Desk}
use mqtt_s_gateway.Control.Downstream.{handle_publish}
use mqtt_s_gateway.Event.{Event, broker_recv, client_send}
use mqtt_s_gateway.Gateway.{Gateway, on_client_node, delete_event, set_client}
use mqtt_s_gateway.Gateway.Downward.{IsDelivered, handle_publish-Delivers}
use mqtt_s_gateway.Gateway.Run.{Moment, desk_for, leave_desk, at_desk, handle_event, run_control}
use mqtt_s_gateway.Gateway.ToClients.{radio_bytes, send_to_radio}
use mqtt_s_gateway.Gateway.ToClients.Frames.{frame_of, read_packet-radio_bytes}
use mqtt_s_gateway.Mqtt.{MqttMessage}
use mqtt_s_gateway.Mqtt.Types.{mqtt_type_publish}
use mqtt_s_gateway.Sn.{SnMessage}
use mqtt_s_gateway.Topics.{get_topic_id}
use mqtt_s_gateway.Xbee.{XbeeState}
use mqtt_s_gateway.Xbee.Receive.{read_packet}
use mqtt_s_gateway.Xbee.RoundTrip.{IsReady, IsReceived}

dispatched :
    (d : Desk) (mq : MqttMessage)
    → mq.type ≡ mqtt_type_publish
    → handle_broker_message d mq ≡ handle_publish d mq
unfolding handle_broker_message
dispatched d mq e = rw e refl

-- The desk of the client behind the event, without the message that was handled.
abbrev cleared : Desk → Desk
cleared d = record d { node = delete_broker_recv_message d.node }

abbrev pub without_event : Gateway → List Event → Gateway
without_event g rest = record g { gateway_event_que = rest }

control_round :
    (mo : Moment) (g : Gateway) (i : ℕ) (c : ClientNode) (mq : MqttMessage) (rest : List Event)
    (d : Desk)
    → g.gateway_event_que ≡ broker_recv i ∷ rest
    → client_at g.clients.nodes i ≡ some c
    → get_message c.broker_recv_que ≡ some mq
    → mq.type ≡ mqtt_type_publish
    → handle_publish (desk_for mo g i c) mq ≡ some d
    → run_control mo g ≡ some (leave_desk (without_event g rest) (cleared d))
unfolding run_control handle_event at_desk run_broker_recv
control_round mo g i c mq rest d que at front type handles =
    rw (que, at, ◌>>=◌, front, ◌>>=◌, dispatched (desk_for mo g i c) mq type, handles, ◌>>=◌) refl

radio_round :
    (g : Gateway) (i : ℕ) (c : ClientNode) (out : Str)
    → g.client_send_que ≡ client_send i ∷ []
    → client_at g.clients.nodes i ≡ some c
    → radio_bytes g (client_send i) ≡ some out
    → (g' : Gateway) × (send_to_radio g ≡ some (g', out)) × (g'.client_send_que ≡ [])
unfolding send_to_radio delete_event on_client_node
radio_round g i c out que at writes = (
  set_client (record g { client_send_que = [] }) i (delete_client_send_message c),
  rw (que, writes, ◌>>=◌, at, ◌>>=◌) refl,
  unfold set_client in refl,
)

-- Let a PUBLISH of the broker wait at the front for a client, its event be the next one of the
-- control task, and nothing wait for the radio or for the client. If it is for a topic that the
-- client's table has under an id that is not 0 and of 16 bits, with a name that has not two bytes,
-- a 16-bit message id and at most 104 bytes of data, then the next round of the control task and
-- the next round of ClientSendTask do not fault and empty the queue of the radio, and the bytes
-- that are written are read back by a frame reader, whatever bytes follow: the frame carries, to
-- the addresses of the client, a message from which MQTTSnPublish::absorb takes the topic's id, the
-- message id, the data and the QoS 1 or 0.
pub send_to_radio-run_control :
    (mo : Moment) (g : Gateway) (i : ℕ) (c : ClientNode) (mq : MqttMessage) (id : ℕ)
    (events : List Event) (rest : Str) (x : XbeeState)
    → g.gateway_event_que ≡ broker_recv i ∷ events
    → g.client_send_que ≡ []
    → client_at g.clients.nodes i ≡ some c
    → c.client_send_que ≡ []
    → get_message c.broker_recv_que ≡ some mq
    → mq.type ≡ mqtt_type_publish
    → length mq.topic ≢ 2
    → get_topic_id c.topics mq.topic ≡ id
    → id ≢ 0
    → IsU16 id
    → length mq.payload ≤ 104
    → All IsByte mq.payload
    → IsU16 mq.message_id
    → IsReady x
    → (g1 : Gateway) × (g2 : Gateway) × (out : Str) × (y : XbeeState) × (m : SnMessage)
      × (run_control mo g ≡ some g1)
      × (send_to_radio g1 ≡ some (g2, out))
      × (g2.client_send_que ≡ [])
      × (read_packet (out ++ rest) x ≡ some (y, rest))
      × IsReceived 0x10 (frame_of c m) y
      × IsDelivered mq id m
unfolding desk_for leave_desk set_client client_at delete_broker_recv_message
send_to_radio-run_control mo g i c mq id events rest x que idle at empty front type long knows
      some_id topic fits bytes msg ready =
    let (d, handles, sent) =
      handle_publish-Delivers (desk_for mo g i c) mq id long knows some_id topic
        (omega (arith, fits)) msg in
    let g1 : Gateway = leave_desk (without_event g events) (cleared d) in
    let c1 : ClientNode = (cleared d).node in
    let at1 : client_at g1.clients.nodes i ≡ some c1 =
      ap (λ k. get_elem? (set g.clients.nodes k c1) i) sent.for_client
      ∙ get_elem?-set g.clients.nodes i c c1 at in
    let only : get_message c1.client_send_que ≡ some sent.message =
      ap get_message (sent.queued ∙ ap (λ q. q ++ sent.message ∷ []) empty) in
    let next : g1.client_send_que ≡ client_send i ∷ [] =
      sent.posted ∙ ap (λ q. q ++ client_send i ∷ []) idle in
    let addressed : frame_of c1 sent.message ≡ frame_of c sent.message =
      ap (λ a. frame_of (record c { address64 = a; address16 = c1.address16 }) sent.message)
        sent.far
      ∙ ap (λ b. frame_of (record c { address16 = b }) sent.message) sent.near in
    let (out, y, writes, reads, got) =
      read_packet-radio_bytes g1 i c1 sent.message rest x at1 only
        (sent.delivered.sendable fits bytes) ready in
    let (g2, sends, none_left) = radio_round g1 i c1 out next at1 writes in
    (
      g1,
      g2,
      out,
      y,
      sent.message,
      control_round mo g i c mq events d que at front type handles,
      sends,
      none_left,
      reads,
      subst (λ bs. IsReceived 0x10 bs y) addressed got,
      sent.delivered,
    )
