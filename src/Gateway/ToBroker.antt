-- ===== src/Gateway/ToBroker.antt =====
-- BrokerSendTask of TomyGateway/src/BrokerSendTask.cpp: the messages that go to the broker, over the
-- client's own connection.
pub mod Delivery
pub mod Settling
pub mod Overflow
use mqtt_s_gateway.Base.{
  Str, ℕ, Option, none, some, [], ◌∷◌, ◌==◌, if◌then◌else◌, nonzero, take, ◌>>=◌, List, leb, length,
}
use mqtt_s_gateway.Client.{Outgoing, own, connect_at, ClientNode, get_message, connect_message}
use mqtt_s_gateway.Clients.{client_at}
use mqtt_s_gateway.Event.{Event}
use mqtt_s_gateway.Gateway.{Gateway, set_client, delete_event, event_client}
use mqtt_s_gateway.Gateway.FromBroker.{socket_maxbuffer_length}
use mqtt_s_gateway.Mqtt.{MqttMessage}
use mqtt_s_gateway.Mqtt.Serialize.{
  Written, serialize_message, serialize_unsubscribe, serialize_subscribe, serialize_connect,
  serialize_publish,
}
use mqtt_s_gateway.Mqtt.Types.{
  mqtt_type_connect, mqtt_type_publish, mqtt_type_puback, mqtt_type_subscribe,
  mqtt_type_unsubscribe, mqtt_type_pingreq, mqtt_type_disconnect,
}
use mqtt_s_gateway.Socket.{OsAnswers, is_valid, disconnect, sem_wait, Socket}
use mqtt_s_gateway.Socket

-- The chain of tests on the type. Another type writes nothing, and the length stays 0. The message is
-- deleted in the end, so that the `_remainLength` that `serialize` sets is not kept.
unfoldable pub serialize_for_broker : MqttMessage → Option Written
unfolding serialize_publish serialize_message serialize_subscribe serialize_unsubscribe
    serialize_connect
serialize_for_broker m =
    if m.type == mqtt_type_publish
    then serialize_publish m
    else if m.type == mqtt_type_puback
    then serialize_message m
    else if m.type == mqtt_type_pingreq
    then serialize_message m
    else if m.type == mqtt_type_subscribe
    then serialize_subscribe m
    else if m.type == mqtt_type_unsubscribe
    then serialize_unsubscribe m
    else if m.type == mqtt_type_connect
    then serialize_connect m
    else if m.type == mqtt_type_disconnect
    then serialize_message m
    else some (m, [], 0)

-- The packet in `buffer`, which has SOCKET_MAXBUFFER_LENGTH bytes; a longer one is written past its
-- end.
unfoldable pub buffered : MqttMessage → Option Written
buffered m = serialize_for_broker m >>= λ w.
    if leb (length w.1) socket_maxbuffer_length then some w else none

-- How an attempt to send ends: the bytes are sent, they are not, or `send` fails and the task waits for
-- the socket to be closed.
pub data Attempt : Type 0 where
  delivered : Str → Socket.Socket → Attempt
  dropped : Socket.Socket → Attempt
  waits : Socket.Socket → Attempt

-- `send` over an open socket, and `disconnect` if it fails.
unfoldable pub send_over : OsAnswers → Socket.Socket → Str → Attempt
unfolding disconnect
send_over os s bytes =
    let closing = disconnect s in
    if os.sent then delivered bytes s else if closing.0 then waits closing.1 else dropped closing.1

-- What `run` does with the bytes of a message: it sends them over the open socket, or opens one first.
unfoldable pub attempt : OsAnswers → Socket.Socket → Str → Attempt
unfolding is_valid send_over Socket.create Socket.connect
attempt os s bytes =
    let valid = is_valid s in
    let created = Socket.create os valid.1 in
    let joined = Socket.connect os created.1 in
    if valid.0
    then send_over os valid.1 bytes
    else if created.0
    then (if joined.0 then send_over os joined.1 bytes else dropped joined.1)
    else dropped created.1

-- The message that a pointer of the send queue stands for; a fault for a deleted one.
unfoldable pub outgoing_message : ClientNode → Outgoing → Option MqttMessage
unfolding connect_message
outgoing_message c (own m) = some m
outgoing_message c (connect_at at) = connect_message c at

-- What is left to do: the event is deleted, or the task waits with it.
unfoldable pub conclude : Gateway → ℕ → ClientNode → Event → Attempt → Option (Gateway × Str)
unfolding set_client delete_event
conclude g i c ev (delivered bytes s) =
    delete_event (set_client g i (record c { socket = s })) ev >>= λ g'. some (g', bytes)
conclude g i c ev (dropped s) =
    delete_event (set_client g i (record c { socket = s })) ev >>= λ g'. some (g', [])
conclude g i c ev (waits s) =
    some (record (set_client g i (record c { socket = s })) { sender = some ev }, [])

-- Nothing is sent, and the event is deleted.
unfoldable pub skip : Gateway → Event → Option (Gateway × Str)
unfolding delete_event
skip g ev = delete_event g ev >>= λ g'. some (g', [])

-- The round of the loop for an event that was taken from the queue. `length` is a uint16_t.
unfoldable pub send_event : OsAnswers → Gateway → Event → Option (Gateway × Str)
unfolding client_at outgoing_message buffered conclude attempt
send_event os g ev = do
  i ← event_client ev
  c ← client_at g.clients.nodes i
  front ← get_message c.broker_send_que
  m ← outgoing_message c front
  w ← buffered m
  if nonzero w.2 then conclude g i c ev (attempt os c.socket (take w.2 w.1)) else skip g ev

-- The end of `disconnect`: the semaphore was posted, and the event is deleted.
unfoldable pub resume : Gateway → Event → Option (Gateway × Str)
unfolding client_at set_client delete_event sem_wait
resume g ev = do
  i ← event_client ev
  c ← client_at g.clients.nodes i
  elim (sem_wait c.socket) [
    | none ↦ some (g, [])
    | some s ↦
        (delete_event (record (set_client g i (record c { socket = s })) { sender = none }) ev
          >>= λ g'. some (g', []))
  ]

-- One step of the task: it goes on waiting for a socket, or takes the next event. An empty queue
-- keeps it waiting.
unfoldable pub next_send : OsAnswers → Gateway → Option Event → List Event → Option (Gateway × Str)
unfolding send_event resume
next_send os g (some ev) que = resume g ev
next_send os g none [] = some (g, [])
next_send os g none (ev ∷ rest) = send_event os (record g { broker_send_que = rest }) ev

unfoldable pub send_to_broker : OsAnswers → Gateway → Option (Gateway × Str)
unfolding next_send
send_to_broker os g = next_send os g g.sender g.broker_send_que
