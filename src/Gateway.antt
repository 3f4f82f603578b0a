-- ===== src/Gateway.antt =====
-- What the tasks of the gateway share (GatewayResourcesProvider of
-- TomyGateway/src/GatewayResourcesProvider.h), the queues of events of
-- TomyGateway/src/libmq/ProcessFramework.h and the destructor of Event. Each task takes one event
-- or one input at a time: a run of the gateway is a sequence of the steps of the modules below.
pub mod FromClients
pub mod ToClients
pub mod FromBroker
pub mod ToBroker
pub mod Run
pub mod InStep
pub mod Passage
pub mod Arrival
pub mod Downward
pub mod Relay
pub mod CommandLine
pub mod Ascent
use mqtt_s_gateway.Base.{ℕ, ◌*◌, Option, none, some, List, [], ◌∷◌, ◌++◌, set, ◌>>=◌}
use mqtt_s_gateway.Client.{
  ClientNode, delete_broker_send_message, delete_broker_recv_message, delete_client_send_message,
  delete_client_recv_message,
}
use mqtt_s_gateway.Clients.{Clients, new_clients, client_at}
use mqtt_s_gateway.Event.{
  Event, na, timeout, broker_send, broker_recv, client_send, client_recv, broadcast,
}
use mqtt_s_gateway.Timer.{TimeVal, Timer, start}

-- `sender` is the event whose message BrokerSendTask could not send while it waits for the socket to be
-- closed. The two timers are those of GatewayControlTask::run.
pub record Gateway : Type 0 where
  pub clients : Clients
  pub gateway_event_que : List Event
  pub client_send_que : List Event
  pub broker_send_que : List Event
  pub sender : Option Event
  pub advertise_timer : Timer
  pub send_unix_timer : Timer

-- The start of the gateway: `now` is the clock when GatewayControlTask starts its timers.
unfoldable pub new_gateway : TimeVal → Gateway
unfolding start
new_gateway now = record {
  clients = new_clients;
  gateway_event_que = [];
  client_send_que = [];
  broker_send_que = [];
  sender = none;
  advertise_timer = start now (900 * 1000);
  send_unix_timer = start now (911 * 1000);
}

-- EventQue::post
abbrev pub post : List Event → Event → List Event
post que ev = que ++ ev ∷ []

-- EventQue::wait: `none` as long as the queue is empty.
abbrev pub wait : List Event → Option (Event × List Event)
wait [] = none
wait (ev ∷ rest) = some (ev, rest)

-- EventQue::timedwait: an empty queue gives a timeout.
abbrev pub timedwait : List Event → Event × List Event
timedwait [] = (timeout, [])
timedwait (ev ∷ rest) = (ev, rest)

-- A change of the client node of a number.
unfoldable pub set_client : Gateway → ℕ → ClientNode → Gateway
set_client g i c = record g { clients = record (g.clients) { nodes = set g.clients.nodes i c } }

unfoldable pub on_client_node : Gateway → ℕ → (ClientNode → Option ClientNode) → Option Gateway
unfolding client_at set_client
on_client_node g i f = do c ← client_at g.clients.nodes i; c' ← f c; some (set_client g i c')

-- The destructor of Event deletes the message at the front of the queue that the type names.
unfoldable pub delete_event : Gateway → Event → Option Gateway
unfolding on_client_node delete_client_recv_message delete_client_send_message
    delete_broker_recv_message
delete_event g (client_recv i) = on_client_node g i (λ c. some (delete_client_recv_message c))
delete_event g (client_send i) = on_client_node g i (λ c. some (delete_client_send_message c))
delete_event g (broker_recv i) = on_client_node g i (λ c. some (delete_broker_recv_message c))
delete_event g (broker_send i) = on_client_node g i delete_broker_send_message
delete_event g (broadcast m) = some g
delete_event g na = some g
delete_event g timeout = some g

-- `ev->getClientNode()`: NULL for an event without a client.
abbrev pub event_client : Event → Option ℕ
event_client (client_recv i) = some i
event_client (client_send i) = some i
event_client (broker_recv i) = some i
event_client (broker_send i) = some i
event_client (broadcast m) = none
event_client na = none
event_client timeout = none
