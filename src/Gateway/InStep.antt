-- ===== src/Gateway/InStep.antt =====
-- The messages of the client nodes and the events in the queues of the gateway are in step
-- (TomyGateway/src/GatewayResourcesProvider.cpp and the tasks): each waiting message has its event.
pub mod Nodes
pub mod Control
pub mod Timeouts
pub mod Events
pub mod Radio
pub mod Admission
pub mod Responses
pub mod Broker
pub mod Sending
pub mod Reachable
use mqtt_s_gateway.Base.{
  ℕ, zero, suc, ◌+◌, ◌≡◌, Bool, false, Option, none, some, List, [], ◌∷◌, ◌++◌, ◌==◌, if◌then◌else◌,
  length, All,
}
use mqtt_s_gateway.Client.{ClientNode}
use mqtt_s_gateway.Event.{
  Event, na, timeout, broker_send, broker_recv, client_send, client_recv, broadcast,
}
use mqtt_s_gateway.Gateway.{Gateway}
use mqtt_s_gateway.Sn.{SnMessage}

-- The client that an event of each type names.
abbrev pub to_client : Event → Option ℕ
to_client (client_send n) = some n
to_client (client_recv n) = none
to_client (broker_send n) = none
to_client (broker_recv n) = none
to_client (broadcast m) = none
to_client na = none
to_client timeout = none

abbrev pub to_broker : Event → Option ℕ
to_broker (broker_send n) = some n
to_broker (client_send n) = none
to_broker (client_recv n) = none
to_broker (broker_recv n) = none
to_broker (broadcast m) = none
to_broker na = none
to_broker timeout = none

abbrev pub from_client : Event → Option ℕ
from_client (client_recv n) = some n
from_client (client_send n) = none
from_client (broker_send n) = none
from_client (broker_recv n) = none
from_client (broadcast m) = none
from_client na = none
from_client timeout = none

abbrev pub from_broker : Event → Option ℕ
from_broker (broker_recv n) = some n
from_broker (client_send n) = none
from_broker (client_recv n) = none
from_broker (broker_send n) = none
from_broker (broadcast m) = none
from_broker na = none
from_broker timeout = none

abbrev pub is_named : ℕ → Option ℕ → Bool
is_named j none = false
is_named j (some n) = n == j

-- The events that name client j.
unfoldable pub count : (Event → Option ℕ) → ℕ → List Event → ℕ
count p j [] = 0
count p j (e ∷ es) = let n = count p j es in if is_named j (p e) then n + 1 else n

-- A measure of the node of number j, 0 if there is none.
unfoldable pub measured : (ClientNode → ℕ) → List ClientNode → ℕ → ℕ
measured f [] j = 0
measured f (c ∷ cs) zero = f c
measured f (c ∷ cs) (suc j) = measured f cs j

-- For every client, as many messages as events.
pub record Paired (p : Event → Option ℕ) (f : ClientNode → ℕ) (nodes : List ClientNode)
    (que : List Event) : Type 0 where
  pub each : (j : ℕ) → measured f nodes j ≡ count p j que

-- The events that each queue carries.
pub data IsForClients : Event → Type 0 where
  one : {n : ℕ} → IsForClients (client_send n)
  all : {m : SnMessage} → IsForClients (broadcast m)

pub data IsForBrokers : Event → Type 0 where
  one : {n : ℕ} → IsForBrokers (broker_send n)

pub data IsForGateway : Event → Type 0 where
  of_client : {n : ℕ} → IsForGateway (client_recv n)
  of_broker : {n : ℕ} → IsForGateway (broker_recv n)
  all : {m : SnMessage} → IsForGateway (broadcast m)

-- The event that BrokerSendTask has taken from its queue and still holds.
abbrev pub held : Option Event → List Event
held none = []
held (some ev) = ev ∷ []

abbrev pub client_sends : ClientNode → ℕ
client_sends c = length c.client_send_que

abbrev pub broker_sends : ClientNode → ℕ
broker_sends c = length c.broker_send_que

abbrev pub client_recvs : ClientNode → ℕ
client_recvs c = length c.client_recv_que

abbrev pub broker_recvs : ClientNode → ℕ
broker_recvs c = length c.broker_recv_que

-- Each of the four queues of every client has as many messages as there are events of its type for the
-- client, and each queue of events has only events of its own types.
pub record IsInStep (g : Gateway) : Type 0 where
  pub to_clients : Paired to_client client_sends g.clients.nodes g.client_send_que
  pub to_brokers :
      Paired to_broker broker_sends g.clients.nodes (held g.sender ++ g.broker_send_que)
  pub from_clients : Paired from_client client_recvs g.clients.nodes g.gateway_event_que
  pub from_brokers : Paired from_broker broker_recvs g.clients.nodes g.gateway_event_que
  pub for_clients : All IsForClients g.client_send_que
  pub for_brokers : All IsForBrokers (held g.sender ++ g.broker_send_que)
  pub for_gateway : All IsForGateway g.gateway_event_que
