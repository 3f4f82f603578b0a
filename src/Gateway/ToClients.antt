-- ===== src/Gateway/ToClients.antt =====
-- ClientSendTask::run of TomyGateway/src/ClientSendTask.cpp: the messages that go out over the radio.
pub mod Frames
use mqtt_s_gateway.Base.{Str, Option, some, [], ◌∷◌, ◌>>=◌}
use mqtt_s_gateway.Client.{get_message}
use mqtt_s_gateway.Clients.{client_at}
use mqtt_s_gateway.Event.{
  broadcast, Event, na, timeout, broker_send, broker_recv, client_send, client_recv,
}
use mqtt_s_gateway.Gateway.{Gateway, delete_event}
use mqtt_s_gateway.Sn.{SnMessage, absorb}
use mqtt_s_gateway.Xbee.Send.{unicast}
use mqtt_s_gateway.Xbee.Send

-- `MQTTSnMessage msg; msg.absorb(...)`, which the radio gets.
unfoldable pub copied : SnMessage → Option SnMessage
copied m = absorb (record { message = []; length_byte = 0; type = 0 }) m

-- The bytes that are written to the radio for an event.
unfoldable pub radio_bytes : Gateway → Event → Option Str
unfolding client_at copied
radio_bytes g (client_send i) = do
  c ← client_at g.clients.nodes i
  m ← get_message c.client_send_que
  msg ← copied m
  unicast c.address64 c.address16 msg.message msg.length_byte 0
radio_bytes g (broadcast m) = do msg ← copied m; Send.broadcast msg.message msg.length_byte
radio_bytes g (client_recv i) = some []
radio_bytes g (broker_send i) = some []
radio_bytes g (broker_recv i) = some []
radio_bytes g na = some []
radio_bytes g timeout = some []

-- One round of the loop: the state, and what is written. An empty queue keeps the task waiting.
unfoldable pub send_to_radio : Gateway → Option (Gateway × Str)
unfolding radio_bytes delete_event
send_to_radio g = elim g.client_send_que [
  | [] ↦ some (g, [])
  | ev ∷ rest ↦
      (radio_bytes g ev >>= λ bytes.
      (delete_event (record g { client_send_que = rest }) ev >>= λ g'. some (g', bytes)))
]
