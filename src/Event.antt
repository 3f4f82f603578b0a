-- ===== src/Event.antt =====
-- Class Event of TomyGateway/src/GatewayResourcesProvider.cpp. The ClientNode that an event points to
-- is given by its number in the client list.
use mqtt_s_gateway.Base.{ℕ}
use mqtt_s_gateway.Sn.{SnMessage}

pub data Event : Type 0 where
  na timeout : Event
  broker_send broker_recv client_send client_recv : ℕ → Event
  broadcast : SnMessage → Event
