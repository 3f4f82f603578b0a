-- ===== src/Xbee/Corruption.antt =====
-- What becomes of frames after a frame was received, in XBee::readPacket and receiveResponse of
-- TomyGateway/src/libmq/ZBStack.cpp.
use mqtt_s_gateway.Base.{◌≡◌, true}
use mqtt_s_gateway.Xbee.{XbeeState}
use mqtt_s_gateway.Xbee.Receive.{Round, return, again, fault}

abbrev IsComplete : XbeeState → Type 0
IsComplete x = x.response.complete ≡ true

data KeepsComplete : Round → Type 0 where
  returns : {y : XbeeState} → IsComplete y → KeepsComplete (return y)
  goes_on : {y : XbeeState} → IsComplete y → KeepsComplete (again y)
  faults : KeepsComplete fault
