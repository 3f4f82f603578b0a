-- ===== src/Control.antt =====
-- Class GatewayControlTask of TomyGateway/src/GatewayControlTask.cpp: the dispatch of a client's and of
-- the broker's messages to their handlers.
pub mod Context
pub mod Upstream
pub mod Subscribe
pub mod Connect
pub mod Downstream
pub mod Closed
pub mod Posts
pub mod Sessions
pub mod Tables
pub mod Forwarding
pub mod Answers
pub mod Acknowledging
pub mod Wills
use mqtt_s_gateway.Base.{◌>>=◌, Option, some, ◌==◌, if◌then◌else◌}
use mqtt_s_gateway.Client.{get_message, delete_broker_recv_message, delete_client_recv_message}
use mqtt_s_gateway.Mqtt.{MqttMessage}
use mqtt_s_gateway.Mqtt.Types.{
  mqtt_type_connack, mqtt_type_publish, mqtt_type_puback, mqtt_type_suback, mqtt_type_unsuback,
  mqtt_type_pingresp, mqtt_type_disconnect,
}
use mqtt_s_gateway.Sn.{SnMessage}
use mqtt_s_gateway.Sn.Types.{
  sn_type_connect, sn_type_willtopic, sn_type_willmsg, sn_type_register, sn_type_publish,
  sn_type_puback, sn_type_subscribe, sn_type_unsubscribe, sn_type_pingreq, sn_type_disconnect,
}
use Connect.{handle_sn_connect, handle_sn_will_topic, handle_sn_will_msg}
use Context.{Desk}
use Downstream.{
  handle_puback, handle_pingresp, handle_suback, handle_unsuback, handle_connack, handle_disconnect,
  handle_publish,
}
use Subscribe.{handle_sn_subscribe, handle_sn_unsubscribe}
use Upstream.{
  handle_sn_publish, handle_sn_ping_req, handle_sn_pub_ack, handle_sn_disconnect,
  handle_sn_register,
}

-- The chain of tests in `run` for a message from a client.
unfoldable pub handle_client_message : Desk → SnMessage → Option Desk
handle_client_message d m =
    if m.type == sn_type_publish
    then handle_sn_publish d m
    else if m.type == sn_type_subscribe
    then handle_sn_subscribe d m
    else if m.type == sn_type_unsubscribe
    then handle_sn_unsubscribe d m
    else if m.type == sn_type_pingreq
    then handle_sn_ping_req d m
    else if m.type == sn_type_puback
    then handle_sn_pub_ack d m
    else if m.type == sn_type_connect
    then handle_sn_connect d m
    else if m.type == sn_type_willtopic
    then handle_sn_will_topic d m
    else if m.type == sn_type_willmsg
    then handle_sn_will_msg d m
    else if m.type == sn_type_disconnect
    then handle_sn_disconnect d m
    else if m.type == sn_type_register
    then handle_sn_register d m
    else some d

-- The chain of tests in `run` for a message from the broker.
unfoldable pub handle_broker_message : Desk → MqttMessage → Option Desk
handle_broker_message d m =
    if m.type == mqtt_type_puback
    then handle_puback d m
    else if m.type == mqtt_type_pingresp
    then handle_pingresp d m
    else if m.type == mqtt_type_suback
    then handle_suback d m
    else if m.type == mqtt_type_unsuback
    then handle_unsuback d m
    else if m.type == mqtt_type_connack
    then handle_connack d m
    else if m.type == mqtt_type_publish
    then handle_publish d m
    else if m.type == mqtt_type_disconnect
    then handle_disconnect d m
    else some d

-- The event of a client's message: the front message of its queue is handled, and the destructor of
-- the event deletes it. An empty queue gives a NULL message, whose type cannot be read.
unfoldable pub run_client_recv : Desk → Option Desk
run_client_recv d = do
  m ← get_message d.node.client_recv_que
  d' ← handle_client_message d m
  some (record d' { node = delete_client_recv_message d'.node })

-- The event of a broker's message.
unfoldable pub run_broker_recv : Desk → Option Desk
run_broker_recv d = do
  m ← get_message d.node.broker_recv_que
  d' ← handle_broker_message d m
  some (record d' { node = delete_broker_recv_message d'.node })
