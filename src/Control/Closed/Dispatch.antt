-- ===== src/Control/Closed/Dispatch.antt =====
-- The dispatch of GatewayControlTask keeps a closed predicate.
use mqtt_s_gateway.Base.{◌==◌, Each, gives, Each-if}
use mqtt_s_gateway.Control.{handle_client_message, handle_broker_message}
use mqtt_s_gateway.Control.Closed.{Closed, on_client}
use mqtt_s_gateway.Control.Closed.Connect.{sn_connect_kept, sn_will_topic_kept, sn_will_msg_kept}
use mqtt_s_gateway.Control.Closed.Downstream.{puback_kept, suback_kept, publish_kept, connack_kept}
use mqtt_s_gateway.Control.Closed.Subscribe.{sn_subscribe_kept, sn_unsubscribe_kept}
use mqtt_s_gateway.Control.Closed.Upstream.{
  sn_publish_kept, sn_ping_req_kept, sn_pub_ack_kept, sn_disconnect_kept, sn_register_kept,
}
use mqtt_s_gateway.Control.Context.{Desk}
use mqtt_s_gateway.Control.Downstream.{handle_pingresp, handle_unsuback, handle_disconnect}
use mqtt_s_gateway.Mqtt.{MqttMessage}
use mqtt_s_gateway.Mqtt.Types.{
  mqtt_type_connack, mqtt_type_publish, mqtt_type_suback, mqtt_type_unsuback, mqtt_type_pingresp,
  mqtt_type_disconnect,
}
use mqtt_s_gateway.Sn.{SnMessage}
use mqtt_s_gateway.Sn.Replies.{sn_unsub_ack, sn_ping_resp, sn_disconnect}

module _ {P : Desk → Type 0} (closed : Closed P) where
  -- A message from a client keeps every closed predicate.
  pub handle_client_message-Closed :
      (d : Desk) (m : SnMessage) → P d → Each P (handle_client_message d m)
  unfolding handle_client_message
  handle_client_message-Closed d m h = Each-if _ (sn_publish_kept closed d m h) (
      Each-if _ (sn_subscribe_kept closed d m h) (
        Each-if _ (sn_unsubscribe_kept closed d m h) (
          Each-if _ (sn_ping_req_kept closed d m h) (
            Each-if _ (sn_pub_ack_kept closed d m h) (
              Each-if _ (sn_connect_kept closed d m h) (
                Each-if _ (sn_will_topic_kept closed d m h) (
                  Each-if _ (sn_will_msg_kept closed d m h) (
                    Each-if _ (sn_disconnect_kept closed d m h)
                      (Each-if _ (sn_register_kept closed d m h) (gives h))))))))))

  -- A message from the broker keeps every closed predicate.
  pub handle_broker_message-Closed :
      (d : Desk) (m : MqttMessage) → P d → Each P (handle_broker_message d m)
  unfolding handle_broker_message handle_pingresp handle_unsuback handle_disconnect
  handle_broker_message-Closed d m h = Each-if _ (puback_kept closed d m h) (
      Each-if (m.type == mqtt_type_pingresp) (closed.to_client d sn_ping_resp h) (
        Each-if (m.type == mqtt_type_suback) (suback_kept closed d m h) (
          Each-if (m.type == mqtt_type_unsuback) (on_client closed d (sn_unsub_ack m.message_id) h)
            (Each-if (m.type == mqtt_type_connack) (connack_kept closed d m h) (
              Each-if (m.type == mqtt_type_publish) (publish_kept closed d m h) (
                Each-if (m.type == mqtt_type_disconnect) (closed.to_client d sn_disconnect h)
                  (gives h)))))))
