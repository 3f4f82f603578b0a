-- ===== src/Control/Closed.antt =====
-- Predicates that every handler of GatewayControlTask.cpp keeps: they need to hold through the few ways
-- in which the handlers change a client node and the queues.
pub mod Upstream
pub mod Subscribe
pub mod Connect
pub mod Downstream
pub mod Dispatch
use mqtt_s_gateway.Base.{Str, ◌>>=◌, ◌≡◌, Option, ℕ, refl, List, Each, Each-bind}
use mqtt_s_gateway.Client.{Outgoing, ClientNode, get_next_sn_msg_id}
use mqtt_s_gateway.Control.Context.{Desk, send_client, send_broker}
use mqtt_s_gateway.Mqtt.{MqttMessage, mqtt_connect}
use mqtt_s_gateway.Sn.{SnMessage}
use mqtt_s_gateway.Sn.Replies.{SnSubAck}
use mqtt_s_gateway.Topics.{new_topics, create_topic}

-- Two nodes with the same queues, topic table, status and message ids.
pub record Alike (c c' : ClientNode) : Type 0 where
  pub broker_send : c'.broker_send_que ≡ c.broker_send_que
  pub broker_recv : c'.broker_recv_que ≡ c.broker_recv_que
  pub client_send : c'.client_send_que ≡ c.client_send_que
  pub client_recv : c'.client_recv_que ≡ c.client_recv_que
  pub topics : c'.topics ≡ c.topics
  pub status : c'.status ≡ c.status

-- The ways in which the handlers change what they work on.
pub record Closed (P : Desk → Type 0) : Type 0 where
  pub to_client : (d : Desk) (m : SnMessage) → P d → Each P (send_client d m)
  pub to_broker : (d : Desk) (m : Outgoing) → P d → P (send_broker d m)
  pub on_node : (d : Desk) (c : ClientNode) → Alike d.node c → P d → P (record d { node = c })
  pub on_create :
      (d : Desk) (name : Str)
      → P d
      → P (record d {
        node = record (d.node) {
          topics = (create_topic d.node.topics name d.unspecified.created_word).0;
        };
      })
  pub on_clear : (d : Desk) → P d → P (record d { node = record (d.node) { topics = new_topics } })

pub same_pub_ack :
    (c : ClientNode) (a : Option SnMessage) → Alike c (record c { waited_pub_ack = a })
same_pub_ack c a = record {
  broker_send = refl;
  broker_recv = refl;
  client_send = refl;
  client_recv = refl;
  topics = refl;
  status = refl;
}

pub same_sub_ack :
    (c : ClientNode) (a : Option SnSubAck) → Alike c (record c { waited_sub_ack = a })
same_sub_ack c a = record {
  broker_send = refl;
  broker_recv = refl;
  client_send = refl;
  client_recv = refl;
  topics = refl;
  status = refl;
}

pub same_sn_msg_id : (c : ClientNode) → Alike c (get_next_sn_msg_id c)
unfolding get_next_sn_msg_id
same_sn_msg_id c = record {
  broker_send = refl;
  broker_recv = refl;
  client_send = refl;
  client_recv = refl;
  topics = refl;
  status = refl;
}

pub same_connects :
    (c : ClientNode) (ms : List (Option MqttMessage)) (at : Option ℕ)
    → Alike c (record c { connects = ms; mqtt_connect = at })
same_connects c ms at = record {
  broker_send = refl;
  broker_recv = refl;
  client_send = refl;
  client_recv = refl;
  topics = refl;
  status = refl;
}

module _ {P : Desk → Type 0} (closed : Closed P) where
  pub on_client : (d : Desk) (x : Option SnMessage) → P d → Each P (x >>= λ m. send_client d m)
  on_client d x h = Each-bind x _ (λ m. closed.to_client d m h)
