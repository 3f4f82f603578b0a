-- ===== src/Gateway/Run.antt =====
-- GatewayControlTask::run of TomyGateway/src/GatewayControlTask.cpp: timeouts, broadcasts, and the
-- messages of the clients and of the broker.
use mqtt_s_gateway.Base.{Str, ℕ, ◌*◌, Option, some, List, [], ◌∷◌, ◌==◌, if◌then◌else◌, ◌>>=◌}
use mqtt_s_gateway.Client.{ClientNode, check_timeover}
use mqtt_s_gateway.Clients.{client_at}
use mqtt_s_gateway.Control.{run_client_recv, run_broker_recv}
use mqtt_s_gateway.Control.Context.{Desk, Unspecified, printed}
use mqtt_s_gateway.Event.{
  Event, na, timeout, broker_send, broker_recv, client_send, client_recv, broadcast,
}
use mqtt_s_gateway.Gateway.{Gateway, post, timedwait, set_client, delete_event}
use mqtt_s_gateway.Sn.{SnMessage}
use mqtt_s_gateway.Sn.Replies.{
  sn_advertise, sn_gw_info, set_publish_qos, publish_topic_id_type, publish_topic_id, publish_data,
}
use mqtt_s_gateway.Sn.Requests.{sn_publish}
use mqtt_s_gateway.Sn.Types.{sn_type_searchgw}
use mqtt_s_gateway.Timer.{TimeVal, start, is_timeup}
use mqtt_s_gateway.Topics.{topicid_predefined_time}

-- What a round reads from outside: the clock, the bytes of `time(NULL)`, the reads that C++ leaves
-- open, and the gateway id of the command line.
pub record Moment : Type 0 where
  pub now : TimeVal
  pub time_bytes : Str
  pub unspecified : Unspecified
  pub gw_id : ℕ

abbrev pub keep_alive_time : ℕ
keep_alive_time = 900

abbrev pub send_unixtime_period : ℕ
send_unixtime_period = 911

-- checkTimeover of each client.
unfoldable pub check_clients : TimeVal → List ClientNode → List ClientNode
unfolding check_timeover
check_clients now [] = []
check_clients now (c ∷ cs) = check_timeover c now ∷ check_clients now cs

-- The PUBLISH of the time for all clients.
unfoldable pub time_message : Str → Option SnMessage
time_message bytes = do
  p1 ← publish_topic_id sn_publish topicid_predefined_time
  p2 ← publish_topic_id_type p1 1
  p3 ← publish_data p2 bytes
  p4 ← set_publish_qos p3 0
  some p4.base

-- ADVERTISE, if its timer is up.
unfoldable pub advertise : Moment → Gateway → Option Gateway
unfolding start is_timeup
advertise mo g =
    if is_timeup g.advertise_timer mo.now
    then (sn_advertise mo.gw_id keep_alive_time >>= λ adv. some (record g {
      client_send_que = post g.client_send_que (broadcast adv);
      advertise_timer = start mo.now (keep_alive_time * 1000);
    }))
    else some g

-- The time, if its timer is up.
unfoldable pub send_unix_time : Moment → Gateway → Option Gateway
unfolding start is_timeup time_message
send_unix_time mo g =
    if is_timeup g.send_unix_timer mo.now
    then (time_message mo.time_bytes >>= λ m. some (record g {
      client_send_que = post g.client_send_que (broadcast m);
      send_unix_timer = start mo.now (send_unixtime_period * 1000);
    }))
    else some g

unfoldable pub run_timeout : Moment → Gateway → Option Gateway
unfolding check_clients advertise send_unix_time
run_timeout mo g =
    advertise mo
      (record g { clients = record (g.clients) { nodes = check_clients mo.now g.clients.nodes } })
    >>= λ g'. send_unix_time mo g'

-- SEARCHGW is answered by GWINFO.
unfoldable pub run_broadcast : Moment → Gateway → SnMessage → Option Gateway
run_broadcast mo g m = printed m (
    if m.type == sn_type_searchgw
    then (sn_gw_info mo.gw_id >>= λ info.
        some (record g { client_send_que = post g.client_send_que (broadcast info) }))
    else some g)

-- What the handlers work on, and the gateway with what they leave.
unfoldable pub desk_for : Moment → Gateway → ℕ → ClientNode → Desk
desk_for mo g i c = record {
  node = c;
  client = i;
  now = mo.now;
  time_bytes = mo.time_bytes;
  unspecified = mo.unspecified;
  client_send_que = g.client_send_que;
  broker_send_que = g.broker_send_que;
}

unfoldable pub leave_desk : Gateway → Desk → Gateway
unfolding set_client
leave_desk g d = record (set_client g d.client d.node) {
  client_send_que = d.client_send_que;
  broker_send_que = d.broker_send_que;
}

unfoldable pub at_desk : Moment → Gateway → ℕ → (Desk → Option Desk) → Option Gateway
unfolding client_at desk_for leave_desk
at_desk mo g i handle = do
  c ← client_at g.clients.nodes i
  d ← handle (desk_for mo g i c)
  some (leave_desk g d)

-- The tests on the type of the event. The destructor of a handled event deletes its message, which
-- `run_client_recv` and `run_broker_recv` contain.
unfoldable pub handle_event : Moment → Gateway → Event → Option Gateway
unfolding run_timeout run_broadcast at_desk delete_event
handle_event mo g timeout = run_timeout mo g
handle_event mo g (broadcast m) = run_broadcast mo g m
handle_event mo g (client_recv i) = at_desk mo g i run_client_recv
handle_event mo g (broker_recv i) = at_desk mo g i run_broker_recv
handle_event mo g (client_send i) = delete_event g (client_send i)
handle_event mo g (broker_send i) = delete_event g (broker_send i)
handle_event mo g na = some g

-- One round of the loop.
unfoldable pub run_control : Moment → Gateway → Option Gateway
unfolding handle_event
run_control mo g =
    let taken = timedwait g.gateway_event_que in
    handle_event mo (record g { gateway_event_que = taken.1 }) taken.0
