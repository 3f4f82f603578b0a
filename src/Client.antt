-- ===== src/Client.antt =====
-- Class ClientNode of TomyGateway/src/GatewayResourcesProvider.cpp and .h: what the gateway keeps of
-- one client. The four message queues are lists, the oldest message first. The clock's reading is an
-- argument of the operations that start a timer.
--
-- The CONNECT message that a client node points to may stand in its send queue at the same time, so
-- these messages live in a store of their own, `connects`: an address is a position, and a message
-- that was deleted is `none` there. An access to a deleted message faults.
pub mod Status
pub mod Queues
pub mod Counters
pub mod Trace
use mqtt_s_gateway.Base.{
  Str, u16, ◌>>=◌, ℕ, ◌+◌, ◌*◌, ◌/◌, ◌%◌, ◌||◌, Option, none, some, List, [], ◌∷◌, ◌++◌, ◌==◌,
  if◌then◌else◌, nonzero, length, get_elem?, set, drop,
}
use mqtt_s_gateway.Mqtt.{MqttMessage, mqtt_connect}
use mqtt_s_gateway.Sn.{SnMessage, body_uint16}
use mqtt_s_gateway.Sn.Replies.{SnSubAck}
use mqtt_s_gateway.Sn.Requests.{connect_duration}
use mqtt_s_gateway.Sn.Types.{
  sn_type_connect, sn_type_connack, sn_type_publish, sn_type_subscribe, sn_type_unsubscribe,
  sn_type_pingreq, sn_type_pingresp, sn_type_disconnect,
}
use mqtt_s_gateway.Socket.{Socket, new_socket}
use mqtt_s_gateway.Timer.{TimeVal, Timer, stopped, start, is_timeup}
use mqtt_s_gateway.Topics.{Topics, new_topics}

pub data ClientStatus : Type 0 where
  disconnected connecting active asleep awake lost : ClientStatus

-- A pointer in the send queue to the broker: to a message that nothing else points to, or to a CONNECT
-- in the store.
pub data Outgoing : Type 0 where
  own : MqttMessage → Outgoing
  connect_at : ℕ → Outgoing

pub record XBeeAddress64 : Type 0 where
  pub msb : ℕ
  pub lsb : ℕ

pub record ClientNode : Type 0 where
  pub broker_send_que : List Outgoing
  pub broker_recv_que : List MqttMessage
  pub client_send_que : List SnMessage
  pub client_recv_que : List SnMessage
  pub connects : List (Option MqttMessage)
  pub mqtt_connect : Option ℕ
  pub waited_pub_ack : Option SnMessage
  pub waited_sub_ack : Option SnSubAck
  pub msg_id : ℕ
  pub sn_msg_id : ℕ
  pub topics : Topics
  pub status : ClientStatus
  pub keep_alive_msec : ℕ
  pub keep_alive_timer : Timer
  pub address16 : ℕ
  pub address64 : XBeeAddress64
  pub node_id : Str
  pub socket : Socket

-- The constructor.
unfoldable pub new_client : ClientNode
new_client = record {
  broker_send_que = [];
  broker_recv_que = [];
  client_send_que = [];
  client_recv_que = [];
  connects = [];
  mqtt_connect = none;
  waited_pub_ack = none;
  waited_sub_ack = none;
  msg_id = 0;
  sn_msg_id = 0;
  topics = new_topics;
  status = disconnected;
  keep_alive_msec = 0;
  keep_alive_timer = stopped;
  address16 = 0;
  address64 = record { msb = 0; lsb = 0 };
  node_id = [];
  socket = new_socket;
}

-- `x++; if (x == 0) x++;` in a counter of the given modulus.
abbrev bump : ℕ → ℕ → ℕ
bump modulus x = let y = (x + 1) % modulus in if y == 0 then (y + 1) % modulus else y

-- getNextMessageId and getNextSnMsgId: the node, whose counter is the returned id.
unfoldable pub get_next_message_id : ClientNode → ClientNode
get_next_message_id c = record c { msg_id = bump 65536 c.msg_id }

unfoldable pub get_next_sn_msg_id : ClientNode → ClientNode
get_next_sn_msg_id c = record c { sn_msg_id = bump 256 c.sn_msg_id }

-- checkTimeover
unfoldable pub check_timeover : ClientNode → TimeVal → ClientNode
check_timeover c now =
    let lost_now = if is_timeup c.keep_alive_timer now then record c { status = lost } else c in
    elim c.status [ active ↦ lost_now | _ ↦ c ]

-- updateStatus(ClientStatus)
abbrev pub update_to : ClientNode → ClientStatus → ClientNode
update_to c s = record c { status = s }

-- setKeepAlive: `_keepAliveMsec` is a uint16_t, and the timer is started for one and a half of it.
unfoldable pub set_keep_alive : ClientNode → TimeVal → SnMessage → Option ClientNode
set_keep_alive c now m = do
  duration ← connect_duration m
  let msec = u16 (duration * 1000)
  some (record c { keep_alive_msec = msec; keep_alive_timer = start now (msec * 3 / 2) })

-- The branch of updateStatus for the state `Cstat_Active`.
unfoldable pub update_active : ClientNode → TimeVal → SnMessage → Option ClientNode
update_active c now m =
    let type = m.type in
    if (type == sn_type_pingreq)
      || ((type == sn_type_publish)
          || ((type == sn_type_subscribe) || (type == sn_type_unsubscribe)))
    then some (record c { keep_alive_timer = start now (c.keep_alive_msec * 3 / 2) })
    else if type == sn_type_disconnect
    then (body_uint16 m 0 >>= λ duration. some (
        if nonzero duration
        then record c { status = asleep; keep_alive_msec = u16 (duration * 1000) }
        else record c { status = disconnected }))
    else some c

-- The branch that CONNECT takes in the states that accept it.
unfoldable pub accept_connect : ClientNode → TimeVal → SnMessage → Option ClientNode
accept_connect c now m = set_keep_alive c now m >>= λ c'. some (record c' { status = connecting })

-- updateStatus(MQTTSnMessage*). The pointer that MQTTSnPingReq::getClientId returns is never NULL.
update_in : ClientStatus → ClientNode → TimeVal → SnMessage → Option ClientNode
unfolding accept_connect update_active
update_in disconnected c now m =
    if m.type == sn_type_connect then accept_connect c now m else some c
update_in lost c now m = if m.type == sn_type_connect then accept_connect c now m else some c
update_in connecting c now m =
    some (if m.type == sn_type_connack then record c { status = active } else c)
update_in active c now m = update_active c now m
update_in asleep c now m =
    if m.type == sn_type_connect
    then accept_connect c now m
    else some (if m.type == sn_type_pingreq then record c { status = awake } else c)
update_in awake c now m =
    if m.type == sn_type_connect
    then accept_connect c now m
    else some (
        if m.type == sn_type_disconnect
        then record c { status = disconnected }
        else if m.type == sn_type_pingresp
        then record c { status = asleep }
        else c)

unfoldable pub update_status : ClientNode → TimeVal → SnMessage → Option ClientNode
unfolding update_in
update_status c now m = update_in c.status c now m

-- setClientSendMessage and setClientRecvMessage
unfoldable pub set_client_send_message : ClientNode → TimeVal → SnMessage → Option ClientNode
set_client_send_message c now m = do
  c' ← update_status c now m
  some (record c' { client_send_que = c'.client_send_que ++ m ∷ [] })

unfoldable pub set_client_recv_message : ClientNode → TimeVal → SnMessage → Option ClientNode
set_client_recv_message c now m = do
  c' ← update_status c now m
  some (record c' { client_recv_que = c'.client_recv_que ++ m ∷ [] })

-- setBrokerSendMessage and setBrokerRecvMessage
unfoldable pub set_broker_send_message : ClientNode → Outgoing → ClientNode
set_broker_send_message c m = record c { broker_send_que = c.broker_send_que ++ m ∷ [] }

unfoldable pub set_broker_recv_message : ClientNode → MqttMessage → ClientNode
set_broker_recv_message c m = record c { broker_recv_que = c.broker_recv_que ++ m ∷ [] }

-- MessageQue::getMessage: NULL for an empty queue.
abbrev pub get_message : {A : Type 0} → List A → Option A
get_message [] = none
get_message (x ∷ xs) = some x

-- A message of the store; a fault if it was deleted.
unfoldable pub connect_message : ClientNode → ℕ → Option MqttMessage
connect_message c at = elim (get_elem? c.connects at) [ none ↦ none | some m ↦ m ]

-- `new MQTTConnect()` and `setConnectMessage`: the new message, and the pointer to it.
unfoldable pub new_connect_message : ClientNode → MqttMessage → ClientNode
new_connect_message c m = record c {
  connects = c.connects ++ some m ∷ [];
  mqtt_connect = some (length c.connects);
}

-- A change of the message at an address.
unfoldable pub change_connect : ClientNode → ℕ → (MqttMessage → MqttMessage) → Option ClientNode
unfolding connect_message
change_connect c at f = do
  m ← connect_message c at
  some (record c { connects = set c.connects at (some (f m)) })

-- deleteBrokerSendMessage: MessageQue::pop deletes the front message, if there is one. Deleting a
-- deleted message faults.
unfoldable pub delete_outgoing : List Outgoing → ClientNode → Option ClientNode
unfolding connect_message
delete_outgoing [] c = some c
delete_outgoing (own m ∷ rest) c = some (record c { broker_send_que = rest })
delete_outgoing (connect_at at ∷ rest) c = do
  m ← connect_message c at
  some (record c { broker_send_que = rest; connects = set c.connects at none })

unfoldable pub delete_broker_send_message : ClientNode → Option ClientNode
unfolding delete_outgoing
delete_broker_send_message c = delete_outgoing c.broker_send_que c

-- deleteBrokerRecvMessage, deleteClientSendMessage and deleteClientRecvMessage.
unfoldable pub delete_broker_recv_message : ClientNode → ClientNode
delete_broker_recv_message c = record c { broker_recv_que = drop 1 c.broker_recv_que }

unfoldable pub delete_client_send_message : ClientNode → ClientNode
delete_client_send_message c = record c { client_send_que = drop 1 c.client_send_que }

unfoldable pub delete_client_recv_message : ClientNode → ClientNode
delete_client_recv_message c = record c { client_recv_que = drop 1 c.client_recv_que }
