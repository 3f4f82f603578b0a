-- ===== src/Gateway/FromClients.antt =====
-- ClientRecvTask::run of TomyGateway/src/ClientRecvTask.cpp: what is done with a response of the radio.
use mqtt_s_gateway.Base.{
  Str, u8, u16, ℕ, ◌+◌, ◌-◌, ◌*◌, Bool, ◌||◌, Option, none, some, [], ltb, ◌==◌, if◌then◌else◌,
  length, get_elem?, drop, ◌>>=◌,
}
use mqtt_s_gateway.Client.{ClientNode, set_client_recv_message}
use mqtt_s_gateway.Clients.{get_client, set_node_id, create_node}
use mqtt_s_gateway.Event.{client_recv, broadcast}
use mqtt_s_gateway.Gateway.{Gateway, post, on_client_node}
use mqtt_s_gateway.Sn.{SnMessage, body_text, absorb_response}
use mqtt_s_gateway.Sn.Types.{
  sn_type_connect, sn_type_willtopic, sn_type_willmsg, sn_type_register, sn_type_regack,
  sn_type_publish, sn_type_puback, sn_type_subscribe, sn_type_unsubscribe, sn_type_pingreq,
  sn_type_disconnect, sn_type_searchgw,
}
use mqtt_s_gateway.Timer.{TimeVal}
use mqtt_s_gateway.Xbee.{XbResponse}

abbrev pub zb_payload_offset : ℕ
zb_payload_offset = 11

-- getPayloadPtr, getPayloadLength and getRemoteAddress16. A response without frame data faults.
unfoldable pub payload : XbResponse → Option Str
payload r = r.frame_data >>= λ frame. some (drop zb_payload_offset frame)

unfoldable pub payload_length : XbResponse → ℕ
payload_length r = u8 (r.frame_length + 256 - zb_payload_offset)

unfoldable pub remote_address16 : XbResponse → Option ℕ
remote_address16 r = do
  frame ← r.frame_data
  high ← get_elem? frame 8
  low ← get_elem? frame 9
  some (u16 (high * 256 + low))

-- The message that `new` and `absorb(resp)` make; every class takes over the whole payload.
unfoldable pub absorbed : SnMessage → XbResponse → Option SnMessage
unfolding payload payload_length
absorbed m r = payload r >>= λ bytes. absorb_response m bytes (payload_length r)

-- The types that a known client may send, apart from SEARCHGW.
abbrev pub is_for_node : ℕ → Bool
is_for_node t =
    (t == sn_type_connect)
    || ((t == sn_type_publish)
        || ((t == sn_type_puback)
            || ((t == sn_type_pingreq)
                || ((t == sn_type_disconnect)
                    || ((t == sn_type_register)
                        || ((t == sn_type_regack)
                            || ((t == sn_type_unsubscribe)
                                || ((t == sn_type_subscribe)
                                    || ((t == sn_type_willtopic) || (t == sn_type_willmsg))))))))))

-- The object that `new` makes for a type, before it absorbs.
abbrev pub blank_message : SnMessage
blank_message = record { message = []; length_byte = 0; type = 0 }

-- SEARCHGW: the event carries the message.
unfoldable pub receive_search : Gateway → XbResponse → Option Gateway
unfolding absorbed
receive_search g r = do
  m ← absorbed blank_message r
  some (record g { gateway_event_que = post g.gateway_event_que (broadcast m) })

-- A message of a known client.
unfoldable pub receive_known : TimeVal → Gateway → XbResponse → ℕ → ℕ → Option Gateway
unfolding absorbed on_client_node set_client_recv_message
receive_known now g r type i = do
  m ← absorbed blank_message r
  addr16 ← if type == sn_type_connect then remote_address16 r else some 0
  g' ← on_client_node g i (λ c. do
    c' ← set_client_recv_message c now m
    some (if type == sn_type_connect then record c' { address16 = addr16 } else c'))
  some (record g' { gateway_event_que = post g'.gateway_event_que (client_recv i) })

-- getClientId of the CONNECT: the text behind the first four bytes of the body.
unfoldable pub client_id_of : SnMessage → Option Str
client_id_of m = body_text m 4 6

-- The node of a client that connects for the first time.
unfoldable pub admit : TimeVal → XbResponse → SnMessage → ClientNode → Option ClientNode
unfolding client_id_of set_node_id set_client_recv_message
admit now r m c = do
  addr16 ← remote_address16 r
  id ← client_id_of m
  let named = if ltb 0 (length id) then set_node_id c id else c
  set_client_recv_message (record named { address16 = addr16 }) now m

-- A CONNECT of an unknown client. If no node is made, the task goes on with the next response.
unfoldable pub receive_new : TimeVal → Gateway → XbResponse → Option Gateway
unfolding absorbed admit on_client_node create_node
receive_new now g r =
    let made = create_node g.clients r.addr64 none in
    elim made.1 [
      | none ↦ some g
      | some i ↦
          (absorbed blank_message r >>= λ m.
          (on_client_node (record g { clients = made.0 }) i (admit now r m) >>= λ g'.
          some (record g' { gateway_event_que = post g'.gateway_event_que (client_recv i) })))
    ]

-- One round of the loop, for a response that getResponse gives.
unfoldable pub receive_response : TimeVal → Gateway → XbResponse → Option Gateway
unfolding receive_known receive_new receive_search get_client
receive_response now g r = do
  bytes ← payload r
  type ← get_elem? bytes 1
  let fresh = receive_new now g r
  let search = receive_search g r
  elim (get_client g.clients r.addr64) [
    | none ↦
        if type == sn_type_connect
        then fresh
        else if type == sn_type_searchgw
        then search
        else some g
    | some i ↦
        if is_for_node type
        then receive_known now g r type i
        else if type == sn_type_searchgw
        then search
        else some g
  ]
