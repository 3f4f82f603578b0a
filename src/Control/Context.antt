-- ===== src/Control/Context.antt =====
-- What a handler of GatewayControlTask works on: the client node of the event and the two queues that
-- it posts to (TomyGateway/src/GatewayControlTask.cpp).
use mqtt_s_gateway.Base.{
  Str, ◌>>=◌, ℕ, Option, some, List, [], ◌∷◌, ◌++◌, ◌+◌, ◌*◌, ◌≤◌, ◌<◌, ◌≡◌, refl, true, false,
  none, arith, leb, if◌then◌else◌, Each, fails, Each-if,
}
use mqtt_s_gateway.Client.{Outgoing, ClientNode, set_client_send_message, set_broker_send_message}
use mqtt_s_gateway.Event.{Event, client_send, broker_send}
use mqtt_s_gateway.Sn.{SnMessage, body_length}
use mqtt_s_gateway.Timer.{TimeVal}

-- The values of reads that the C++ standard leaves open: past the end of a block (`topic_id` and
-- `client_id`), and of the bytes of a std::string object in place of its text.
pub record Unspecified : Type 0 where
  pub topic_id : ℕ
  pub client_id : Str
  pub string_word : ℕ
  pub created_word : ℕ

-- `client` is the number of the node in the client list. `now` is the clock during the handler, and
-- `time_bytes` the bytes of `time(NULL)`, a long int.
pub record Desk : Type 0 where
  pub node : ClientNode
  pub client : ℕ
  pub now : TimeVal
  pub time_bytes : Str
  pub unspecified : Unspecified
  pub client_send_que : List Event
  pub broker_send_que : List Event

-- `_printBuf` of the control task.
abbrev pub print_buf_size : ℕ
print_buf_size = 512

-- `msgPrint(m)` and what follows it: three characters for each byte of the body and the final 0 go to
-- `_printBuf`, and a write past its end faults. The bytes that are read stand in the block of the
-- message, or, at a length byte below 2, are too many for the buffer. Of what the gateway sends, all
-- but the REGISTER and the PUBLISH of handlePublish have bodies of at most 13 bytes, which always
-- fit.
abbrev pub printed : {A : Type 0} → SnMessage → Option A → Option A
printed m next = if leb (3 * body_length m + 1) print_buf_size then next else none

pub Each-printed :
    {A : Type 0} {P : A → Type 0} (m : SnMessage) {x : Option A} → Each P x → Each P (printed m x)
Each-printed m h = Each-if (leb (3 * body_length m + 1) print_buf_size) h fails

pub printed_short :
    {A : Type 0} (m : SnMessage) (x : Option A) → body_length m ≤ 170 → printed m x ≡ x
printed_short m x h =
    let fits : leb (3 * body_length m + 1) print_buf_size ≡ true = ground (arith, h) in rw fits refl

pub printed_long :
    {A : Type 0} (m : SnMessage) (x : Option A) → 170 < body_length m → printed m x ≡ none
printed_long m x h =
    let over : leb (3 * body_length m + 1) print_buf_size ≡ false = ground (arith, h) in
    rw over refl

pub printed-none : {A : Type 0} (m : SnMessage) {x : Option A} → x ≡ none → printed m x ≡ none
printed-none m none_after = ground (arith, none_after)

-- `clnode->setClientSendMessage(m)` and the post of its event.
unfoldable pub send_client : Desk → SnMessage → Option Desk
send_client d m = do
  node ← set_client_send_message d.node d.now m
  some (record d { node = node; client_send_que = d.client_send_que ++ client_send d.client ∷ [] })

-- `clnode->setBrokerSendMessage(m)` and the post of its event.
unfoldable pub send_broker : Desk → Outgoing → Desk
unfolding set_broker_send_message
send_broker d m = record d {
  node = set_broker_send_message d.node m;
  broker_send_que = d.broker_send_que ++ broker_send d.client ∷ [];
}
