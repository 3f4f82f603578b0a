-- ===== src/Client/Counters.antt =====
-- The counters of a client node: getNextMessageId, getNextSnMsgId and setKeepAlive of
-- TomyGateway/src/GatewayResourcesProvider.cpp.
use mqtt_s_gateway.Base.{ℕ, zero, suc, ◌+◌, ◌-◌, ◌*◌, ◌%◌, ◌≤◌, ◌<◌, ◌≡◌, ◌∙◌, ◌↔◌, some, arith}
use mqtt_s_gateway.Client.{ClientNode, get_next_message_id, set_keep_alive}
use mqtt_s_gateway.Sn.{SnMessage}
use mqtt_s_gateway.Sn.Requests.{connect_duration}
use mqtt_s_gateway.Timer.{TimeVal}

-- The node after a number of calls of `getNextMessageId`.
unfoldable pub after_ids : ℕ → ClientNode → ClientNode
after_ids zero c = c
after_ids (suc k) c = after_ids k (get_next_message_id c)

next_message_id :
    (c : ClientNode)
    → 0 < c.msg_id
    → c.msg_id < 65536
    → (get_next_message_id c).msg_id ≡ c.msg_id % 65535 + 1
unfolding get_next_message_id
next_message_id c positive small = ground arith

-- Message ids run through 1 to 65535 in a circle: from an id in that range, the id after k more calls
-- is k places further.
pub ids_run :
    (k : ℕ) (c : ClientNode)
    → 0 < c.msg_id
    → c.msg_id < 65536
    → (after_ids k c).msg_id ≡ (c.msg_id - 1 + k) % 65535 + 1
unfolding after_ids
ids_run zero c positive small = omega arith
ids_run (suc k) c positive small =
    let next = next_message_id c positive small in
    ids_run k (get_next_message_id c) (omega arith) (omega arith) ∙ omega arith

-- After `setKeepAlive` with a message of a given duration, the keep-alive time of the client is that
-- duration in milliseconds exactly if the duration is at most 65 seconds.
pub set_keep_alive_exact :
    (c c' : ClientNode) (now : TimeVal) (m : SnMessage) (duration : ℕ)
    → connect_duration m ≡ some duration
    → set_keep_alive c now m ≡ some c'
    → c'.keep_alive_msec ≡ duration * 1000 ↔ duration ≤ 65
unfolding set_keep_alive
set_keep_alive_exact c c' now m duration reads sets =
    let same : c'.keep_alive_msec ≡ (duration * 1000) % 65536 = ground arith in
    (λ exact. omega arith, λ short. omega arith)
