-- ===== src/Gateway/ToBroker/Settling.antt =====
-- Each message for the broker leaves its queue (TomyGateway/src/BrokerSendTask.cpp with the test of the
-- sockets of BrokerRecvTask.cpp).
use mqtt_s_gateway.Base.{
  Str, ◌≡◌, arith, ℕ, refl, sym, subst, inl, inr, none, some, List, ◌∷◌, Bool-cases, get_elem?-set,
  ◌>>=◌, zero, suc, ap, [], some-injective, ◌⊎◌, Option, nonzero, take, ◌∙◌,
}
use mqtt_s_gateway.Client.{
  Outgoing, own, ClientNode, delete_outgoing, delete_broker_send_message, get_message,
}
use mqtt_s_gateway.Clients.{client_at}
use mqtt_s_gateway.Event.{broker_send, Event}
use mqtt_s_gateway.Gateway.{Gateway, set_client, on_client_node, delete_event}
use mqtt_s_gateway.Gateway.FromBroker.{poll, prepare}
use mqtt_s_gateway.Gateway.ToBroker.{
  Attempt, delivered, dropped, waits, attempt, resume, send_to_broker, outgoing_message, conclude,
  send_event, next_send, skip, buffered,
}
use mqtt_s_gateway.Gateway.ToBroker.Delivery.{IsIdle, IsClosing, IsGood, attempt-IsGood}
use mqtt_s_gateway.Mqtt.{MqttMessage}
use mqtt_s_gateway.Mqtt.Serialize.{Written}
use mqtt_s_gateway.Socket.{OsAnswers, is_valid, sem_wait, Socket}
use mqtt_s_gateway.Socket

-- Nothing waits for the socket of the client, and these messages are left in its queue.
pub record IsSettled (i : ℕ) (rest : List Outgoing) (g : Gateway) : Type 0 where
  pub free : g.sender ≡ none
  pub node : ClientNode
  pub found : client_at g.clients.nodes i ≡ some node
  pub left : node.broker_send_que ≡ rest

pub delete_own :
    (g : Gateway) (i : ℕ) (c : ClientNode) (m : MqttMessage) (rest : List Outgoing)
    → g.sender ≡ none
    → client_at g.clients.nodes i ≡ some c
    → c.broker_send_que ≡ own m ∷ rest
    → (g' : Gateway) × (delete_event g (broker_send i) ≡ some g') × IsSettled i rest g'
unfolding delete_event on_client_node client_at set_client delete_broker_send_message
    delete_outgoing
delete_own g i c m rest idle at que = (
  set_client g i (record c { broker_send_que = rest }),
  rw (at, ◌>>=◌) (rw que refl),
  record {
    free = idle;
    node = record c { broker_send_que = rest };
    found = get_elem?-set _ i c _ at;
    left = refl;
  },
)

prepare_at :
    (nodes : List ClientNode) (i : ℕ) (c : ClientNode)
    → client_at nodes i ≡ some c
    → client_at (prepare nodes) i ≡ some (record c { socket = (is_valid c.socket).1 })
unfolding client_at prepare
prepare_at [] i c e = absurd (cc e)
prepare_at (x ∷ xs) zero c e =
    ap (λ (y : ClientNode). some (record y { socket = (is_valid y.socket).1 })) (some-injective e)
prepare_at (x ∷ xs) (suc i) c e = prepare_at xs i c e

-- The test of a socket that is to be closed lets the waiting task go on.
closed_wait : (s : Socket.Socket) → IsClosing s → sem_wait (is_valid s).1 ≡ some Socket.new_socket
unfolding sem_wait is_valid
closed_wait s h = ground (arith, h.asked, h.unposted, h.connected)

-- A waiting task finishes after the other task has tested the sockets.
resume_after :
    (os : OsAnswers) (g : Gateway) (i : ℕ) (c : ClientNode) (m : MqttMessage) (rest : List Outgoing)
    → g.sender ≡ some (broker_send i)
    → client_at g.clients.nodes i ≡ some c
    → c.broker_send_que ≡ own m ∷ rest
    → IsClosing c.socket
    → (g' : Gateway) × (send_to_broker os (poll g) ≡ some (g', [])) × IsSettled i rest g'
unfolding send_to_broker next_send resume poll set_client client_at
resume_after os g i c m rest waiting at que closing =
    let polled = record c { socket = (is_valid c.socket).1 } in
    let at' = prepare_at g.clients.nodes i c at in
    let (g', deleted, settled) =
      delete_own
        (record (set_client (poll g) i (record polled { socket = Socket.new_socket })) {
          sender = none;
        })
        i (record polled { socket = Socket.new_socket }) m rest refl
        (get_elem?-set _ i polled _ at') que in
    (
      g',
      ap (λ s. next_send os (poll g) s g.broker_send_que) waiting
          ∙ rw (at', ◌>>=◌) (rw (closed_wait c.socket closing) (rw (deleted, ◌>>=◌) refl)),
      settled,
    )

-- A step of the task, and the step after the test of the sockets if it has to wait.
abbrev Settles : OsAnswers → ℕ → List Outgoing → Option (Gateway × Str) → Type 0
Settles os i rest step =
    (g1 : Gateway) × (out : Str) × (step ≡ some (g1, out))
    × (IsSettled i rest g1
        ⊎ ((g2 : Gateway) × (send_to_broker os (poll g1) ≡ some (g2, [])) × IsSettled i rest g2))

conclude-Settles :
    (os : OsAnswers) (g : Gateway) (i : ℕ) (c : ClientNode) (m : MqttMessage) (rest : List Outgoing)
    (a : Attempt)
    → g.sender ≡ none
    → client_at g.clients.nodes i ≡ some c
    → c.broker_send_que ≡ own m ∷ rest
    → IsGood a
    → Settles os i rest (conclude g i c (broker_send i) a)
unfolding conclude client_at set_client
conclude-Settles os g i c m rest (delivered bytes s) idle at que good =
    let (g', deleted, settled) =
      delete_own (set_client g i (record c { socket = s })) i (record c { socket = s }) m rest idle
        (get_elem?-set _ i c _ at) que in
    (g', bytes, rw (deleted, ◌>>=◌) refl, inl settled)
conclude-Settles os g i c m rest (dropped s) idle at que good =
    let (g', deleted, settled) =
      delete_own (set_client g i (record c { socket = s })) i (record c { socket = s }) m rest idle
        (get_elem?-set _ i c _ at) que in
    (g', [], rw (deleted, ◌>>=◌) refl, inl settled)
conclude-Settles os g i c m rest (waits s) idle at que good = (
  record (set_client g i (record c { socket = s })) { sender = some (broker_send i) },
  [],
  refl,
  inr (
      resume_after os
        (record (set_client g i (record c { socket = s })) { sender = some (broker_send i) }) i
        (record c { socket = s }) m rest refl (get_elem?-set _ i c _ at) que good),
)

skipped : (g g' : Gateway) (ev : Event) → delete_event g ev ≡ some g' → skip g ev ≡ some (g', [])
unfolding skip
skipped g g' ev e = rw (e, ◌>>=◌) refl

send_event-Settles :
    (os os' : OsAnswers) (g : Gateway) (i : ℕ) (c : ClientNode) (m : MqttMessage)
    (rest : List Outgoing) (w : Written)
    → g.sender ≡ none
    → client_at g.clients.nodes i ≡ some c
    → c.broker_send_que ≡ own m ∷ rest
    → IsIdle c.socket
    → buffered m ≡ some w
    → Settles os' i rest (send_event os g (broker_send i))
unfolding send_event outgoing_message
send_event-Settles os os' g i c m rest w idle at que calm written =
    let (g', deleted, settled) = delete_own g i c m rest idle at que in
    let bytes = take w.2 w.1 in
    let front : get_message c.broker_send_que ≡ some (own m) = rw que refl in
    rw (at, ◌>>=◌)
      (rw (front, ◌>>=◌)
        (rw (written, ◌>>=◌)
          (elim (Bool-cases (nonzero w.2)) [
            | inl some_bytes ↦ rw some_bytes (
                conclude-Settles os' g i c m rest (attempt os c.socket bytes) idle at que
                  (attempt-IsGood os c.socket bytes calm))
            | inr empty ↦ rw empty (g', [], skipped g g' (broker_send i) deleted, inl settled)
          ])))

-- A message that is no CONNECT in the store, that stands at the front of the queue to the broker
-- and whose packet fits the buffer, with its event at the front of the queue of a task that waits
-- for nothing and with a socket that nobody asked to close and whose semaphore is at 0, is gone
-- after a step of BrokerSendTask, whatever the operating system answers, or else after that step, a
-- test of the sockets by BrokerRecvTask and one more step of BrokerSendTask: the later messages are
-- left, and the task is free for the next event.
pub send_to_broker-IsSettled :
    (os os' : OsAnswers) (g : Gateway) (i : ℕ) (events : List Event) (c : ClientNode)
    (m : MqttMessage) (rest : List Outgoing) (w : Written)
    → g.sender ≡ none
    → g.broker_send_que ≡ broker_send i ∷ events
    → client_at g.clients.nodes i ≡ some c
    → c.broker_send_que ≡ own m ∷ rest
    → IsIdle c.socket
    → buffered m ≡ some w
    → (g1 : Gateway) × (out : Str) × (send_to_broker os g ≡ some (g1, out))
      × (IsSettled i rest g1
          ⊎ ((g2 : Gateway) × (send_to_broker os' (poll g1) ≡ some (g2, [])) × IsSettled i rest g2))
unfolding send_to_broker next_send
send_to_broker-IsSettled os os' g i events c m rest w idle ready at que calm written =
    let start : send_to_broker os g
        ≡ send_event os (record g { broker_send_que = events }) (broker_send i) =
      ap (λ s. next_send os g s g.broker_send_que) idle ∙ ap (next_send os g none) ready in
    subst (Settles os' i rest) (sym start) (
      send_event-Settles os os' (record g { broker_send_que = events }) i c m rest w idle at que
        calm written)
