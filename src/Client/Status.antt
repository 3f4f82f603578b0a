-- ===== src/Client/Status.antt =====
-- The state diagram of a client, which `ClientNode::updateStatus` and `checkTimeover` of
-- TomyGateway/src/GatewayResourcesProvider.cpp follow.
use mqtt_s_gateway.Base.{
  ℕ, ◌≡◌, sym, subst, true, some, arith, ◌==◌, eqb→eq, inl, inr, false, if◌then◌else◌, nonzero,
  Bool-cases, Option-cases, none, refl, Bool, ◌||◌,
}
use mqtt_s_gateway.Client.{
  ClientStatus, disconnected, connecting, active, asleep, awake, lost, ClientNode, set_keep_alive,
  accept_connect, update_active, update_in, update_status,
}
use mqtt_s_gateway.Sn.{SnMessage, body_uint16}
use mqtt_s_gateway.Sn.Types.{
  sn_type_connect, sn_type_connack, sn_type_pingreq, sn_type_pingresp, sn_type_disconnect,
}
use mqtt_s_gateway.Timer.{TimeVal}

-- The types of messages that a state does not ignore.
unfoldable pub reacts : ClientStatus → ℕ → Bool
reacts disconnected t = t == sn_type_connect
reacts lost t = t == sn_type_connect
reacts connecting t = t == sn_type_connack
reacts active t = t == sn_type_disconnect
reacts asleep t = (t == sn_type_connect) || (t == sn_type_pingreq)
reacts awake t = (t == sn_type_connect) || ((t == sn_type_disconnect) || (t == sn_type_pingresp))

-- A DISCONNECT with a duration that is not 0.
abbrev pub has_duration : SnMessage → Bool
has_duration m = elim (body_uint16 m 0) [ none ↦ false | some duration ↦ nonzero duration ]

-- The edges of the diagram, each with the type of the message that it takes and whether the message
-- has a duration. A state stays only at a message that it ignores.
pub data Edge : ClientStatus → ℕ → Bool → ClientStatus → Type 0 where
  stay : {s : ClientStatus} {t : ℕ} {long : Bool} → reacts s t ≡ false → Edge s t long s
  connect : {long : Bool} → Edge disconnected sn_type_connect long connecting
  reconnect_lost : {long : Bool} → Edge lost sn_type_connect long connecting
  reconnect_asleep : {long : Bool} → Edge asleep sn_type_connect long connecting
  reconnect_awake : {long : Bool} → Edge awake sn_type_connect long connecting
  connack : {long : Bool} → Edge connecting sn_type_connack long active
  sleep : Edge active sn_type_disconnect true asleep
  leave : Edge active sn_type_disconnect false disconnected
  wake : {long : Bool} → Edge asleep sn_type_pingreq long awake
  doze : {long : Bool} → Edge awake sn_type_pingresp long asleep
  leave_awake : {long : Bool} → Edge awake sn_type_disconnect long disconnected

accept_connect_status :
    (c c' : ClientNode) (now : TimeVal) (m : SnMessage)
    → accept_connect c now m ≡ some c'
    → c'.status ≡ connecting
unfolding accept_connect set_keep_alive
accept_connect_status c c' now m h = ground arith

to_edge :
    (s s' : ClientStatus) (t : ℕ) (target : ClientStatus) (type : ℕ) {long : Bool}
    → Edge s type long target
    → (t == type) ≡ true
    → s' ≡ target
    → Edge s t long s'
to_edge s s' t target type {long = long} edge is to =
    subst (λ t'. Edge s t' long s') (sym (eqb→eq t type is))
      (subst (λ s''. Edge s type long s'') (sym to) edge)

update_active_other :
    (c c' : ClientNode) (now : TimeVal) (m : SnMessage)
    → c.status ≡ active
    → (m.type == sn_type_disconnect) ≡ false
    → update_active c now m ≡ some c'
    → c'.status ≡ active
unfolding update_active
update_active_other c c' now m is other h = ground arith

update_active_disconnect :
    (c c' : ClientNode) (now : TimeVal) (m : SnMessage) (duration : ℕ)
    → (m.type == sn_type_disconnect) ≡ true
    → body_uint16 m 0 ≡ some duration
    → update_active c now m ≡ some c'
    → c'.status ≡ (if nonzero duration then asleep else disconnected)
unfolding update_active
update_active_disconnect c c' now m duration is reads h = ground arith

update_active_fault :
    (c c' : ClientNode) (now : TimeVal) (m : SnMessage)
    → (m.type == sn_type_disconnect) ≡ true
    → body_uint16 m 0 ≡ none
    → ¬ (update_active c now m ≡ some c')
unfolding update_active
update_active_fault c c' now m is unread h = ground arith

disconnect-Edge :
    (long : Bool) → Edge active sn_type_disconnect long (if long then asleep else disconnected)
disconnect-Edge true = sleep
disconnect-Edge false = leave

reads_duration :
    (m : SnMessage) (duration : ℕ)
    → body_uint16 m 0 ≡ some duration
    → has_duration m ≡ nonzero duration
reads_duration m duration reads = rw (has_duration, reads) refl

update_active-Edge :
    (c c' : ClientNode) (now : TimeVal) (m : SnMessage)
    → c.status ≡ active
    → update_active c now m ≡ some c'
    → Edge active m.type (has_duration m) c'.status
unfolding reacts
update_active-Edge c c' now m is h = elim (Bool-cases (m.type == sn_type_disconnect)) [
  | inl off ↦ elim (Option-cases (body_uint16 m 0)) [
    | inl unread ↦ absurd (update_active_fault c c' now m off unread h)
    | inr (duration, reads) ↦
        subst (λ long. Edge active m.type long c'.status) (sym (reads_duration m duration reads))
          (to_edge active c'.status m.type _ sn_type_disconnect (disconnect-Edge (nonzero duration))
            off (update_active_disconnect c c' now m duration off reads h))
  ]
  | inr other ↦
      subst (λ s. Edge active m.type (has_duration m) s)
        (sym (update_active_other c c' now m is other h)) (stay other)
]

update_in-Edge :
    (s : ClientStatus) (c c' : ClientNode) (now : TimeVal) (m : SnMessage)
    → c.status ≡ s
    → update_in s c now m ≡ some c'
    → Edge s m.type (has_duration m) c'.status
unfolding update_in reacts
update_in-Edge disconnected c c' now m is h = elim (Bool-cases (m.type == sn_type_connect)) [
  | inl on ↦
      to_edge disconnected c'.status m.type connecting sn_type_connect connect on
        (accept_connect_status c c' now m (ground arith))
  | inr off ↦
      subst (λ s. Edge disconnected m.type (has_duration m) s) {x = disconnected} (ground arith)
        (stay (ground arith))
]
update_in-Edge lost c c' now m is h = elim (Bool-cases (m.type == sn_type_connect)) [
  | inl on ↦
      to_edge lost c'.status m.type connecting sn_type_connect reconnect_lost on
        (accept_connect_status c c' now m (ground arith))
  | inr off ↦
      subst (λ s. Edge lost m.type (has_duration m) s) {x = lost} (ground arith)
        (stay (ground arith))
]
update_in-Edge connecting c c' now m is h = elim (Bool-cases (m.type == sn_type_connack)) [
  | inl on ↦ to_edge connecting c'.status m.type active sn_type_connack connack on (ground arith)
  | inr off ↦
      subst (λ s. Edge connecting m.type (has_duration m) s) {x = connecting} (ground arith)
        (stay (ground arith))
]
update_in-Edge active c c' now m is h = update_active-Edge c c' now m is h
update_in-Edge asleep c c' now m is h = elim (Bool-cases (m.type == sn_type_connect)) [
  | inl on ↦
      to_edge asleep c'.status m.type connecting sn_type_connect reconnect_asleep on
        (accept_connect_status c c' now m (ground arith))
  | inr off ↦ elim (Bool-cases (m.type == sn_type_pingreq)) [
    | inl woken ↦ to_edge asleep c'.status m.type awake sn_type_pingreq wake woken (ground arith)
    | inr not_woken ↦
        subst (λ s. Edge asleep m.type (has_duration m) s) {x = asleep} (ground arith)
          (stay (ground arith))
  ]
]
update_in-Edge awake c c' now m is h = elim (Bool-cases (m.type == sn_type_connect)) [
  | inl on ↦
      to_edge awake c'.status m.type connecting sn_type_connect reconnect_awake on
        (accept_connect_status c c' now m (ground arith))
  | inr off ↦ elim (Bool-cases (m.type == sn_type_disconnect)) [
    | inl left ↦
        to_edge awake c'.status m.type disconnected sn_type_disconnect leave_awake left
          (ground arith)
    | inr not_left ↦ elim (Bool-cases (m.type == sn_type_pingresp)) [
      | inl slept ↦ to_edge awake c'.status m.type asleep sn_type_pingresp doze slept (ground arith)
      | inr not_slept ↦
          subst (λ s. Edge awake m.type (has_duration m) s) {x = awake} (ground arith)
            (stay (ground arith))
    ]
  ]
]

-- When `updateStatus` handles a message, the state follows the edge of the diagram for the type of the
-- message and, at a DISCONNECT, for whether its duration is 0; it stays exactly at the types that the
-- diagram has no edge for.
pub update_status-Edge :
    (c c' : ClientNode) (now : TimeVal) (m : SnMessage)
    → update_status c now m ≡ some c'
    → Edge c.status m.type (has_duration m) c'.status
unfolding update_status
update_status-Edge c c' now m h = update_in-Edge c.status c c' now m refl h

-- A CONNACK makes a connecting client active.
pub connack_activates :
    (c : ClientNode) (now : TimeVal) (m : SnMessage)
    → c.status ≡ connecting
    → m.type ≡ sn_type_connack
    → update_status c now m ≡ some (record c { status = active })
unfolding update_status update_in
connack_activates c now m waits is = rw (waits, is)
