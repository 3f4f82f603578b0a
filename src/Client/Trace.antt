-- ===== src/Client/Trace.antt =====
-- Runs of a client node through the states of `ClientNode::updateStatus` and `checkTimeover`
-- (TomyGateway/src/GatewayResourcesProvider.cpp).
use mqtt_s_gateway.Base.{ℕ, ◌≡◌, refl, sym, subst, some, List, [], ◌∷◌, arith, Bool}
use mqtt_s_gateway.Client.{
  ClientStatus, active, ClientNode, check_timeover, update_status, disconnected, connecting, asleep,
  awake, lost, update_to,
}
use mqtt_s_gateway.Client.Status.{
  Edge, stay, connect, reconnect_lost, reconnect_asleep, reconnect_awake, connack, sleep, leave,
  wake, doze, leave_awake, update_status-Edge,
}
use mqtt_s_gateway.Sn.{SnMessage}
use mqtt_s_gateway.Sn.Types.{sn_type_connect, sn_type_connack}
use mqtt_s_gateway.Timer.{TimeVal}

-- A run of a node, with the types of the messages that it queued. Between them its timer is checked,
-- the connection to the broker fails, and its other fields change.
pub data Run : ClientNode → List ℕ → ClientNode → Type 0 where
  done : {c : ClientNode} → Run c [] c
  message :
      {c c1 c2 : ClientNode} {ts : List ℕ} (now : TimeVal) (m : SnMessage)
      → update_status c now m ≡ some c1
      → Run c1 ts c2
      → Run c (m.type ∷ ts) c2
  tick :
      {c c1 c2 : ClientNode} {ts : List ℕ} (now : TimeVal)
      → check_timeover c now ≡ c1
      → Run c1 ts c2
      → Run c ts c2
  broker_error :
      {c c2 : ClientNode} {ts : List ℕ} → Run (update_to c disconnected) ts c2 → Run c ts c2
  other : {c c1 c2 : ClientNode} {ts : List ℕ} → c1.status ≡ c.status → Run c1 ts c2 → Run c ts c2

-- A type that stands in a list.
pub data Occurs (t : ℕ) : List ℕ → Type 0 where
  here : {ts : List ℕ} → Occurs t (t ∷ ts)
  later : {u : ℕ} {ts : List ℕ} → Occurs t ts → Occurs t (u ∷ ts)

-- A CONNECT, and a CONNACK somewhere behind it.
pub data Handshake : List ℕ → Type 0 where
  begins : {ts : List ℕ} → Occurs sn_type_connack ts → Handshake (sn_type_connect ∷ ts)
  skip : {u : ℕ} {ts : List ℕ} → Handshake ts → Handshake (u ∷ ts)

-- How far a state is from `active`.
pub data Far : ClientStatus → Type 0 where
  far_disconnected : Far disconnected
  far_lost : Far lost
  far_asleep : Far asleep
  far_awake : Far awake

data Near : ClientStatus → Type 0 where
  far : {s : ClientStatus} → Far s → Near s
  near_connecting : Near connecting

data NearStep (t : ℕ) (s' : ClientStatus) : Type 0 where
  stays : Near s' → NearStep t s'
  connacks : t ≡ sn_type_connack → NearStep t s'

near_step : {s s' : ClientStatus} {t : ℕ} {long : Bool} → Edge s t long s' → Near s → NearStep t s'
near_step (stay quiet) near = stays near
near_step connect near = stays near_connecting
near_step reconnect_lost near = stays near_connecting
near_step reconnect_asleep near = stays near_connecting
near_step reconnect_awake near = stays near_connecting
near_step connack near = connacks refl
near_step sleep near = stays (far far_asleep)
near_step leave near = stays (far far_disconnected)
near_step wake near = stays (far far_awake)
near_step doze near = stays (far far_asleep)
near_step leave_awake near = stays (far far_disconnected)

data FarStep (t : ℕ) (s' : ClientStatus) : Type 0 where
  stays : Far s' → FarStep t s'
  calls : t ≡ sn_type_connect → Near s' → FarStep t s'

far_step : {s s' : ClientStatus} {t : ℕ} {long : Bool} → Edge s t long s' → Far s → FarStep t s'
far_step (stay quiet) f = stays f
far_step connect f = calls refl near_connecting
far_step reconnect_lost f = calls refl near_connecting
far_step reconnect_asleep f = calls refl near_connecting
far_step reconnect_awake f = calls refl near_connecting
far_step connack f = elim f [ ]
far_step sleep f = stays far_asleep
far_step leave f = stays far_disconnected
far_step wake f = stays far_awake
far_step doze f = stays far_asleep
far_step leave_awake f = stays far_disconnected

ticked :
    (c : ClientNode) (now : TimeVal) (c1 : ClientNode)
    → check_timeover c now ≡ c1
    → ¬ (c.status ≡ active)
    → c.status ≡ c1.status
unfolding check_timeover
ticked c now c1 step off = ground arith

Near-active : {s : ClientStatus} → Near s → ¬ (s ≡ active)
Near-active (far far_disconnected) e = cc
Near-active (far far_lost) e = cc
Near-active (far far_asleep) e = cc
Near-active (far far_awake) e = cc
Near-active near_connecting e = cc

Occurs-first : {t u : ℕ} {ts : List ℕ} → t ≡ u → Occurs u (t ∷ ts)
Occurs-first {u = u} {ts = ts} is = subst (λ t. Occurs u (t ∷ ts)) (sym is) here

Handshake-first :
    {t : ℕ} {ts : List ℕ} → t ≡ sn_type_connect → Occurs sn_type_connack ts → Handshake (t ∷ ts)
Handshake-first {ts = ts} is occurs = subst (λ t. Handshake (t ∷ ts)) (sym is) (begins occurs)

Near-Occurs :
    {c c' : ClientNode} {ts : List ℕ}
    → Run c ts c'
    → Near c.status
    → c'.status ≡ active
    → Occurs sn_type_connack ts
Near-Occurs done near on = absurd (Near-active near on)
Near-Occurs {c = c} (message {c1 = c1} now m step run) near on =
    elim (near_step (update_status-Edge c c1 now m step) near) [
      | stays still ↦ later (Near-Occurs run still on)
      | connacks is ↦ Occurs-first is
    ]
Near-Occurs {c = c} (tick now step run) near on =
    Near-Occurs run (subst Near (ticked c now _ step (Near-active near)) near) on
Near-Occurs (broker_error run) near on = Near-Occurs run (far far_disconnected) on
Near-Occurs (other same run) near on = Near-Occurs run (subst Near (sym same) near) on

Far-Handshake :
    {c c' : ClientNode} {ts : List ℕ}
    → Run c ts c'
    → Far c.status
    → c'.status ≡ active
    → Handshake ts
Far-Handshake done f on = absurd (Near-active (far f) on)
Far-Handshake {c = c} (message {c1 = c1} now m step run) f on =
    elim (far_step (update_status-Edge c c1 now m step) f) [
      | stays still ↦ skip (Far-Handshake run still on)
      | calls is near ↦ Handshake-first is (Near-Occurs run near on)
    ]
Far-Handshake {c = c} (tick now step run) f on =
    Far-Handshake run (subst Far (ticked c now _ step (Near-active (far f))) f) on
Far-Handshake (broker_error run) f on = Far-Handshake run far_disconnected on
Far-Handshake (other same run) f on = Far-Handshake run (subst Far (sym same) f) on

-- A client node that was disconnected becomes active only after it queued a CONNECT and, later, a
-- CONNACK, however its timer runs out and its connection to the broker fails in between.
pub active_by-Handshake :
    {c c' : ClientNode} {ts : List ℕ}
    → Run c ts c'
    → c.status ≡ disconnected
    → c'.status ≡ active
    → Handshake ts
active_by-Handshake run off on = Far-Handshake run (subst Far (sym off) far_disconnected) on
