-- ===== src/Client/Queues.antt =====
-- What a status update leaves alone, and the message queues of a client node
-- (TomyGateway/src/GatewayResourcesProvider.cpp).
use mqtt_s_gateway.Base.{
  ℕ, ◌≡◌, refl, some, u16, ◌*◌, ◌/◌, Bool, true, false, Option, none, ◌==◌, if◌then◌else◌, nonzero,
  ◌>>=◌, Each, fails, gives, Each-bind, Each-if, from_each, ◌⊎◌, inl, inr,
}
use mqtt_s_gateway.Client.{
  ClientStatus, disconnected, connecting, active, asleep, awake, lost, ClientNode, set_keep_alive,
  update_active, accept_connect, update_in, update_status,
}
use mqtt_s_gateway.Sn.{SnMessage, body_uint16}
use mqtt_s_gateway.Sn.Requests.{connect_duration}
use mqtt_s_gateway.Sn.Types.{
  sn_type_disconnect, sn_type_connect, sn_type_pingresp, sn_type_publish, sn_type_regack,
  sn_type_puback,
}
use mqtt_s_gateway.Timer.{TimeVal, Timer, start}

-- Two nodes with the same queues, CONNECT messages, topic table and message ids.
pub record SameQueues (c c' : ClientNode) : Type 0 where
  pub broker_send : c'.broker_send_que ≡ c.broker_send_que
  pub broker_recv : c'.broker_recv_que ≡ c.broker_recv_que
  pub client_send : c'.client_send_que ≡ c.client_send_que
  pub client_recv : c'.client_recv_que ≡ c.client_recv_que
  pub connects : c'.connects ≡ c.connects
  pub topics : c'.topics ≡ c.topics
  pub msg_id : c'.msg_id ≡ c.msg_id
  pub sn_msg_id : c'.sn_msg_id ≡ c.sn_msg_id

rebuilt :
    (c : ClientNode) (s : ClientStatus) (msec : ℕ) (t : Timer)
    → SameQueues c (record c { status = s; keep_alive_msec = msec; keep_alive_timer = t })
rebuilt c s msec t = record {
  broker_send = refl;
  broker_recv = refl;
  client_send = refl;
  client_recv = refl;
  connects = refl;
  topics = refl;
  msg_id = refl;
  sn_msg_id = refl;
}

accept_connect-SameQueues :
    (c : ClientNode) (now : TimeVal) (m : SnMessage) → Each (SameQueues c) (accept_connect c now m)
unfolding accept_connect set_keep_alive
accept_connect-SameQueues c now m = known (connect_duration m)
  where
    known :
        (reads : Option ℕ)
        → Each (SameQueues c) (
            (reads >>= λ duration.
            let msec = u16 (duration * 1000) in
            some (record c { keep_alive_msec = msec; keep_alive_timer = start now (msec * 3 / 2) }))
            >>= λ c'. some (record c' { status = connecting }))
    known none = fails
    known (some duration) = gives (rebuilt c _ _ _)

leave_or_sleep :
    (c : ClientNode) (t u : Bool)
    → Each (SameQueues c) (
        some (
          if t
          then record c { status = disconnected }
          else if u
          then record c { status = asleep }
          else c))
leave_or_sleep c true u = gives (rebuilt c _ _ _)
leave_or_sleep c false true = gives (rebuilt c _ _ _)
leave_or_sleep c false false = gives (rebuilt c _ _ _)

either :
    (c x y : ClientNode) (t : Bool)
    → SameQueues c x
    → SameQueues c y
    → Each (SameQueues c) (some (if t then x else y))
either c x y true hx hy = gives hx
either c x y false hx hy = gives hy

update_active-SameQueues :
    (c : ClientNode) (now : TimeVal) (m : SnMessage) → Each (SameQueues c) (update_active c now m)
unfolding update_active
update_active-SameQueues c now m = Each-if _ (gives (rebuilt c _ _ _)) (
    Each-if (m.type == sn_type_disconnect)
      (Each-bind (body_uint16 m 0) _
        (λ duration. either c _ _ (nonzero duration) (rebuilt c _ _ _) (rebuilt c _ _ _)))
      (gives (rebuilt c _ _ _)))

update_in-SameQueues :
    (s : ClientStatus) (c : ClientNode) (now : TimeVal) (m : SnMessage)
    → Each (SameQueues c) (update_in s c now m)
unfolding update_in
update_in-SameQueues disconnected c now m =
    Each-if _ (accept_connect-SameQueues c now m) (gives (rebuilt c _ _ _))
update_in-SameQueues lost c now m =
    Each-if _ (accept_connect-SameQueues c now m) (gives (rebuilt c _ _ _))
update_in-SameQueues connecting c now m = either c _ _ _ (rebuilt c _ _ _) (rebuilt c _ _ _)
update_in-SameQueues active c now m = update_active-SameQueues c now m
update_in-SameQueues asleep c now m =
    Each-if _ (accept_connect-SameQueues c now m)
      (either c _ _ _ (rebuilt c _ _ _) (rebuilt c _ _ _))
update_in-SameQueues awake c now m =
    Each-if (m.type == sn_type_connect) (accept_connect-SameQueues c now m)
      (leave_or_sleep c (m.type == sn_type_disconnect) (m.type == sn_type_pingresp))

pub update_status-SameQueues :
    (c : ClientNode) (now : TimeVal) (m : SnMessage) → Each (SameQueues c) (update_status c now m)
unfolding update_status
update_status-SameQueues c now m = update_in-SameQueues c.status c now m

-- Types of messages that no state of a client node takes notice of.
abbrev pub IsIgnored : ℕ → Type 0
IsIgnored t = (t ≡ sn_type_puback) ⊎ (t ≡ sn_type_regack)

pub update_status-ignored :
    (c : ClientNode) (now : TimeVal) (m : SnMessage)
    → IsIgnored m.type
    → update_status c now m ≡ some c
unfolding update_status update_active
update_status-ignored c now m is = in_state c.status is
  where
    in_state : (s : ClientStatus) → IsIgnored m.type → update_in s c now m ≡ some c
    in_state disconnected (inl e) = rw e refl
    in_state disconnected (inr e) = rw e refl
    in_state lost (inl e) = rw e refl
    in_state lost (inr e) = rw e refl
    in_state connecting (inl e) = rw e refl
    in_state connecting (inr e) = rw e refl
    in_state active (inl e) = rw e refl
    in_state active (inr e) = rw e refl
    in_state asleep (inl e) = rw e refl
    in_state asleep (inr e) = rw e refl
    in_state awake (inl e) = rw e refl
    in_state awake (inr e) = rw e refl

-- No state of a client node faults for a PUBLISH.
pub update_status-publish :
    (c : ClientNode) (now : TimeVal) (m : SnMessage)
    → m.type ≡ sn_type_publish
    → (c' : ClientNode) × (update_status c now m ≡ some c')
      × SameQueues c c'
      × (c'.address64 ≡ c.address64)
      × (c'.address16 ≡ c.address16)
unfolding update_status update_active
update_status-publish c now m e =
    let (c', updates, far, near) = in_state c.status in
    (c', updates, from_each (update_status-SameQueues c now m) updates, far, near)
  where
    in_state :
        (s : ClientStatus)
        → (c' : ClientNode) × (update_in s c now m ≡ some c')
          × (c'.address64 ≡ c.address64)
          × (c'.address16 ≡ c.address16)
    in_state disconnected = (c, rw e refl, refl, refl)
    in_state lost = (c, rw e refl, refl, refl)
    in_state connecting = (c, rw e refl, refl, refl)
    in_state active = (
      record c { keep_alive_timer = start now (c.keep_alive_msec * 3 / 2) },
      rw e refl,
      refl,
      refl,
    )
    in_state asleep = (c, rw e refl, refl, refl)
    in_state awake = (c, rw e refl, refl, refl)
