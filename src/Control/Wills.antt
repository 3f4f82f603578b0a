-- ===== src/Control/Wills.antt =====
-- The CONNECT message that a client node keeps while it asks for a will (GatewayControlTask.cpp).
use mqtt_s_gateway.Base.{
  ℕ, zero, suc, ◌<◌, ◌≡◌, refl, none, some, List, [], ◌∷◌, arith, length, get_elem?, set, ◌>>=◌,
  sym, ap, ◌∙◌, Each, gives, Each-bind, from_each, inl, inr, Option-cases, subst, Bool, true, false,
  Option, ◌++◌, length-append, Each-read, Each-test,
}
use mqtt_s_gateway.Client.{
  Outgoing, connect_at, ClientNode, connect_message, change_connect, delete_broker_send_message,
  delete_outgoing, set_broker_send_message, new_connect_message,
}
use mqtt_s_gateway.Control.Connect.{
  handle_sn_will_topic, connect_for_broker, begin_session, send_connect, handle_sn_connect,
}
use mqtt_s_gateway.Control.Context.{Desk, send_broker, Each-printed, printed-none}
use mqtt_s_gateway.Mqtt.{MqttMessage, set_will_topic, set_will_qos}
use mqtt_s_gateway.Sn.{SnMessage}
use mqtt_s_gateway.Sn.Requests.{
  sn_will_topic, absorb_will_topic, will_qos, SnConnect, sn_connect, connect_duration,
  is_clean_session, is_will_required, absorb_connect,
}

none_below : (i : ℕ) → ¬ (i < 0)
none_below i h = omega arith

set_get :
    {A : Type 0} (xs : List A) (i : ℕ) (v : A) → i < length xs → get_elem? (set xs i v) i ≡ some v
set_get [] i v h = absurd (none_below i h)
set_get (x ∷ xs) zero v h = refl
set_get (x ∷ xs) (suc i) v h = set_get xs i v (omega arith)

-- The node's pointer to its CONNECT message leads to a message that was deleted.
record IsDangling (c : ClientNode) (at : ℕ) : Type 0 where
  pointer : c.mqtt_connect ≡ some at
  deleted : connect_message c at ≡ none

change_deleted :
    (c : ClientNode) (at : ℕ) (f : MqttMessage → MqttMessage)
    → connect_message c at ≡ none
    → change_connect c at f ≡ none
unfolding change_connect
change_deleted c at f gone = rw (gone, ◌>>=◌)

gone :
    (c : ClientNode) (at : ℕ) (rest : List Outgoing)
    → at < length c.connects
    → connect_message (record c { broker_send_que = rest; connects = set c.connects at none }) at
      ≡ none
unfolding connect_message
gone c at rest inside = rw (connect_message, set_get c.connects at none inside)

delete_front :
    (c : ClientNode) (at : ℕ) (rest : List Outgoing)
    → c.mqtt_connect ≡ some at
    → at < length c.connects
    → Each (λ c'. IsDangling c' at) (delete_outgoing (connect_at at ∷ rest) c)
unfolding delete_outgoing
delete_front c at rest keeps inside =
    Each-bind (connect_message c at) _
      (λ m. gives (record { pointer = keeps; deleted = gone c at rest inside }))

delete-IsDangling :
    (c c' : ClientNode) (at : ℕ) (rest : List Outgoing)
    → c.mqtt_connect ≡ some at
    → c.broker_send_que ≡ connect_at at ∷ rest
    → at < length c.connects
    → delete_broker_send_message c ≡ some c'
    → IsDangling c' at
unfolding delete_broker_send_message
delete-IsDangling c c' at rest keeps front inside e =
    from_each (delete_front c at rest keeps inside) (ap (λ q. delete_outgoing q c) (sym front) ∙ e)

dangling-faults :
    (d : Desk) (w : SnMessage) (at : ℕ) → IsDangling d.node at → handle_sn_will_topic d w ≡ none
unfolding handle_sn_will_topic
dangling-faults d w at h = printed-none w (elim (Option-cases (absorb_will_topic sn_will_topic w)) [
  | inl unread ↦ rw (unread, ◌>>=◌)
  | inr (t, reads) ↦ rw (
    reads,
    ◌>>=◌,
    h.pointer,
    change_deleted d.node at (λ m. set_will_qos (set_will_topic m t.topic_name) (will_qos t))
        h.deleted,
  )
])

dangling_will :
    (d : Desk) (c' : ClientNode) (w : SnMessage) (at : ℕ) (rest : List Outgoing)
    → d.node.mqtt_connect ≡ some at
    → d.node.broker_send_que ≡ connect_at at ∷ rest
    → at < length d.node.connects
    → delete_broker_send_message d.node ≡ some c'
    → handle_sn_will_topic (record d { node = c' }) w ≡ none
dangling_will d c' w at rest keeps front inside e =
    dangling-faults (record d { node = c' }) w at
      (delete-IsDangling d.node c' at rest keeps front inside e)

-- The pointer of the node leads to the CONNECT that stands alone in the queue for the broker.
record IsArmed (c : ClientNode) : Type 0 where
  at : ℕ
  pointer : c.mqtt_connect ≡ some at
  alone : c.broker_send_que ≡ connect_at at ∷ []
  inside : at < length c.connects

begin-IsArmed :
    (d : Desk) (duration : ℕ) (clean : Bool)
    → d.node.broker_send_que ≡ []
    → Each
        (λ d'. IsArmed d'.node)
        (send_connect (record d { node = begin_session d.node duration clean }))
unfolding send_connect begin_session new_connect_message send_broker set_broker_send_message
begin-IsArmed d duration true empty = gives (record {
  at = length d.node.connects;
  pointer = refl;
  alone = ap (λ q. q ++ connect_at (length d.node.connects) ∷ []) empty;
  inside =
      omega (
        arith,
        length-append d.node.connects (some (connect_for_broker d.node duration true) ∷ []),
      );
})
begin-IsArmed d duration false empty = gives (record {
  at = length d.node.connects;
  pointer = refl;
  alone = ap (λ q. q ++ connect_at (length d.node.connects) ∷ []) empty;
  inside =
      omega (
        arith,
        length-append d.node.connects (some (connect_for_broker d.node duration false) ∷ []),
      );
})

-- The flag for a will in a CONNECT is not set.
abbrev pub HasNoWill : Desk → SnMessage → Type 0
HasNoWill d msg =
    (c : SnConnect) × (absorb_connect d.unspecified.client_id sn_connect msg ≡ some c)
    × (is_will_required c.base ≡ some false)

some_same : {A : Type 0} {a b : A} {o : Option A} → o ≡ some a → o ≡ some b → a ≡ b
some_same p q = cc

connect-IsArmed :
    (d : Desk) (msg : SnMessage)
    → d.node.broker_send_que ≡ []
    → HasNoWill d msg
    → Each (λ d'. IsArmed d'.node) (handle_sn_connect d msg)
unfolding handle_sn_connect
connect-IsArmed d msg empty (c0, takes0, plain) = Each-printed msg (
    Each-read (absorb_connect d.unspecified.client_id sn_connect msg) _ (λ c takes.
      Each-bind (connect_duration c.base) _ (λ duration.
        Each-bind (is_clean_session c.base) _ (λ clean.
          Each-read (is_will_required c.base) _ (λ will reads.
            Each-test will (λ wanted. absurd (contra c will takes reads wanted))
              (λ unwanted. begin-IsArmed d duration clean empty))))))
  where
    contra :
        (c : SnConnect) (will : Bool)
        → absorb_connect d.unspecified.client_id sn_connect msg ≡ some c
        → is_will_required c.base ≡ some will
        → ¬ (will ≡ true)
    contra c will takes reads wanted =
        let same : c0 ≡ c = some_same takes0 takes in
        let both : false ≡ will =
          some_same (subst (λ x. is_will_required x.base ≡ some false) same plain) reads in
        ground (arith, both, wanted)

-- If nothing waited for the broker, a client sends a CONNECT without a will, and the CONNECT for the
-- broker was sent and deleted, then a WILLTOPIC of the client faults, at the latest at its access to
-- the deleted message.
pub will_topic_after_connect :
    (d d1 : Desk) (c' : ClientNode) (msg w : SnMessage)
    → d.node.broker_send_que ≡ []
    → HasNoWill d msg
    → handle_sn_connect d msg ≡ some d1
    → delete_broker_send_message d1.node ≡ some c'
    → handle_sn_will_topic (record d1 { node = c' }) w ≡ none
will_topic_after_connect d d1 c' msg w empty plain e deletes =
    let armed : IsArmed d1.node = from_each (connect-IsArmed d msg empty plain) e in
    dangling_will d1 c' w armed.at [] armed.pointer armed.alone armed.inside deletes
