-- ===== src/Sn/Builders/Texts.antt =====
-- The texts of a SUBSCRIBE, a WILLTOPIC and a WILLMSG that a client writes with the setters of
-- TomyGateway/src/libmq/Messages.cpp are read by the `absorb` of the gateway.
use mqtt_s_gateway.Base.{
  Str, IsU16, u8, ℕ, suc, ◌+◌, ◌≤◌, bit_and, bit_or, ◌≡◌, refl, some, [], ◌∷◌, ◌++◌, arith, length,
  replicate, ◌>>=◌,
}
use mqtt_s_gateway.Bytes.{get_uint16, set_uint16}
use mqtt_s_gateway.Sn.{SnMessage, sn_message}
use mqtt_s_gateway.Sn.Builders.{
  set_will_topic, set_will_msg, set_subscribe_flags, set_subscribe_msg_id, set_subscribe_topic_name,
}
use mqtt_s_gateway.Sn.Builders.Absorbing.{put_over, put_end, uint16_back, text_lem}
use mqtt_s_gateway.Sn.Builders.Blocks.{message_of, allocate_lem, absorb-message_of}
use mqtt_s_gateway.Sn.Requests.{
  SnSubscribe, sn_subscribe, absorb_subscribe, SnWillTopic, sn_will_topic, absorb_will_topic,
  absorb_will_msg,
}
use mqtt_s_gateway.Sn.Types.{sn_type_willtopic, sn_topic_type_normal, sn_topic_type}

-- A SUBSCRIBE for a topic name of at most 250 bytes, with a 16-bit message id and flags that setFlags
-- keeps and that say a normal topic, is read back with the same name, flags and message id.
pub absorb_subscribe-set_subscribe_topic_name :
    (s : SnSubscribe) (name : Str) (stale : ℕ)
    → IsU16 s.msg_id
    → bit_and (bit_or s.flags sn_topic_type_normal) 0xe3 ≡ s.flags
    → bit_and s.flags sn_topic_type ≡ sn_topic_type_normal
    → length name ≤ 250
    → (q : SnSubscribe) × (set_subscribe_topic_name s name ≡ some q)
      × (absorb_subscribe stale (record sn_subscribe { topic_id = s.topic_id }) q.base ≡ some q)
      × (q.topic_name ≡ name)
      × (q.flags ≡ s.flags)
      × (q.msg_id ≡ s.msg_id)
unfolding set_subscribe_topic_name set_subscribe_msg_id set_subscribe_flags set_uint16 get_uint16
    absorb_subscribe
absorb_subscribe-set_subscribe_topic_name s name stale id kept normal fits =
    let n : ℕ = length name in
    let counted : u8 (5 + n) ≡ n + 5 = omega (arith, fits) in
    let with_body : Str → SnMessage =
      λ body. record s.base { message = (n + 5) ∷ s.base.type ∷ body; length_byte = n + 5 } in
    let head : Str = (n + 5) ∷ s.base.type ∷ [] in
    let len : n + 5 ≡ suc (suc (suc n)) + 2 = omega arith in
    let body : Str = s.flags ∷ (set_uint16 s.msg_id ++ name) in
    let base : SnMessage = message_of s.base.type body in
    (
      record s { base = base; topic_name = name },
      rw
          (
            counted,
            allocate_lem (record s.base { length_byte = n + 5 }) (suc (suc (suc n))) (omega arith),
            ◌>>=◌,
            put_end (with_body (0 ∷ 0 ∷ 0 ∷ replicate n 0)) (head ++ (0 ∷ 0 ∷ 0 ∷ [])) name 3 refl
                refl,
            ◌>>=◌,
            put_over (with_body (0 ∷ 0 ∷ 0 ∷ name)) (head ++ 0 ∷ []) (0 ∷ 0 ∷ [])
                (set_uint16 s.msg_id) name 1 refl refl refl,
            ◌>>=◌,
            kept,
            put_over (with_body (0 ∷ (set_uint16 s.msg_id ++ name))) head (0 ∷ []) (s.flags ∷ [])
                (set_uint16 s.msg_id ++ name) 0 refl refl refl,
            ◌>>=◌,
          )
          (rw len refl),
      rw
          (
            normal,
            text_lem base 3 5 name (omega arith) refl,
            ◌>>=◌,
            absorb-message_of sn_subscribe.base s.base.type body (omega (arith, fits)),
            ◌>>=◌,
            uint16_back s.msg_id id,
          )
          refl,
      refl,
      refl,
      refl,
    )

-- A WILLTOPIC for a name of at most 252 bytes, with flags that setFlags keeps, is read back with
-- the same name and flags.
pub absorb_will_topic-set_will_topic :
    (w : SnWillTopic) (topic : Str)
    → bit_and w.flags 0x70 ≡ w.flags
    → length topic ≤ 252
    → (q : SnWillTopic) × (set_will_topic w topic ≡ some q)
      × (absorb_will_topic sn_will_topic q.base ≡ some q)
      × (q.topic_name ≡ topic)
      × (q.flags ≡ w.flags)
unfolding set_will_topic absorb_will_topic
absorb_will_topic-set_will_topic w topic kept fits =
    let n : ℕ = length topic in
    let counted : u8 (n + 3) ≡ n + 3 = omega (arith, fits) in
    let with_body : Str → SnMessage =
      λ body. record w.base { message = (n + 3) ∷ w.base.type ∷ body; length_byte = n + 3 } in
    let head : Str = (n + 3) ∷ w.base.type ∷ [] in
    let len : n + 3 ≡ suc n + 2 = omega arith in
    let base : SnMessage = message_of w.base.type (w.flags ∷ topic) in
    (
      record w { base = base; topic_name = topic },
      rw
          (
            counted,
            allocate_lem (record w.base { length_byte = n + 3 }) (suc n) (omega arith),
            ◌>>=◌,
            put_end (with_body (0 ∷ replicate n 0)) (head ++ 0 ∷ []) topic 1 refl refl,
            ◌>>=◌,
            put_over (with_body (0 ∷ topic)) head (0 ∷ []) (w.flags ∷ []) topic 0 refl refl refl,
            ◌>>=◌,
          )
          (rw len refl),
      rw
          (
            kept,
            put_over sn_will_topic.base (3 ∷ sn_type_willtopic ∷ []) (0 ∷ []) (w.flags ∷ []) [] 0
                (unfold sn_will_topic sn_message in refl) refl refl,
            ◌>>=◌,
            text_lem base 1 3 topic (omega arith) refl,
            ◌>>=◌,
            absorb-message_of _ w.base.type (w.flags ∷ topic) (omega (arith, fits)),
            ◌>>=◌,
          )
          refl,
      refl,
      refl,
    )

-- A WILLMSG of at most 253 bytes is read back.
pub absorb_will_msg-set_will_msg :
    (m : SnMessage) (text : Str)
    → length text ≤ 253
    → (q : SnMessage) × (set_will_msg m text ≡ some (q, text)) × (absorb_will_msg q ≡ some text)
unfolding set_will_msg absorb_will_msg
absorb_will_msg-set_will_msg m text fits =
    let n : ℕ = length text in
    let counted : u8 (2 + n) ≡ n + 2 = omega (arith, fits) in
    let base : SnMessage = message_of m.type text in
    (
      base,
      rw
          (
            counted,
            allocate_lem (record m { length_byte = n + 2 }) n (omega arith),
            ◌>>=◌,
            put_end (record m { message = (n + 2) ∷ m.type ∷ replicate n 0; length_byte = n + 2 })
                ((n + 2) ∷ m.type ∷ []) text 0 refl refl,
            ◌>>=◌,
          )
          refl,
      rw
          (
            text_lem base 0 2 text (omega arith) refl,
            ◌>>=◌,
            absorb-message_of _ m.type text fits,
            ◌>>=◌,
          )
          refl,
    )
