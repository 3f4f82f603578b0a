-- ===== src/Sn/Builders/Absorbing.antt =====
-- A message that one side writes with the setters of TomyGateway/src/libmq/Messages.cpp is read by the
-- `absorb` of the other side.
use mqtt_s_gateway.Base.{
  Str, u8, ℕ, suc, ◌+◌, ◌≤◌, bit_and, ◌≡◌, refl, some, ◌∷◌, ◌++◌, arith, length, replicate, ◌>>=◌,
  [], IsU16, u16, ◌*◌, ◌/◌, ◌%◌, ◌-◌, false, ltb, drop,
}
use mqtt_s_gateway.Bytes.{set_uint16, get_uint16}
use mqtt_s_gateway.Sn.{SnMessage, put, body_text}
use mqtt_s_gateway.Sn.Builders.{set_register_topic_id, set_register_msg_id, set_register_topic_name}
use mqtt_s_gateway.Sn.Builders.Blocks.{
  write_over, write_end, message_of, allocate_lem, read_block_all, absorb-message_of,
}
use mqtt_s_gateway.Sn.Replies.{publish_flags, publish_topic_id, publish_msg_id, publish_data}
use mqtt_s_gateway.Sn.Requests.{
  SnPublish, sn_publish, absorb_publish, data_bytes, data_length, SnRegister, sn_register,
  absorb_register,
}

-- A write into the body of a message, by the bytes before, at and behind the place.
pub put_over :
    (m : SnMessage) (pre old new rest : Str) (at : ℕ)
    → m.message ≡ pre ++ (old ++ rest)
    → 2 + at ≡ length pre
    → length old ≡ length new
    → put m at new ≡ some (record m { message = pre ++ (new ++ rest) })
unfolding put
put_over m pre old new rest at e place same =
    rw (e, place, write_over pre old new rest same, ◌>>=◌) refl

pub put_end :
    (m : SnMessage) (pre text : Str) (at : ℕ)
    → m.message ≡ pre ++ replicate (length text) 0
    → 2 + at ≡ length pre
    → put m at text ≡ some (record m { message = pre ++ text })
unfolding put
put_end m pre text at e place = rw (e, place, write_end pre text, ◌>>=◌) refl

-- The body of a PUBLISH.
abbrev pub publish_body : ℕ → ℕ → ℕ → Str → Str
publish_body flags topic_id msg_id bytes =
    flags ∷ (set_uint16 topic_id ++ (set_uint16 msg_id ++ bytes))

-- setData writes the ids and the flags that were set before in front of the data.
pub publish_data_lem :
    (p : SnPublish) (bytes : Str)
    → length bytes ≤ 248
    → publish_data p bytes
      ≡ some (record {
        base =
            message_of p.base.type (publish_body (bit_and p.flags 0xf3) p.topic_id p.msg_id bytes);
        flags = bit_and p.flags 0xf3;
        topic_id = p.topic_id;
        msg_id = p.msg_id;
      })
unfolding publish_data publish_topic_id publish_msg_id publish_flags set_uint16
publish_data_lem p bytes fits =
    let n : ℕ = length bytes in
    let counted : u8 (7 + n) ≡ n + 7 = omega (arith, fits) in
    let with_body : Str → SnMessage =
      λ body. record p.base { message = (n + 7) ∷ p.base.type ∷ body; length_byte = n + 7 } in
    let head : Str = (n + 7) ∷ p.base.type ∷ [] in
    let len : n + 7 ≡ suc (suc (suc (suc (suc n)))) + 2 = omega arith in
    let ids : Str = set_uint16 p.topic_id ++ set_uint16 p.msg_id in
    rw
      (
        counted,
        allocate_lem (record p.base { length_byte = n + 7 }) (suc (suc (suc (suc (suc n)))))
            (omega arith),
        ◌>>=◌,
        put_end (with_body (0 ∷ 0 ∷ 0 ∷ 0 ∷ 0 ∷ replicate n 0)) (head ++ (0 ∷ 0 ∷ 0 ∷ 0 ∷ 0 ∷ []))
            bytes 5 refl refl,
        ◌>>=◌,
        put_over (with_body (0 ∷ 0 ∷ 0 ∷ 0 ∷ 0 ∷ bytes)) (head ++ 0 ∷ []) (0 ∷ 0 ∷ [])
            (set_uint16 p.topic_id) (0 ∷ 0 ∷ bytes) 1 refl refl refl,
        ◌>>=◌,
        put_over (with_body (0 ∷ (set_uint16 p.topic_id ++ 0 ∷ 0 ∷ bytes)))
            (head ++ 0 ∷ set_uint16 p.topic_id) (0 ∷ 0 ∷ []) (set_uint16 p.msg_id) bytes 3 refl refl
            refl,
        ◌>>=◌,
        put_over (with_body (0 ∷ (ids ++ bytes))) head (0 ∷ []) (bit_and p.flags 0xf3 ∷ [])
            (ids ++ bytes) 0 refl refl refl,
        ◌>>=◌,
      )
      (rw len refl)

-- What is read where a number was written.
pub uint16_back : (n : ℕ) → IsU16 n → u16 (u16 (n / 256 % 256 * 256) + n % 256) ≡ n
uint16_back n h = omega (arith, h)

-- The text at the end of a message.
pub text_lem :
    (m : SnMessage) (at less : ℕ) (text : Str)
    → m.length_byte ≡ length text + less
    → drop (2 + at) m.message ≡ text
    → body_text m at less ≡ some text
unfolding body_text
text_lem m at less text e behind =
    let enough : ltb (length text + less) less ≡ false = ground arith in
    let left : length text + less - less ≡ length text = omega arith in
    rw (e, enough, left, behind, read_block_all text) refl

-- A PUBLISH whose block and fields agree.
abbrev pub written_publish : ℕ → ℕ → ℕ → ℕ → Str → SnPublish
written_publish type flags topic_id msg_id bytes = record {
  base = message_of type (publish_body flags topic_id msg_id bytes);
  flags = flags;
  topic_id = topic_id;
  msg_id = msg_id;
}

pub absorb_publish_lem :
    (type flags topic_id msg_id : ℕ) (bytes : Str)
    → IsU16 topic_id
    → IsU16 msg_id
    → length bytes ≤ 248
    → absorb_publish sn_publish (written_publish type flags topic_id msg_id bytes).base
      ≡ some (written_publish type flags topic_id msg_id bytes)
unfolding absorb_publish get_uint16 set_uint16
absorb_publish_lem type flags topic_id msg_id bytes topic id fits =
    rw
      (
        absorb-message_of sn_publish.base type (publish_body flags topic_id msg_id bytes)
            (omega (arith, fits)),
        ◌>>=◌,
        uint16_back topic_id topic,
        uint16_back msg_id id,
      )
      refl

pub data_bytes_lem :
    (type flags topic_id msg_id : ℕ) (bytes : Str)
    → length bytes ≤ 248
    → data_bytes (written_publish type flags topic_id msg_id bytes) ≡ some bytes
unfolding data_bytes data_length set_uint16
data_bytes_lem type flags topic_id msg_id bytes fits =
    let counted : u8 (u8 (suc (suc (suc (suc (suc (length bytes))))) + 2 + 254) + 251)
        ≡ length bytes =
      omega (arith, fits) in
    rw (counted, read_block_all bytes) refl

-- A PUBLISH with at most 248 bytes of data, whose ids are 16-bit numbers, is read back with the
-- same ids and data, and with the flags that setFlags keeps.
pub absorb_publish-publish_data :
    (p : SnPublish) (bytes : Str)
    → IsU16 p.topic_id
    → IsU16 p.msg_id
    → length bytes ≤ 248
    → (q : SnPublish) × (publish_data p bytes ≡ some q)
      × (absorb_publish sn_publish q.base ≡ some q)
      × (data_bytes q ≡ some bytes)
      × (q.topic_id ≡ p.topic_id)
      × (q.msg_id ≡ p.msg_id)
      × (q.flags ≡ bit_and p.flags 0xf3)
absorb_publish-publish_data p bytes topic id fits =
    let flags : ℕ = bit_and p.flags 0xf3 in
    (
      written_publish p.base.type flags p.topic_id p.msg_id bytes,
      publish_data_lem p bytes fits,
      absorb_publish_lem p.base.type flags p.topic_id p.msg_id bytes topic id fits,
      data_bytes_lem p.base.type flags p.topic_id p.msg_id bytes fits,
      refl,
      refl,
      refl,
    )

-- A REGISTER for a topic name of at most 249 bytes, whose ids are 16-bit numbers, is read back with the
-- same name and ids.
pub absorb_register-set_register_topic_name :
    (r : SnRegister) (name : Str)
    → IsU16 r.topic_id
    → IsU16 r.msg_id
    → length name ≤ 249
    → (q : SnRegister) × (set_register_topic_name r name ≡ some q)
      × (absorb_register sn_register q.base ≡ some (record q { topic_name = name }))
unfolding set_register_topic_name set_register_topic_id set_register_msg_id set_uint16 get_uint16
    absorb_register body_text
absorb_register-set_register_topic_name r name topic id fits =
    let n : ℕ = length name in
    let counted : u8 (6 + n) ≡ n + 6 = omega (arith, fits) in
    let with_body : Str → SnMessage =
      λ body. record r.base { message = (n + 6) ∷ r.base.type ∷ body; length_byte = n + 6 } in
    let head : Str = (n + 6) ∷ r.base.type ∷ [] in
    let len : n + 6 ≡ suc (suc (suc (suc n))) + 2 = omega arith in
    let ids : Str = set_uint16 r.topic_id ++ set_uint16 r.msg_id in
    let base : SnMessage = message_of r.base.type (ids ++ name) in
    (
      record r { base = base },
      rw
          (
            counted,
            allocate_lem (record r.base { length_byte = n + 6 }) (suc (suc (suc (suc n))))
                (omega arith),
            ◌>>=◌,
            put_end (with_body (0 ∷ 0 ∷ 0 ∷ 0 ∷ replicate n 0)) (head ++ (0 ∷ 0 ∷ 0 ∷ 0 ∷ [])) name
                4 refl refl,
            ◌>>=◌,
            put_over (with_body (0 ∷ 0 ∷ 0 ∷ 0 ∷ name)) head (0 ∷ 0 ∷ []) (set_uint16 r.topic_id)
                (0 ∷ 0 ∷ name) 0 refl refl refl,
            ◌>>=◌,
            put_over (with_body (set_uint16 r.topic_id ++ 0 ∷ 0 ∷ name))
                (head ++ set_uint16 r.topic_id) (0 ∷ 0 ∷ []) (set_uint16 r.msg_id) name 2 refl refl
                refl,
            ◌>>=◌,
          )
          (rw len refl),
      rw
          (
            text_lem base 4 6 name (omega arith) refl,
            ◌>>=◌,
            absorb-message_of sn_register.base r.base.type (ids ++ name) (omega (arith, fits)),
            ◌>>=◌,
            uint16_back r.topic_id topic,
            uint16_back r.msg_id id,
          )
          refl,
    )
