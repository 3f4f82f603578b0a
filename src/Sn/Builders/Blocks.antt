-- ===== src/Sn/Builders/Blocks.antt =====
-- Writing into and reading from the block of a message of TomyGateway/src/libmq/Messages.cpp.
use mqtt_s_gateway.Base.{
  Str, ◌+◌, ◌≤◌, ◌≡◌, refl, subst, ◌∙◌, true, some, [], ◌∷◌, ◌++◌, append-nil, append_assoc, arith,
  leb, length, drop, replicate, length-append, take-append, drop-append, length-replicate, u8, ℕ,
  ◌-◌, false, ◌==◌, take_all, ◌>>=◌, suc, ap,
}
use mqtt_s_gateway.Mqtt.Deserialize.{read_block}
use mqtt_s_gateway.Sn.{SnMessage, allocate, write_block, put, absorb, absorb_response}

drop_both : (xs ys rest : Str) → drop (length xs + length ys) (xs ++ (ys ++ rest)) ≡ rest
drop_both xs ys rest =
    subst (λ n. drop n (xs ++ (ys ++ rest)) ≡ rest) (length-append xs ys)
      (subst (λ zs. drop (length (xs ++ ys)) zs ≡ rest) (append_assoc xs ys rest)
        (drop-append (xs ++ ys) rest))

-- Bytes that are written over as many others.
pub write_over :
    (pre old new rest : Str)
    → length old ≡ length new
    → write_block (pre ++ (old ++ rest)) (length pre) new ≡ some (pre ++ (new ++ rest))
unfolding write_block
write_over pre old new rest same =
    let fits : leb (length pre + length new) (length (pre ++ (old ++ rest))) ≡ true =
      ground (arith, length-append pre (old ++ rest), length-append old rest) in
    let behind : drop (length pre + length new) (pre ++ (old ++ rest)) ≡ rest =
      subst (λ n. drop (length pre + n) (pre ++ (old ++ rest)) ≡ rest) same
        (drop_both pre old rest) in
    rw (fits, take-append pre (old ++ rest), behind) refl

-- A text that is copied to the end of a new block.
pub write_end :
    (pre text : Str)
    → write_block (pre ++ replicate (length text) 0) (length pre) text ≡ some (pre ++ text)
write_end pre text =
    subst (λ old. write_block (pre ++ old) (length pre) text ≡ some (pre ++ text))
      (append-nil (replicate (length text) 0))
      (write_over pre (replicate (length text) 0) text [] (length-replicate (length text) 0)
        ∙ rw (append-nil text) refl)

-- The message with a type and a body.
abbrev pub message_of : ℕ → Str → SnMessage
message_of type body = record {
  message = (length body + 2) ∷ type ∷ body;
  length_byte = length body + 2;
  type = type;
}

pub allocate_lem :
    (m : SnMessage) (n : ℕ)
    → m.length_byte ≡ n + 2
    → allocate m ≡ some (record m { message = m.length_byte ∷ m.type ∷ replicate n 0 })
unfolding allocate
allocate_lem m n e =
    let some_bytes : (m.length_byte == 0) ≡ false = ground (arith, e) in
    let two_bytes : (m.length_byte == 1) ≡ false = ground (arith, e) in
    let left : m.length_byte - 2 ≡ n = omega (arith, e) in rw (some_bytes, two_bytes, left) refl

pub read_block_all : (xs : Str) → read_block (length xs) xs ≡ some xs
unfolding read_block
read_block_all xs =
    let e : leb (length xs) (length xs) ≡ true = ground arith in
    rw (e, take_all (length xs) xs (omega arith)) refl

-- absorb takes over a message whose length is right.
pub absorb-message_of :
    (m : SnMessage) (type : ℕ) (body : Str)
    → length body ≤ 253
    → absorb m (message_of type body) ≡ some (message_of type body)
unfolding absorb put
absorb-message_of m type body fits =
    let counted : u8 (length body + 2 + 254) ≡ length body = omega (arith, fits) in
    rw
      (
        allocate_lem (record m { length_byte = length body + 2; type = type }) (length body) refl,
        ◌>>=◌,
        counted,
        read_block_all body,
        ◌>>=◌,
      )
      (rw (write_end ((length body + 2) ∷ type ∷ []) body, ◌>>=◌) refl)

-- A text that is written over a whole block.
write_all : (old new : Str) → length old ≡ length new → write_block old 0 new ≡ some new
write_all old new same =
    subst (λ xs. write_block xs 0 new ≡ some new) (append-nil old)
      (write_over [] old new [] same ∙ rw (append-nil new) refl)

-- absorb(XBResponse*) takes over a payload that is a message.
pub absorb_response-message_of :
    (m : SnMessage) (type : ℕ) (body : Str)
    → absorb_response m (message_of type body).message (length body + 2)
      ≡ some (message_of type body)
unfolding absorb_response
absorb_response-message_of m type body =
    let n : ℕ = length body + 2 in
    let bytes : Str = (message_of type body).message in
    let reads : read_block n bytes ≡ some bytes =
      ap (λ k. read_block k bytes) (omega arith) ∙ read_block_all bytes in
    rw
      (
        ◌>>=◌,
        allocate_lem (record m { length_byte = n; type = type }) (length body) refl,
        ◌>>=◌,
        reads,
        ◌>>=◌,
        write_all (n ∷ type ∷ replicate (length body) 0) bytes
            (ap (λ k. suc (suc k)) (length-replicate (length body) 0)),
        ◌>>=◌,
      )
      refl
