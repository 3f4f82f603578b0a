-- ===== src/Topics/Lookup.antt =====
-- Names and ids are found again after `createTopic`.
use mqtt_s_gateway.Base.{
  Str, ℕ, ◌+◌, ◌<◌, ◌≡◌, sym, ◌∙◌, ◌≢◌, none, some, [], ◌∷◌, ◌++◌, arith, refl, subst, ◌↔◌, inl,
  inr, ltb, ne→eqb, ltb→lt, Bool-cases, Option-cases, ◌≤◌, ap, u8, eq→eqb, take, length-append,
}
use mqtt_s_gateway.Topics.{
  Topic, Topics, max_topic_count, topic_length, find_name, get_topic, get_topic_by_id, add_topic,
  get_topic_id, create_topic,
}
use mqtt_s_gateway.Topics.Finding.{
  get_topic_all, find_name_above, find_name-snoc, get_topic-get_topic_by_id, get_topic-add_topic,
}
use mqtt_s_gateway.Topics.Invariant.{IsTopics, take_all, next_id_lem, create_topic-IsTopics}

-- The topic id that createTopic returns for a name.
abbrev pub created : Topics → Str → ℕ → ℕ
created t s word = (create_topic t s word).1

-- The table that createTopic leaves.
abbrev pub after_create : Topics → Str → ℕ → Topics
after_create t s word = (create_topic t s word).0

-- The outcomes of createTopic.
create_topic_known :
    (t : Topics) (s : Str) (word : ℕ) (tp : Topic)
    → get_topic t s ≡ some tp
    → create_topic t s word ≡ (t, tp.topic_id)
unfolding create_topic get_topic_id
create_topic_known t s word tp e = ground arith

create_topic_added :
    (t : Topics) (s : Str) (word : ℕ)
    → get_topic t s ≡ none
    → t.cnt < max_topic_count
    → create_topic t s word ≡ (add_topic t s word, (add_topic t s word).next_topic_id)
unfolding create_topic
create_topic_added t s word e room = ground arith

create_topic_refused :
    (t : Topics) (s : Str) (word : ℕ)
    → get_topic t s ≡ none
    → max_topic_count ≤ t.cnt
    → create_topic t s word ≡ (t, 0)
unfolding create_topic
create_topic_refused t s word e full = ground arith

data Created (t : Topics) (s : Str) (word : ℕ) : Type 0 where
  known :
      (tp : Topic)
      → get_topic t s ≡ some tp
      → create_topic t s word ≡ (t, tp.topic_id)
      → Created t s word
  added :
      get_topic t s ≡ none
      → t.cnt < max_topic_count
      → create_topic t s word ≡ (add_topic t s word, (add_topic t s word).next_topic_id)
      → Created t s word
  refused :
      get_topic t s ≡ none
      → max_topic_count ≤ t.cnt
      → create_topic t s word ≡ (t, 0)
      → Created t s word

create_topic_cases : (t : Topics) (s : Str) (word : ℕ) → Created t s word
create_topic_cases t s word = elim (Option-cases (get_topic t s)) [
  | inr (tp, e) ↦ known tp e (create_topic_known t s word tp e)
  | inl e ↦ elim (Bool-cases (ltb t.cnt max_topic_count)) [
    | inl room ↦ added e (ltb→lt _ _ room) (create_topic_added t s word e (ltb→lt _ _ room))
    | inr full ↦ refused e (ground arith) (create_topic_refused t s word e (ground arith))
  ]
]

Finds : Topics → Str → ℕ → Type 0
Finds t s id = (tp : Topic) × (get_topic t s ≡ some tp) × (tp.topic_id ≡ id)

added_id :
    (t : Topics) (s : Str) (word : ℕ)
    → IsTopics t
    → topic_length s ≢ 2
    → t.next_topic_id + 1 ≡ (add_topic t s word).next_topic_id
unfolding add_topic
added_id t s word h long = rw (ne→eqb _ _ long) (sym (next_id_lem t h))

created-Finds :
    (t : Topics) (s : Str) (word : ℕ)
    → IsTopics t
    → topic_length s ≢ 2
    → 0 < created t s word
    → Finds (after_create t s word) s (created t s word)
unfolding Finds
created-Finds t s word h long pos = elim (create_topic_cases t s word) [
  | known tp e c ↦ subst (λ (r : Topics × ℕ). Finds r.0 s r.1) (sym c) (tp, e, refl)
  | added e room c ↦
      subst (λ (r : Topics × ℕ). Finds r.0 s r.1) (sym c)
        (
          record { topic_id = t.next_topic_id + 1; topic_str = s },
          get_topic-add_topic t s word h room long e,
          added_id t s word h long,
        )
  | refused e full c ↦ absurd (omega (arith, ap (λ (r : Topics × ℕ). r.1) c))
]

pub create_topic-lookup :
    (t : Topics) (s : Str) (word : ℕ)
    → IsTopics t
    → topic_length s ≢ 2
    → 0 < created t s word
    → (get_topic_id (after_create t s word) s ≡ created t s word)
      × (tp : Topic) × (get_topic_by_id (after_create t s word) (created t s word) ≡ some tp)
      × (tp.topic_str ≡ s)
unfolding Finds get_topic_id
create_topic-lookup t s word h long pos =
    let (tp, found, id) = created-Finds t s word h long pos in
    let (back, name) =
      get_topic-get_topic_by_id (after_create t s word) s tp (create_topic-IsTopics t s word h long)
        found in
    (
      rw (found, get_topic_id) id,
      tp,
      subst (λ k. get_topic_by_id (after_create t s word) k ≡ some tp) id back,
      name,
    )

topic_id_pos :
    (t : Topics) (s : Str) (tp : Topic) → IsTopics t → get_topic t s ≡ some tp → 0 < tp.topic_id
topic_id_pos t s tp h e =
    find_name_above s 0 t.topics t.next_topic_id tp h.ids (sym (get_topic_all t s h) ∙ e)

-- For a name of any length but two and a well formed table, `createTopic` returns 0 exactly if the
-- name is new and the table is full.
pub create_topic_full :
    (t : Topics) (s : Str) (word : ℕ)
    → IsTopics t
    → topic_length s ≢ 2
    → (created t s word ≡ 0) ↔ ((get_topic t s ≡ none) × (t.cnt ≡ max_topic_count))
create_topic_full t s word h long = (
  full_only,
  λ (e, full). ap (λ (r : Topics × ℕ). r.1) (create_topic_refused t s word e (omega arith)),
)
  where
    full_only : created t s word ≡ 0 → (get_topic t s ≡ none) × (t.cnt ≡ max_topic_count)
    full_only z = elim (create_topic_cases t s word) [
      | known tp e c ↦
          absurd (omega (arith, ap (λ (r : Topics × ℕ). r.1) c, topic_id_pos t s tp h e))
      | added e room c ↦
          absurd (omega (arith, ap (λ (r : Topics × ℕ). r.1) c, added_id t s word h long))
      | refused e full c ↦ (e, omega arith)
    ]

two_bytes_id :
    (t : Topics) (s : Str) (word : ℕ)
    → topic_length s ≡ 2
    → (add_topic t s word).next_topic_id ≡ t.next_topic_id
unfolding add_topic
two_bytes_id t s word two = rw (eq→eqb _ _ two)

two_bytes_word :
    (t : Topics) (s : Str) (word : ℕ)
    → IsTopics t
    → topic_length s ≡ 2
    → get_topic t s ≡ none
    → t.cnt < max_topic_count
    → get_topic_id (add_topic t s word) s ≡ word
unfolding get_topic_id get_topic add_topic
two_bytes_word t s word h two e room =
    let tp : Topic = record { topic_id = word; topic_str = s } in
    let found : find_name s (take (u8 (t.cnt + 1)) (t.topics ++ tp ∷ [])) ≡ some tp =
      rw
        (take_all (t.topics ++ tp ∷ []) (u8 (t.cnt + 1))
          (omega (arith, length-append t.topics (tp ∷ []), h)))
        (find_name-snoc s t.topics tp (sym (get_topic_all t s h) ∙ e) refl) in
    rw (eq→eqb _ _ two, found, get_topic_id)

-- For a new name of two bytes and a well formed table that is not full, `createTopic` returns the
-- current `_nextTopicId`, and the id of the name in the table is the number read from the string
-- object.
pub create_topic_two_bytes :
    (t : Topics) (s : Str) (word : ℕ)
    → IsTopics t
    → topic_length s ≡ 2
    → get_topic t s ≡ none
    → t.cnt < max_topic_count
    → (created t s word ≡ t.next_topic_id) × (get_topic_id (after_create t s word) s ≡ word)
create_topic_two_bytes t s word h two e room =
    subst (λ (r : Topics × ℕ). (r.1 ≡ t.next_topic_id) × (get_topic_id r.0 s ≡ word))
      (sym (create_topic_added t s word e room))
      (two_bytes_id t s word two, two_bytes_word t s word h two e room)
