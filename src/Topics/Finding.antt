-- ===== src/Topics/Finding.antt =====
-- Finding a topic in the table of a client, by its name and by its id.
use mqtt_s_gateway.Base.{
  Str, ℕ, ◌+◌, ◌<◌, ◌≡◌, refl, sym, ◌∙◌, ◌≢◌, none, some, List, [], ◌∷◌, ◌++◌, arith, ne→eqb,
  str_eq→eq, str_eq_refl,
}
use mqtt_s_gateway.Topics.{
  Topic, Topics, max_topic_count, topic_length, find_name, find_id, get_topic, get_topic_by_id,
  add_topic,
}
use mqtt_s_gateway.Topics.Invariant.{Between, IsTopics, take_all, next_id_lem, add_topic-IsTopics}

pub get_topic_all : (t : Topics) (s : Str) → IsTopics t → get_topic t s ≡ find_name s t.topics
unfolding get_topic
get_topic_all t s h = rw (take_all t.topics t.cnt h.counted)

get_topic_by_id_all :
    (t : Topics) (id : ℕ) → IsTopics t → get_topic_by_id t id ≡ find_id id t.topics
unfolding get_topic_by_id
get_topic_by_id_all t id h = rw (take_all t.topics t.cnt h.counted)

pub find_name-named :
    (s : Str) (ts : List Topic) (t : Topic) → find_name s ts ≡ some t → t.topic_str ≡ s
unfolding find_name
find_name-named s [] t h = cc
find_name-named s (x ∷ ts) t h = ground (arith, find_name-named s ts t, str_eq→eq s x.topic_str)

pub find_name_above :
    (s : Str) (low : ℕ) (ts : List Topic) (high : ℕ) (t : Topic)
    → Between low ts high
    → find_name s ts ≡ some t
    → low < t.topic_id
unfolding find_name
find_name_above s low [] high t b h = cc
find_name_above s low (x ∷ ts) high t b h =
    ground (arith, find_name_above s x.topic_id ts high t b.1)

find_name-find_id :
    (s : Str) (low : ℕ) (ts : List Topic) (high : ℕ) (t : Topic)
    → Between low ts high
    → find_name s ts ≡ some t
    → find_id t.topic_id ts ≡ some t
unfolding find_name find_id
find_name-find_id s low [] high t b h = cc
find_name-find_id s low (x ∷ ts) high t b h = ground (
  arith,
  find_name-find_id s x.topic_id ts high t b.1,
  find_name_above s x.topic_id ts high t b.1,
)

pub find_name-snoc :
    (s : Str) (ts : List Topic) (t : Topic)
    → find_name s ts ≡ none
    → t.topic_str ≡ s
    → find_name s (ts ++ t ∷ []) ≡ some t
unfolding find_name
find_name-snoc s [] t h e = rw e (rw (str_eq_refl s))
find_name-snoc s (x ∷ ts) t h e = ground (arith, find_name-snoc s ts t)

-- In a well-formed table the id of a registered name leads back to that name.
pub get_topic-get_topic_by_id :
    (t : Topics) (s : Str) (tp : Topic)
    → IsTopics t
    → get_topic t s ≡ some tp
    → (get_topic_by_id t tp.topic_id ≡ some tp) × (tp.topic_str ≡ s)
get_topic-get_topic_by_id t s tp h e =
    let e' : find_name s t.topics ≡ some tp = sym (get_topic_all t s h) ∙ e in
    (
      get_topic_by_id_all t tp.topic_id h
          ∙ find_name-find_id s 0 t.topics t.next_topic_id tp h.ids e',
      find_name-named s t.topics tp e',
    )

pub get_topic-add_topic :
    (t : Topics) (s : Str) (word : ℕ)
    → IsTopics t
    → t.cnt < max_topic_count
    → topic_length s ≢ 2
    → get_topic t s ≡ none
    → get_topic (add_topic t s word) s
      ≡ some (record { topic_id = t.next_topic_id + 1; topic_str = s })
get_topic-add_topic t s word h room long e =
    let absent : find_name s t.topics ≡ none = sym (get_topic_all t s h) ∙ e in
    get_topic_all (add_topic t s word) s (add_topic-IsTopics t s word h room long)
    ∙ unfold add_topic in
      rw (ne→eqb _ _ long, next_id_lem t h)
        (find_name-snoc s t.topics (record { topic_id = t.next_topic_id + 1; topic_str = s }) absent
          refl)
