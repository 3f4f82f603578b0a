-- ===== src/Topics/Invariant.antt =====
-- What holds of a topic table after any sequence of creations.
use mqtt_s_gateway.Base.{
  Str, ℕ, ◌+◌, ◌≤◌, ◌<◌, ◌≡◌, sym, ap, ◌∙◌, ◌≢◌, List, [], ◌∷◌, ◌++◌, append-nil, arith, ne→eqb,
  length, take, length-append, take-append,
}
use mqtt_s_gateway.Topics.{
  Topic, Topics, max_topic_count, topicid_normal, new_topics, topic_length, next_id, add_topic,
  create_topic,
}

-- The ids rise along the list, above `low` and up to `high`.
abbrev pub Between : ℕ → List Topic → ℕ → Type 0
Between low [] high = low ≤ high
Between low (t ∷ ts) high = (low < t.topic_id) × Between t.topic_id ts high

Between-weaken :
    (low : ℕ) (ts : List Topic) (high k : ℕ) → high ≤ k → Between low ts high → Between low ts k
Between-weaken low [] high k h b = omega arith
Between-weaken low (t ∷ ts) high k h b = (b.0, Between-weaken t.topic_id ts high k h b.1)

Between-snoc :
    (low : ℕ) (ts : List Topic) (high : ℕ) (t : Topic)
    → high < t.topic_id
    → Between low ts high
    → Between low (ts ++ t ∷ []) t.topic_id
Between-snoc low [] high t h b = omega arith
Between-snoc low (x ∷ ts) high t h b = (b.0, Between-snoc x.topic_id ts high t h b.1)

-- The table is full at 50 topics, `_cnt` is the size of the vector, ids were given out once each from
-- 257 on and in the order of creation, and `_nextTopicId` has not wrapped.
pub record IsTopics (t : Topics) : Type 0 where
  pub counted : t.cnt ≡ length t.topics
  pub capped : t.cnt ≤ max_topic_count
  pub next_low : topicid_normal ≤ t.next_topic_id
  pub next_high : t.next_topic_id < topicid_normal + t.cnt
  pub ids : Between 0 t.topics t.next_topic_id

pub new_topics-IsTopics : IsTopics new_topics
unfolding new_topics
new_topics-IsTopics = omega arith

pub take_all : {A : Type 0} (xs : List A) (n : ℕ) → n ≡ length xs → take n xs ≡ xs
take_all {A} xs n h = rw h (ap (take (length xs)) (sym (append-nil xs)) ∙ take-append xs [])

-- An added topic with a name of another length than two gets the next id.
pub next_id_lem : (t : Topics) → IsTopics t → next_id t.next_topic_id ≡ t.next_topic_id + 1
unfolding next_id
next_id_lem t h = ground arith

pub add_topic-IsTopics :
    (t : Topics) (s : Str) (word : ℕ)
    → IsTopics t
    → t.cnt < max_topic_count
    → topic_length s ≢ 2
    → IsTopics (add_topic t s word)
unfolding add_topic
add_topic-IsTopics t s word h room long =
    rw (ne→eqb _ _ long, next_id_lem t h)
      (record {
        counted = omega (
          arith,
          length-append t.topics (record { topic_id = t.next_topic_id + 1; topic_str = s } ∷ []),
          h,
        );
        capped = omega arith;
        next_low = omega arith;
        next_high = omega arith;
        ids =
            Between-snoc 0 t.topics t.next_topic_id
              (record { topic_id = t.next_topic_id + 1; topic_str = s }) (omega arith) h.ids;
      })

-- `createTopic` keeps a table well formed, for every name whose length byte is not 2.
pub create_topic-IsTopics :
    (t : Topics) (s : Str) (word : ℕ)
    → IsTopics t
    → topic_length s ≢ 2
    → IsTopics (create_topic t s word).0
unfolding create_topic
create_topic-IsTopics t s word h long = ground (arith, add_topic-IsTopics t s word h)
