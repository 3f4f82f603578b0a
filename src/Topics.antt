-- ===== src/Topics.antt =====
-- Classes Topic and Topics of TomyGateway/src/libmq/Topics.cpp: the topic table of one client. The
-- wildcard functions are in Wildcards.
pub mod Invariant
pub mod Finding
pub mod Lookup
pub mod Wildcards
use mqtt_s_gateway.Base.{
  Str, u8, u16, ℕ, ◌+◌, Option, none, some, List, [], ◌∷◌, ◌++◌, ltb, ◌==◌, if◌then◌else◌, str_eq,
  length, take,
}

pub record Topic : Type 0 where
  pub topic_id : ℕ
  pub topic_str : Str

-- The vector in the order of creation; the fields are uint16_t and uint8_t.
pub record Topics : Type 0 where
  pub next_topic_id : ℕ
  pub cnt : ℕ
  pub topics : List Topic

abbrev pub max_topic_count : ℕ
max_topic_count = 50

abbrev pub topicid_normal : ℕ
topicid_normal = 256

abbrev pub topicid_predefined_time : ℕ
topicid_predefined_time = 0x0001

-- "$GW/01"
abbrev pub topic_predefined_time : Str
topic_predefined_time = b'$' ∷ b'G' ∷ b'W' ∷ b'/' ∷ b'0' ∷ b'1' ∷ []

-- The constructor of Topics.
unfoldable pub new_topics : Topics
new_topics = record {
  next_topic_id = topicid_normal;
  cnt = 1;
  topics = record { topic_id = topicid_predefined_time; topic_str = topic_predefined_time } ∷ [];
}

-- Topic::getTopicLength, a uint8_t.
abbrev pub topic_length : Str → ℕ
topic_length s = u8 (length s)

unfoldable pub find_name : Str → List Topic → Option Topic
find_name s [] = none
find_name s (t ∷ ts) = if str_eq s t.topic_str then some t else find_name s ts

unfoldable pub find_id : ℕ → List Topic → Option Topic
find_id id [] = none
find_id id (t ∷ ts) = if t.topic_id == id then some t else find_id id ts

-- Topics::getTopic(string*)
unfoldable pub get_topic : Topics → Str → Option Topic
unfolding find_name
get_topic t s = find_name s (take t.cnt t.topics)

-- Topics::getTopic(uint16_t)
unfoldable pub get_topic_by_id : Topics → ℕ → Option Topic
unfolding find_id
get_topic_by_id t id = find_id id (take t.cnt t.topics)

-- Topics::getTopicId
unfoldable pub get_topic_id : Topics → Str → ℕ
get_topic_id t s = elim (get_topic t s) [ none ↦ 0 | some tp ↦ tp.topic_id ]

-- Topics::getNextTopicId, the new value of `_nextTopicId`.
unfoldable pub next_id : ℕ → ℕ
next_id n = let m = u16 (n + 1) in if ltb m topicid_normal then topicid_normal else m

-- The branch of createTopic that adds a topic. The id of a name of two bytes is read from the
-- std::string object itself and not from its text: `word` is the number that stands there.
unfoldable pub add_topic : Topics → Str → ℕ → Topics
unfolding next_id
add_topic t s word =
    let next = if topic_length s == 2 then t.next_topic_id else next_id t.next_topic_id in
    let id = if topic_length s == 2 then word else next in
    record {
      next_topic_id = next;
      cnt = u8 (t.cnt + 1);
      topics = t.topics ++ record { topic_id = id; topic_str = s } ∷ [];
    }

-- Topics::createTopic. After an addition it returns `_nextTopicId`.
unfoldable pub create_topic : Topics → Str → ℕ → Topics × ℕ
create_topic t s word = elim (get_topic t s) [
  | some tp ↦ (t, get_topic_id t s)
  | none ↦
      if ltb t.cnt max_topic_count
      then (add_topic t s word, (add_topic t s word).next_topic_id)
      else (t, 0)
]
