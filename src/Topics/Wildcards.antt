-- ===== src/Topics/Wildcards.antt =====
-- Topic::isWildCard, Topic::isMatch and Topics::match of TomyGateway/src/libmq/Topics.cpp. The value of
-- `string::npos` is an argument: 2^32-1 where size_t is as wide as unsigned int, 2^64-1 on LP64.
pub mod Matching
use mqtt_s_gateway.Base.{
  Str, u8, ℕ, suc, ◌+◌, ◌%◌, Bool, true, false, not, ◌&&◌, Option, none, some, List, [], ◌∷◌, ltb,
  ◌==◌, if◌then◌else◌, nonzero, str_eq, length, take, drop, ◌>>=◌,
}
use mqtt_s_gateway.Topics.{Topic, Topics, get_topic}

-- What unsigned int keeps of a size_t.
abbrev pub u32 : ℕ → ℕ
u32 n = n % 4294967296

-- std::string::find as an offset; no text that the source looks for is empty.
unfoldable pub starts_with : Str → Str → Bool
starts_with [] s = true
starts_with (x ∷ xs) [] = false
starts_with (x ∷ xs) (y ∷ ys) = (x == y) && starts_with xs ys

unfoldable pub find_in : Str → Str → Option ℕ
unfolding starts_with
find_in text [] = none
find_in text (x ∷ xs) =
    let later = find_in text xs in
    if starts_with text (x ∷ xs) then some 0 else (later >>= λ i. some (suc i))

-- find(text, from)
unfoldable pub find : ℕ → Str → Str → ℕ → ℕ
find npos text s from = elim (find_in text (drop from s)) [ none ↦ npos | some i ↦ from + i ]

-- substr(pos): `none` is the exception std::out_of_range.
unfoldable pub substr : Str → ℕ → Option Str
substr s pos = if ltb (length s) pos then none else some (drop pos s)

-- MQTTSN_TOPIC_SINGLE_WILDCARD and MQTTSN_TOPIC_MULTI_WILDCARD
abbrev pub single_wildcard : ℕ
single_wildcard = b'+'

abbrev pub multi_wildcard : ℕ
multi_wildcard = b'#'

-- The texts that isWildCard looks for: the names of the two macros, in quotes.
abbrev pub single_wildcard_name : Str
single_wildcard_name =
    b'M' ∷ b'Q' ∷ b'T' ∷ b'T' ∷ b'S' ∷ b'N' ∷ b'_' ∷ b'T' ∷ b'O' ∷ b'P' ∷ b'I' ∷ b'C' ∷ b'_' ∷ b'S'
    ∷ b'I' ∷ b'N' ∷ b'G' ∷ b'L' ∷ b'E' ∷ b'_' ∷ b'W' ∷ b'I' ∷ b'L' ∷ b'D' ∷ b'C' ∷ b'A' ∷ b'R'
    ∷ b'D' ∷ []

abbrev pub multi_wildcard_name : Str
multi_wildcard_name =
    b'M' ∷ b'Q' ∷ b'T' ∷ b'T' ∷ b'S' ∷ b'N' ∷ b'_' ∷ b'T' ∷ b'O' ∷ b'P' ∷ b'I' ∷ b'C' ∷ b'_' ∷ b'M'
    ∷ b'U' ∷ b'L' ∷ b'T' ∷ b'I' ∷ b'_' ∷ b'W' ∷ b'I' ∷ b'L' ∷ b'D' ∷ b'C' ∷ b'A' ∷ b'R' ∷ b'D' ∷ []

-- isWildCard: the wildcard, and `*pos`.
unfoldable pub is_wild_card : ℕ → Topic → ℕ × ℕ
is_wild_card npos t =
    let single = u32 (find npos single_wildcard_name t.topic_str 0) in
    let multi = u32 (find npos multi_wildcard_name t.topic_str 0) in
    if not (single == npos)
    then (single_wildcard, u8 single)
    else if not (multi == npos)
    then (multi_wildcard, u8 multi)
    else (0, 0)

-- `_topicStr.compare(0, pos, *topic->getTopicName(), 0, pos) == 0`
unfoldable pub same_start : ℕ → Str → Str → Bool
same_start pos s t = str_eq (take pos s) (take pos t)

-- The single wildcard's branch of isMatch; `pos` is that of the wildcard.
unfoldable pub is_match_single : ℕ → Str → Str → ℕ → Option Bool
is_match_single npos s t pos =
    let pos1 = u8 (pos + 2) in
    let slash = u8 (find npos (b'/' ∷ []) s (u8 (pos + 1))) in
    if slash == npos
    then some true
    else (substr s slash >>= λ rest. (substr t pos1 >>= λ rest1. some (str_eq rest rest1)))

-- isMatch of `this` with `topic`
unfoldable pub is_match : ℕ → Topic → Topic → Option Bool
is_match npos this topic =
    let (wildcard, pos) = is_wild_card npos topic in
    if (wildcard == single_wildcard) && same_start pos this.topic_str topic.topic_str
    then is_match_single npos this.topic_str topic.topic_str pos
    else some ((wildcard == multi_wildcard) && same_start pos this.topic_str topic.topic_str)

pub data Matched : Type 0 where
  no_match : Matched
  matched : Topic → Matched
  null_topic : Matched
  out_of_range : Matched

-- The loop of match; `this` is what getTopic(topic) returns in each round.
unfoldable pub match_in : ℕ → Option Topic → List Topic → Matched
match_in npos this [] = no_match
match_in npos this (t ∷ ts) =
    let later = match_in npos this ts in
    if nonzero (is_wild_card npos t).0
    then elim this [
      | none ↦ null_topic
      | some tp ↦ elim (is_match npos tp t) [
        | none ↦ out_of_range
        | some found ↦ if found then matched t else later
      ]
    ]
    else later

-- Topics::match: the topic, or how the call fails.
unfoldable pub match : ℕ → Topics → Str → Matched
match npos t s = match_in npos (get_topic t s) (take t.cnt t.topics)
