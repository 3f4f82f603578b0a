-- ===== src/Topics/Wildcards/Matching.antt =====
-- What the wildcards of TomyGateway/src/libmq/Topics.cpp come to on the two widths of size_t.
use mqtt_s_gateway.Base.{Str, ℕ, ◌≤◌, ◌≡◌, refl, Option, none, List, [], ◌∷◌, length, take, All}
use mqtt_s_gateway.Topics.{Topic, Topics, get_topic}
use mqtt_s_gateway.Topics.Wildcards.{
  find_in, find, single_wildcard_name, multi_wildcard_name, is_wild_card, no_match, match_in, match,
}

abbrev pub npos32 : ℕ
npos32 = 4294967295

abbrev pub npos64 : ℕ
npos64 = 18446744073709551615

-- A name of at most 255 bytes without the names of the macros.
pub record IsPlain (t : Topic) : Type 0 where
  pub no_single : find_in single_wildcard_name t.topic_str ≡ none
  pub no_multi : find_in multi_wildcard_name t.topic_str ≡ none
  pub short : length t.topic_str ≤ 255

find_unfound : (npos : ℕ) (text s : Str) → find_in text s ≡ none → find npos text s 0 ≡ npos
unfolding find
find_unfound npos text s h = rw (h, find) refl

is_wild_card-narrow : (t : Topic) → IsPlain t → is_wild_card npos32 t ≡ (0, 0)
unfolding is_wild_card
is_wild_card-narrow t p =
    rw
      (
        find_unfound npos32 single_wildcard_name t.topic_str p.no_single,
        find_unfound npos32 multi_wildcard_name t.topic_str p.no_multi,
      )
      refl

match_in-narrow :
    (this : Option Topic) (ts : List Topic) → All IsPlain ts → match_in npos32 this ts ≡ no_match
unfolding match_in
match_in-narrow this [] h = refl
match_in-narrow this (t ∷ ts) h = rw (is_wild_card-narrow t h.0) (match_in-narrow this ts h.1)

-- Where size_t is as wide as unsigned int: if every topic of the table has a name of at most 255 bytes
-- without the names of the macros, match finds nothing, also where a name has a `+` or a `#`.
pub match-Unmatched :
    (t : Topics) (s : Str) → All IsPlain (take t.cnt t.topics) → match npos32 t s ≡ no_match
unfolding match
match-Unmatched t s h = match_in-narrow (get_topic t s) (take t.cnt t.topics) h
