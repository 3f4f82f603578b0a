-- ===== src/Tests/Tables.antt =====
-- The topic table at concrete values.
use mqtt_s_gateway.Base.{Str, [], ◌∷◌, arith}
use mqtt_s_gateway.Topics.{new_topics, create_topic}
use mqtt_s_gateway.Topics.Invariant.{IsTopics, new_topics-IsTopics, create_topic-IsTopics}

abbrev lamp : Str
lamp = b'l' ∷ b'a' ∷ b'm' ∷ b'p' ∷ []

abbrev short_name : Str
short_name = b'a' ∷ b'b' ∷ []

create_topic-IsTopics_example : IsTopics (create_topic new_topics lamp 0).0
create_topic-IsTopics_example =
    create_topic-IsTopics new_topics lamp 0 new_topics-IsTopics (omega arith)
