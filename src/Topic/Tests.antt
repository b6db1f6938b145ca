-- ===== src/Topic/Tests.antt =====
-- Filters and topics of the console, evaluated, and the laws at them.
use tio.Common.{◌⊎◌, ◌≡◌, refl, ◌↔◌, true, false, includes, split, join, starts_with, eq_iff, arith}
use tio.Topic.{match_topic_method, match_from}
use tio.Topic.Levels.{Matches, MatchesByMqtt, is_hidden}
use tio.Topic.Laws.{match_topic_method_iff}

topics : Unit {0}
unfolding match_topic_method match_from includes split join starts_with
topics = tt

match_tests :
    (match_topic_method "a/+/c" "a/b/c" ≡ true)
    × (match_topic_method "a/#" "a" ≡ true)
    × (match_topic_method "a/b/#" "a" ≡ false)
    × (match_topic_method "$share/g/a/+" "a/b" ≡ true)
    × (match_topic_method "+/+" "a" ≡ false)
    × (match_topic_method "a" "a/b" ≡ false)
unfolding topics
match_tests = (refl, refl, refl, refl, refl, refl)

match_topic_method_iff_example : (match_topic_method "a/+/#" "a/b/c" ≡ true) ↔ (
    MatchesByMqtt (split "a/+/#") (split "a/b/c")
    ⊎ (Matches (split "a/+/#") (split "a/b/c")
        × (is_hidden (split "a/+/#") (split "a/b/c") ≡ true)))
unfolding topics
match_topic_method_iff_example =
    match_topic_method_iff "a/+/#" "a/b/c" refl (ground (arith, eq_iff "a" "#", eq_iff "+" "#"))

-- MQTT forbids this match.
matches_hidden : match_topic_method "#" "$iothub/a" ≡ true
unfolding topics
matches_hidden = refl
