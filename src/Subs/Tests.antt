-- ===== src/Subs/Tests.antt =====
-- The tables of the console, evaluated, and the laws of the subscriptions at small inputs.
use tio.Common.{
  ◌≡◌, refl, true, false, List, [], ◌∷◌, map, some, String, split, includes, starts_with,
}
use tio.Common.Dict.{get, put}
use tio.Topic.{match_topic_method, match_from}
use tio.Subs.{
  SubConfig, QosOpts, init, get_suggested_topics_for_thing, is_subscribed,
  convert_subs_config_sub_map, subscribe_all, subscribe, get_subscribed_subs, unsubscribe_all,
}

subs : Unit {0}
unfolding init get_suggested_topics_for_thing is_subscribed convert_subs_config_sub_map
    subscribe_all get_subscribed_subs unsubscribe_all get put match_topic_method match_from includes
    split starts_with
subs = tt

abbrev plain : String → QosOpts → SubConfig QosOpts
plain topic o = record { id = topic; name = topic; keep = true; topic = topic; opts = o }

abbrev two_subs : List (SubConfig QosOpts)
two_subs = plain "a" (record { qos = 1 }) ∷ plain "b" (record { qos = 2 }) ∷ []

subscribe_tests :
    (subscribe_all (some two_subs) (("a", true) ∷ [])
      ≡ subscribe (("b", record { qos = 2 }) ∷ []) (plain "b" (record { qos = 2 }) ∷ []))
    × (get_subscribed_subs (some (("a", true) ∷ ("b", false) ∷ [])) ≡ "a" ∷ [])
unfolding subs
subscribe_tests = (refl, refl)

suggested_names :
    map (λ s. s.name) (get_suggested_topics_for_thing (λ n. "") "t1")
    ≡ "Direct Method Request" ∷ "Get Accepted" ∷ "Get Rejected" ∷ "Update Accepted"
      ∷ "Update Rejected" ∷ "Update Documents Notify" ∷ "Update Delta Notify" ∷ []
unfolding subs
suggested_names = refl
