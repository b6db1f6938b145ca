-- ===== src/UseMqtt/Configs.antt =====
-- What the composable does to lists of configurations and of subscriptions
-- (web/src/reactives/useMqtt.js).
use tio.Common.{
  ℕ, suc, Bool, true, false, [], ◌∷◌, ◌++◌, List, none, some, String, ◌==◌, find, if◌then◌else◌,
}
use tio.Common.Dict.{Dict}
use tio.Json.{Json}
use tio.Config.{Config}
use tio.Subs.{SubConfig}

abbrev pub has_id : String → Config → Bool
has_id id c = c.id == id

-- `configs[configs.findIndex(c => c.id === id)] = config`: without such an element the array keeps its
-- elements.
unfoldable pub replace_config : String → Config → List Config → List Config
replace_config id config [] = []
replace_config id config (c ∷ cs) =
    if c.id == id then config ∷ cs else c ∷ replace_config id config cs

abbrev pub drop_last : List Config → List Config
drop_last [] = []
drop_last (c ∷ []) = []
drop_last (c ∷ d ∷ cs) = c ∷ drop_last (d ∷ cs)

unfoldable pub remove_first : String → List Config → List Config
remove_first id [] = []
remove_first id (c ∷ cs) = if c.id == id then cs else c ∷ remove_first id cs

abbrev pub is_listed : String → List Config → Bool
is_listed id [] = false
is_listed id (c ∷ cs) = if c.id == id then true else is_listed id cs

-- `configs.splice(configs.findIndex(c => c.id === id), 1)`: at the index -1 the last element goes.
unfoldable pub splice : String → List Config → List Config
unfolding remove_first
splice id configs = if is_listed id configs then remove_first id configs else drop_last configs

-- The topics of a subscription: one, or the keys of a map to their options.
abbrev pub has_topic : String → SubConfig Json → Bool
has_topic t s = s.topic == t

-- `sub.opts = opts`, for the first subscription to the topic
unfoldable pub set_opts : String → Json → List (SubConfig Json) → List (SubConfig Json)
set_opts t opts [] = []
set_opts t opts (s ∷ subs) =
    if s.topic == t then record s { opts = opts } ∷ subs else s ∷ set_opts t opts subs

-- One round of `topics.forEach` in `subscribe`; `id` is a new identifier.
unfoldable pub merge_topic :
    (id t : String) (opts : Json)
    → List (SubConfig Json)
    → List (SubConfig Json)
    → List (SubConfig Json)
unfolding set_opts
merge_topic id t opts configs subs = elim (find (has_topic t) subs) [
  | some s ↦ set_opts t opts subs
  | none ↦ elim (find (has_topic t) configs) [
    | none ↦ subs
    | some c ↦ subs ++ record c { id = id } ∷ []
  ]
]

-- The whole loop, over the topics with their options; `fresh_id` supplies identifiers.
unfoldable pub merge_topics :
    (fresh_id : ℕ → String)
    → ℕ
    → Dict Json
    → List (SubConfig Json)
    → List (SubConfig Json)
    → List (SubConfig Json)
unfolding merge_topic
merge_topics fresh_id n [] configs subs = subs
merge_topics fresh_id n ((t, opts) ∷ topics) configs subs =
    merge_topics fresh_id (suc n) topics configs (merge_topic (fresh_id n) t opts configs subs)
