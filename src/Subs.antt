-- ===== src/Subs.antt =====
-- Subscriptions of a connection (web/src/utils/subs.js): the topic lists that `init` gathers, and
-- what is subscribed or unsubscribed at once. `Opts` is the type of the subscription options, which
-- these functions only hand on; `subMap` is the dictionary of the topics that are subscribed.
pub mod Laws
pub mod Own
mod Tests
use tio.Common.{
  ℕ, suc, Bool, true, false, not, List, [], ◌∷◌, ◌++◌, map, Option, none, some, String, filter,
  or_else, if◌then◌else◌,
}
use tio.Common.Dict.{Dict, get, put, keys}
use tio.Notify.{Notice, notify_fail, notify_warn, notify_done}
use tio.Suggestions.{Suggestion, Group, suggested_pub_topics, suggested_sub_topics}

-- A topic with the name of its group, `{ ...topic, group }`.
pub record Grouped : Type 0 where
  pub topic : Suggestion
  pub group : String

-- The five arrays of the module that `init` fills.
pub record Topics : Type 0 where
  pub server_pub : List Suggestion
  pub thing_pub : List Suggestion
  pub server_sub : List Grouped
  pub thing_sub : List Grouped
  pub suggested_for_thing : List Grouped

abbrev pub no_topics : Topics
no_topics = record {
  server_pub = [];
  thing_pub = [];
  server_sub = [];
  thing_sub = [];
  suggested_for_thing = [];
}

abbrev pub push_if {ℓ} : {A : Type ℓ} → Bool → List A → A → List A
push_if b xs x = if b then xs ++ x ∷ [] else xs

-- One round of the first loop of `init`.
abbrev pub add_pub : Topics → Suggestion → Topics
add_pub t s = record t {
  server_pub = push_if s.for_server t.server_pub s;
  thing_pub = push_if s.for_thing t.thing_pub s;
}

-- One round of the inner loop over a group's topics.
abbrev pub add_sub : String → Topics → Suggestion → Topics
add_sub group t s =
    let g : Grouped = record { topic = s; group = group } in
    record t {
      server_sub = push_if s.for_server t.server_sub g;
      thing_sub = push_if s.for_thing t.thing_sub g;
      suggested_for_thing =
          if s.for_thing
          then push_if s.suggested t.suggested_for_thing g
          else t.suggested_for_thing;
    }

pub add_pubs : Topics → List Suggestion → Topics
add_pubs t [] = t
add_pubs t (s ∷ ss) = add_pubs (add_pub t s) ss

pub add_group : String → Topics → List Suggestion → Topics
add_group group t [] = t
add_group group t (s ∷ ss) = add_group group (add_sub group t s) ss

pub add_groups : Topics → List Group → Topics
add_groups t [] = t
add_groups t (g ∷ gs) = add_groups (add_group g.group t g.topics) gs

unfoldable pub init : List Suggestion → List Group → Topics
unfolding add_pubs add_group add_groups
init pubs subs = add_groups (add_pubs no_topics pubs) subs

-- The arrays once the module has been loaded.
abbrev pub topics : Topics
topics = init suggested_pub_topics suggested_sub_topics

pub record SubConfig {ℓ} (Opts : Type ℓ) : Type ℓ where
  pub id : String
  pub name : String
  pub keep : Bool
  pub topic : String
  pub opts : Opts

pub record QosOpts : Type 0 where
  pub qos : ℕ

-- Subscriptions made from suggestions, each with an identifier from the supply and QoS 0.
unfoldable pub suggest_from : (ℕ → String) → ℕ → String → List Grouped → List (SubConfig QosOpts)
suggest_from fresh n thing_id [] = []
suggest_from fresh n thing_id (g ∷ gs) =
    record {
      id = fresh n;
      name = g.topic.name;
      keep = true;
      topic = g.topic.topic_resolver thing_id;
      opts = record { qos = 0 };
    }
    ∷ suggest_from fresh (suc n) thing_id gs

unfoldable pub get_suggested_topics_for_thing : (ℕ → String) → String → List (SubConfig QosOpts)
unfolding suggest_from
get_suggested_topics_for_thing fresh thing_id =
    suggest_from fresh 0 thing_id topics.suggested_for_thing

-- `subMap[topic]` as a test: false where the key is missing
unfoldable pub is_subscribed : Dict Bool → String → Bool
is_subscribed sub_map topic = or_else (get topic sub_map) false

-- What `subscribeAll` does: it calls `subscribe` with a map of topics, or warns.
pub data SubscribeAll {ℓ} (Opts : Type ℓ) : Type ℓ where
  subscribe : Dict Opts → List (SubConfig Opts) → SubscribeAll Opts
  warn : Notice → SubscribeAll Opts

module _ {ℓ} {Opts : Type ℓ} where
  add_opts : Dict Opts → List (SubConfig Opts) → Dict Opts
  add_opts m [] = m
  add_opts m (sub ∷ subs) = add_opts (put sub.topic sub.opts m) subs

  unfoldable pub convert_subs_config_sub_map : List (SubConfig Opts) → Dict Opts
  unfolding add_opts
  convert_subs_config_sub_map subs = add_opts [] subs

  abbrev subscribe_or_warn : List (SubConfig Opts) → SubscribeAll Opts
  subscribe_or_warn [] =
      warn (notify_warn "All configured subscriptions have already been subscribed.")
  subscribe_or_warn (sub ∷ subs) = subscribe (convert_subs_config_sub_map (sub ∷ subs)) (sub ∷ subs)

  unfoldable pub subscribe_all : Option (List (SubConfig Opts)) → Dict Bool → SubscribeAll Opts
  subscribe_all subscriptions sub_map =
      subscribe_or_warn
        (filter (λ sub. not (is_subscribed sub_map sub.topic)) (or_else subscriptions []))

-- The notice that the callback of `subscribeAll` shows.
abbrev pub subscribe_all_done : Bool → Notice
subscribe_all_done failed =
    if failed
    then notify_fail "subscribe topics failed."
    else notify_done "All configured subscriptions have been subscribed."

unfoldable pub get_subscribed_subs : Option (Dict Bool) → List String
get_subscribed_subs sub_map = let m = or_else sub_map [] in filter (is_subscribed m) (keys m)

pub data UnsubscribeAll : Type 0 where
  unsubscribe : List String → UnsubscribeAll
  warn : Notice → UnsubscribeAll

abbrev unsubscribe_or_warn : List String → UnsubscribeAll
unsubscribe_or_warn [] = warn (notify_warn "None of subscriptions need to be unsubscribed.")
unsubscribe_or_warn (t ∷ ts) = unsubscribe (t ∷ ts)

unfoldable pub unsubscribe_all : Option (Dict Bool) → UnsubscribeAll
unsubscribe_all sub_map = unsubscribe_or_warn (get_subscribed_subs sub_map)

abbrev pub unsubscribe_all_done : Bool → Notice
unsubscribe_all_done failed =
    if failed
    then notify_fail "unsubscribe topics failed."
    else notify_done "All subscriptions have been unsubscribed."
