-- ===== src/Subs/Laws.antt =====
-- What the functions of web/src/utils/subs.js compute.
use tio.Common.{
  ◌≡◌, ◌∙◌, refl, sym, ap, inl, inr, Bool, false, ◌&&◌, ◌||◌, List, [], ◌∷◌, ◌++◌, append_assoc,
  append-nil, Option, none, some, String, ◌==◌, filter, filter-append, if◌then◌else◌, eq_iff,
  eq_refl, arith, Bool-cases, is_some,
}
use tio.Common.Dict.{Dict, get, put, keys, get-put}
use tio.Suggestions.{Suggestion, Group}
use tio.Subs.{
  Grouped, Topics, no_topics, add_pub, add_sub, add_pubs, add_group, add_groups, init, SubConfig,
  is_subscribed, add_opts, convert_subs_config_sub_map, get_subscribed_subs,
}

abbrev grouped : String → List Suggestion → List Grouped
grouped group [] = []
grouped group (s ∷ ss) = record { topic = s; group = group } ∷ grouped group ss

-- Every topic to subscribe to, with its group, in the order of the tables.
abbrev pub all_grouped : List Group → List Grouped
all_grouped [] = []
all_grouped (g ∷ gs) = grouped g.group g.topics ++ all_grouped gs

abbrev pub for_server_pub : Suggestion → Bool
for_server_pub s = s.for_server

abbrev pub for_thing_pub : Suggestion → Bool
for_thing_pub s = s.for_thing

abbrev pub for_server_sub : Grouped → Bool
for_server_sub g = g.topic.for_server

abbrev pub for_thing_sub : Grouped → Bool
for_thing_sub g = g.topic.for_thing

abbrev pub for_thing_suggested : Grouped → Bool
for_thing_suggested g = g.topic.for_thing && g.topic.suggested

module _ {ℓ} {A : Type ℓ} (p : A → Bool) where
  push-filter :
      (x : A) (xs ys : List A)
      → (if p x then xs ++ x ∷ [] else xs) ++ filter p ys ≡ xs ++ filter p (x ∷ ys)
  push-filter x xs ys = elim (Bool-cases (p x)) [
    | inl e ↦ rw e (append_assoc xs (x ∷ []) (filter p ys))
    | inr e ↦ rw e
  ]

-- The arrays after some rounds: each has been extended by what its test picks out.
abbrev Extends : Topics → Topics → List Suggestion → List Grouped → Type 0
Extends t u ps gs =
    (u.server_pub ≡ t.server_pub ++ filter for_server_pub ps)
    × (u.thing_pub ≡ t.thing_pub ++ filter for_thing_pub ps)
    × (u.server_sub ≡ t.server_sub ++ filter for_server_sub gs)
    × (u.thing_sub ≡ t.thing_sub ++ filter for_thing_sub gs)
    × (u.suggested_for_thing ≡ t.suggested_for_thing ++ filter for_thing_suggested gs)

Extends-refl : (t : Topics) → Extends t t [] []
Extends-refl t = (
  sym (append-nil _),
  sym (append-nil _),
  sym (append-nil _),
  sym (append-nil _),
  sym (append-nil _),
)

add_pubs-Extends : (t : Topics) (ps : List Suggestion) → Extends t (add_pubs t ps) ps []
unfolding add_pubs
add_pubs-Extends t [] = Extends-refl t
add_pubs-Extends t (s ∷ ss) =
    let (a, b, c, d, e) = add_pubs-Extends (add_pub t s) ss in
    (a ∙ push-filter for_server_pub s _ ss, b ∙ push-filter for_thing_pub s _ ss, c, d, e)

suggested_push :
    (g : Grouped) (xs : List Grouped)
    → (if g.topic.for_thing then if g.topic.suggested then xs ++ g ∷ [] else xs else xs)
      ≡ (if for_thing_suggested g then xs ++ g ∷ [] else xs)
suggested_push g xs = ground arith

add_group-Extends :
    (group : String) (t : Topics) (ss : List Suggestion)
    → Extends t (add_group group t ss) [] (grouped group ss)
unfolding add_group
add_group-Extends group t [] = Extends-refl t
add_group-Extends group t (s ∷ ss) =
    let (a, b, c, d, e) = add_group-Extends group (add_sub group t s) ss in
    let g : Grouped = record { topic = s; group = group } in
    (
      a,
      b,
      c ∙ push-filter for_server_sub g _ (grouped group ss),
      d ∙ push-filter for_thing_sub g _ (grouped group ss),
      e
          ∙ ap (◌++ filter for_thing_suggested (grouped group ss))
              (suggested_push g t.suggested_for_thing)
          ∙ push-filter for_thing_suggested g _ (grouped group ss),
    )

chain {ℓ} :
    {A : Type ℓ} (p : A → Bool) (u : List A) {v w : List A} (xs ys : List A)
    → v ≡ u ++ filter p xs
    → w ≡ v ++ filter p ys
    → w ≡ u ++ filter p (xs ++ ys)
chain p u xs ys e f = rw (f, e, filter-append, append_assoc)

Extends-trans :
    (t u v : Topics) (xs ys : List Grouped)
    → Extends t u [] xs
    → Extends u v [] ys
    → Extends t v [] (xs ++ ys)
Extends-trans t u v xs ys (a, b, c, d, e) (a', b', c', d', e') = (
  chain for_server_pub t.server_pub [] [] a a',
  chain for_thing_pub t.thing_pub [] [] b b',
  chain for_server_sub t.server_sub xs ys c c',
  chain for_thing_sub t.thing_sub xs ys d d',
  chain for_thing_suggested t.suggested_for_thing xs ys e e',
)

add_groups-Extends :
    (t : Topics) (gs : List Group) → Extends t (add_groups t gs) [] (all_grouped gs)
unfolding add_groups
add_groups-Extends t [] = Extends-refl t
add_groups-Extends t (g ∷ gs) =
    Extends-trans t _ _ (grouped g.group g.topics) (all_grouped gs)
      (add_group-Extends g.group t g.topics) (add_groups-Extends (add_group g.group t g.topics) gs)

-- The arrays that `init` fills hold, in the order of the tables, exactly the topics to publish that
-- are marked for the server and for the thing, the topics to subscribe to that are so marked, and
-- those that are marked both for the thing and as suggested.
pub init_lem :
    (pubs : List Suggestion) (subs : List Group)
    → ((init pubs subs).server_pub ≡ filter for_server_pub pubs)
      × ((init pubs subs).thing_pub ≡ filter for_thing_pub pubs)
      × ((init pubs subs).server_sub ≡ filter for_server_sub (all_grouped subs))
      × ((init pubs subs).thing_sub ≡ filter for_thing_sub (all_grouped subs))
      × ((init pubs subs).suggested_for_thing ≡ filter for_thing_suggested (all_grouped subs))
unfolding init
init_lem pubs subs =
    let t = add_pubs no_topics pubs in
    let (a, b, c, d, e) = add_pubs-Extends no_topics pubs in
    let (a', b', c', d', e') = add_groups-Extends t subs in
    (
      a' ∙ append-nil _ ∙ a,
      b' ∙ append-nil _ ∙ b,
      c' ∙ ap (◌++ filter for_server_sub (all_grouped subs)) c,
      d' ∙ ap (◌++ filter for_thing_sub (all_grouped subs)) d,
      e' ∙ ap (◌++ filter for_thing_suggested (all_grouped subs)) e,
    )

module _ {ℓ} {Opts : Type ℓ} where
  -- The options that the last of the subscriptions to a topic gives.
  abbrev pub last_opts : String → List (SubConfig Opts) → Option Opts
  last_opts t [] = none
  last_opts t (sub ∷ subs) = elim (last_opts t subs) [
    | some o ↦ some o
    | none ↦ if sub.topic == t then some sub.opts else none
  ]

  get-add_opts :
      (t : String) (m : Dict Opts) (subs : List (SubConfig Opts))
      → get t (add_opts m subs) ≡ (elim (last_opts t subs) [ some o ↦ some o | none ↦ get t m ])
  unfolding add_opts
  get-add_opts t m [] = refl
  get-add_opts t m (sub ∷ subs) =
      ground (arith, get-add_opts t (put sub.topic sub.opts m) subs, get-put sub.topic t sub.opts m)

  -- The map gives each topic the options of its last subscription, and has no other topic.
  pub get-convert_subs_config_sub_map :
      (t : String) (subs : List (SubConfig Opts))
      → get t (convert_subs_config_sub_map subs) ≡ last_opts t subs
  unfolding convert_subs_config_sub_map get
  get-convert_subs_config_sub_map t subs = ground (arith, get-add_opts t [] subs)

abbrev pub contains : String → List String → Bool
contains t [] = false
contains t (x ∷ xs) = x == t || contains t xs

contains-filter :
    (p : String → Bool) (t : String) (xs : List String)
    → contains t (filter p xs) ≡ (p t && contains t xs)
contains-filter p t [] = ground arith
contains-filter p t (x ∷ xs) = elim (Bool-cases (x == t)) [
  | inl e ↦ rw ((eq_iff x t).0 e) (ground (arith, contains-filter p t xs, eq_refl t))
  | inr e ↦ ground (arith, contains-filter p t xs)
]

pub contains-keys {ℓ} :
    {V : Type ℓ} (t : String) (m : Dict V) → contains t (keys m) ≡ is_some (get t m)
unfolding get
contains-keys t [] = refl
contains-keys t ((k, v) ∷ m) = ground (arith, contains-keys t m)

-- The subscribed topics are exactly those whose entry is true.
pub contains-get_subscribed_subs :
    (t : String) (m : Dict Bool) → contains t (get_subscribed_subs (some m)) ≡ is_subscribed m t
unfolding get_subscribed_subs is_subscribed
contains-get_subscribed_subs t m =
    ground (arith, contains-filter (is_subscribed m) t (keys m), contains-keys t m)
