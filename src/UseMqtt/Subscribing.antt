-- ===== src/UseMqtt/Subscribing.antt =====
-- Configurations that are set, and the subscriptions that a configuration keeps
-- (`setConnConfig` and `subscribe` of web/src/reactives/useMqtt.js).
use tio.Common.{
  ℕ, suc, ◌≡◌, ◌∙◌, refl, ap, ◌≢◌, false, ◌&&◌, ◌||◌, [], ◌∷◌, ◌++◌, List, Option, none, some,
  String, ◌==◌, find, any, if◌then◌else◌, Option-cases, inl, inr, is_some, eq_iff, arith,
}
use tio.Common.Dict.{Dict}
use tio.Json.{Json}
use tio.Config.{Config}
use tio.Subs.{SubConfig}
use tio.Store.{ConnectionsCodec, store_connections, update_conn_configs}
use tio.Delegate.{Client, cancel}
use tio.UseMqtt.{
  World, has_id, has_topic, replace_config, is_listed, set_opts, merge_topic, merge_topics,
  get_conn_config, disconn, set_conn_config,
}
use tio.UseMqtt.Frame.{Keeps, with_delegate-Keeps}

find-set_opts :
    (t k : String) (o : Json) (subs : List (SubConfig Json))
    → find (has_topic k) (set_opts t o subs) ≡ (
        if t == k
        then elim (find (has_topic t) subs) [ none ↦ none | some s ↦ some (record s { opts = o }) ]
        else find (has_topic k) subs)
unfolding set_opts
find-set_opts t k o [] = ground arith
find-set_opts t k o (s ∷ subs) =
    ground (arith, find-set_opts t k o subs, eq_iff s.topic t, eq_iff s.topic k, eq_iff t k)

find-append :
    (k : String) (subs : List (SubConfig Json)) (c : SubConfig Json)
    → find (has_topic k) (subs ++ c ∷ []) ≡ (elim (find (has_topic k) subs) [
      | some s ↦ some s
      | none ↦ if c.topic == k then some c else none
    ])
find-append k [] c = ground arith
find-append k (s ∷ subs) c = ground (arith, find-append k subs c)

find-topic :
    (k : String) (subs : List (SubConfig Json)) (c : SubConfig Json)
    → find (has_topic k) subs ≡ some c
    → c.topic ≡ k
find-topic k [] c h = cc
find-topic k (s ∷ subs) c h = ground (arith, find-topic k subs c, eq_iff s.topic k)

-- What is configured for a topic once it has been subscribed to with options `o`: the subscription
-- that was there with these options, or else the one that was asked for, with a new identifier.
abbrev pub configured :
    (id : String)
    → Json
    → Option (SubConfig Json)
    → Option (SubConfig Json)
    → Option (SubConfig Json)
configured id o (some s) asked = some (record s { opts = o })
configured id o none none = none
configured id o none (some c) = some (record c { id = id })

-- After one topic has been merged, its subscription is the one that was there, with the new options, or
-- else the one that was asked for, under the new identifier, if it was; every other topic's is as
-- before.
pub find-merge_topic :
    (id t : String) (o : Json) (configs subs : List (SubConfig Json)) (k : String)
    → find (has_topic k) (merge_topic id t o configs subs) ≡ (
        if t == k
        then configured id o (find (has_topic t) subs) (find (has_topic t) configs)
        else find (has_topic k) subs)
unfolding merge_topic
find-merge_topic id t o configs subs k = elim (Option-cases (find (has_topic t) subs)) [
  | inr (s, e) ↦ rw (e, merge_topic) (ground (arith, find-set_opts t k o subs))
  | inl n ↦ elim (Option-cases (find (has_topic t) configs)) [
    | inl n' ↦ rw (n, n', merge_topic) (ground (arith, eq_iff t k))
    | inr (c, e) ↦
        rw (n, e, merge_topic)
          (ground (
            arith,
            find-append k subs (record c { id = id }),
            find-topic t configs c e,
            eq_iff t k,
          ))
  ]
]

-- No topic is configured twice.
abbrev pub DistinctTopics : List (SubConfig Json) → Type 0
DistinctTopics [] = Unit
DistinctTopics (s ∷ subs) = (any (has_topic s.topic) subs ≡ false) × DistinctTopics subs

any-find :
    (k : String) (subs : List (SubConfig Json))
    → any (has_topic k) subs ≡ is_some (find (has_topic k) subs)
any-find k [] = refl
any-find k (s ∷ subs) = ground (arith, any-find k subs)

any-set_opts :
    (t k : String) (o : Json) (subs : List (SubConfig Json))
    → any (has_topic k) (set_opts t o subs) ≡ any (has_topic k) subs
unfolding set_opts
any-set_opts t k o [] = refl
any-set_opts t k o (s ∷ subs) = ground (arith, any-set_opts t k o subs)

set_opts-DistinctTopics :
    (t : String) (o : Json) (subs : List (SubConfig Json))
    → DistinctTopics subs
    → DistinctTopics (set_opts t o subs)
unfolding set_opts
set_opts-DistinctTopics t o [] h = tt
set_opts-DistinctTopics t o (s ∷ subs) (n, h) =
    ground (arith, set_opts-DistinctTopics t o subs h, any-set_opts t s.topic o subs)

any-append :
    (k : String) (subs : List (SubConfig Json)) (c : SubConfig Json)
    → any (has_topic k) (subs ++ c ∷ []) ≡ (any (has_topic k) subs || c.topic == k)
any-append k [] c = ground arith
any-append k (s ∷ subs) c = ground (arith, any-append k subs c)

append-DistinctTopics :
    (subs : List (SubConfig Json)) (c : SubConfig Json)
    → any (has_topic c.topic) subs ≡ false
    → DistinctTopics subs
    → DistinctTopics (subs ++ c ∷ [])
append-DistinctTopics [] c a h = (refl, tt)
append-DistinctTopics (s ∷ subs) c a (n, h) = (
  any-append s.topic subs c ∙ ground (arith, eq_iff s.topic c.topic, eq_iff c.topic s.topic),
  append-DistinctTopics subs c (ground arith) h,
)

merge_topic-DistinctTopics :
    (id t : String) (o : Json) (configs subs : List (SubConfig Json))
    → DistinctTopics subs
    → DistinctTopics (merge_topic id t o configs subs)
unfolding merge_topic
merge_topic-DistinctTopics id t o configs subs h = elim (Option-cases (find (has_topic t) subs)) [
  | inr (s, e) ↦ rw (e, merge_topic) (set_opts-DistinctTopics t o subs h)
  | inl n ↦ elim (Option-cases (find (has_topic t) configs)) [
    | inl n' ↦ rw (n, n', merge_topic) h
    | inr (c, e) ↦
        let topic = find-topic t configs c e in
        rw (n, e, merge_topic)
          (append-DistinctTopics subs (record c { id = id })
            (rw topic (any-find t subs ∙ ap is_some n)) h)
  ]
]

-- Whatever topics are merged, no topic becomes configured twice.
pub merge_topics-DistinctTopics :
    (fresh_id : ℕ → String) (n : ℕ) (topics : Dict Json) (configs subs : List (SubConfig Json))
    → DistinctTopics subs
    → DistinctTopics (merge_topics fresh_id n topics configs subs)
unfolding merge_topics
merge_topics-DistinctTopics fresh_id n [] configs subs h = h
merge_topics-DistinctTopics fresh_id n ((t, o) ∷ topics) configs subs h =
    merge_topics-DistinctTopics fresh_id (suc n) topics configs
      (merge_topic (fresh_id n) t o configs subs)
      (merge_topic-DistinctTopics (fresh_id n) t o configs subs h)

pub find-replace_config :
    (id j : String) (config : Config) (cs : List Config)
    → config.id ≡ id
    → find (has_id j) (replace_config id config cs)
      ≡ (if is_listed id cs && id == j then some config else find (has_id j) cs)
unfolding replace_config
find-replace_config id j config [] e = ground arith
find-replace_config id j config (c ∷ cs) e = ground (
  arith,
  find-replace_config id j config cs e,
  eq_iff c.id id,
  eq_iff c.id j,
  eq_iff id j,
  eq_iff config.id j,
)

find-append_config :
    (j : String) (cs : List Config) (c : Config)
    → find (has_id j) (cs ++ c ∷ [])
      ≡ (elim (find (has_id j) cs) [ some d ↦ some d | none ↦ if c.id == j then some c else none ])
find-append_config j [] c = ground arith
find-append_config j (d ∷ cs) c = ground (arith, find-append_config j cs c)

module _ {P : Type 0} (codec : ConnectionsCodec) (fresh : Client) (new_id : String)
    (config : Config) (w : World P) where
  -- Setting the configuration of an identifier that is listed replaces that one alone; with one that is
  -- not listed every configuration stays as it was. The browser's storage follows.
  pub set_conn_config-known :
      (id : String)
      → id ≢ ""
      → config.id ≡ id
      → let w' = (set_conn_config codec fresh new_id id config w).0 in
        ((j : String)
          → get_conn_config j w' ≡ (
              if is_listed id w.mqtt.connection_configs && id == j
              then some config
              else get_conn_config j w))
        × (w'.storage ≡ store_connections codec w'.mqtt.connection_configs w.storage)
  unfolding set_conn_config update_conn_configs
  set_conn_config-known id ne e =
      let other : (id == "") ≡ false = ground (arith, eq_iff id "") in
      rw other ((λ j. find-replace_config id j config w.mqtt.connection_configs e), refl)

  disconn-Keeps : (c : Config) → Keeps w (disconn fresh c w)
  unfolding disconn
  disconn-Keeps c = ground (arith, with_delegate-Keeps fresh c (cancel fresh) w)

  -- Setting a configuration without an identifier, the new identifier not being listed: it is found
  -- under the new identifier, and every other configuration as before. The browser's storage follows.
  pub set_conn_config-new :
      get_conn_config new_id w ≡ none
      → let w' = (set_conn_config codec fresh new_id "" config w).0 in
        ((j : String)
          → get_conn_config j w'
            ≡ (if new_id == j then some (record config { id = new_id }) else get_conn_config j w))
        × (w'.storage ≡ store_connections codec w'.mqtt.connection_configs w.storage)
  unfolding set_conn_config update_conn_configs
  set_conn_config-new h =
      let cs = w.mqtt.connection_configs in
      let added : Config = record config { id = new_id } in
      (
        (λ j. find-append_config j cs added ∙ ground (arith, eq_iff new_id j)),
        ap (store_connections codec (cs ++ added ∷ [])) (disconn-Keeps added).2,
      )
