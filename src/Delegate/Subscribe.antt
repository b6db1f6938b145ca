-- ===== src/Delegate/Subscribe.antt =====
-- Subscribing and unsubscribing (`sub`, `unsub` and their callbacks, web/src/utils/MqttDelegate.js).
-- `has_cb` says whether the caller gave a function to call back.
pub mod Laws
use tio.Common.{
  ℕ, Bool, true, false, not, ◌&&◌, ◌||◌, [], ◌∷◌, List, Option, none, some, String, nat_eq,
  if◌then◌else◌,
}
use tio.Common.Dict.{Dict, put, keys}
use tio.Json.{Json}
use tio.Notify.{Notice, notify_fail, notify_done}
use tio.Delegate.{
  Delegate, Effect, notify, subscribe, subscribe_map, unsubscribe, callback, is_connected,
  update_store, Step,
}

-- The topics of `sub`: a text, an array, or a map from topics to options.
pub data Topics : Type 0 where
  one : String → Topics
  many : List String → Topics
  map : Dict Json → Topics

-- `this.subs[t] = b` for each of the topics
unfoldable pub mark : Bool → List String → Dict Bool → Dict Bool
mark b [] m = m
mark b (t ∷ ts) m = mark b ts (put t b m)

abbrev pub topics_of : Topics → List String
topics_of (one t) = t ∷ []
topics_of (many ts) = ts
topics_of (map m) = keys m

-- `granted && granted[0] && [0, 1, 2].includes(granted[0].qos) === false`
abbrev pub is_refused : Option (List ℕ) → Bool
is_refused none = false
is_refused (some []) = false
is_refused (some (qos ∷ rest)) = not (nat_eq qos 0 || nat_eq qos 1 || nat_eq qos 2)

module _ {P : Type 0} where
  abbrev answer : Bool → Option String → Notice → Effect P
  answer has_cb err notice = if has_cb then callback err else notify notice

  abbrev pub marked : Bool → List String → Delegate P → Delegate P
  marked b topics d = record d { subs = mark b topics d.subs }

  unfoldable pub onsub :
      Topics
      → (has_cb : Bool) (err : Option String) (granted : Option (List ℕ)) → Delegate P
      → Step P
  onsub topics has_cb (some err) granted d = (d, answer has_cb (some err) (notify_fail err) ∷ [])
  onsub topics has_cb none granted d =
      if is_refused granted
      then (
        d,
        answer has_cb (some "Subscription failure") (notify_fail "Subscription failure") ∷ [],
      )
      else let d' = marked true (topics_of topics) d in
        (d', update_store d' ∷ answer has_cb none (notify_done "Topic(s) Subscribed") ∷ [])

  unfoldable pub onsubmap : Dict Json → (has_cb : Bool) (err : Option String) → Delegate P → Step P
  onsubmap m has_cb (some err) d = (d, answer has_cb (some err) (notify_fail err) ∷ [])
  onsubmap m has_cb none d =
      let d' = marked true (keys m) d in
      (d', update_store d' ∷ answer has_cb none (notify_done "Topic(s) Subscribed") ∷ [])

  -- The callback of `client.subscribe` that `sub` binds for its topics.
  unfoldable pub on_subscribed :
      Topics
      → (has_cb : Bool) (err : Option String) (granted : Option (List ℕ)) → Delegate P
      → Step P
  unfolding onsub onsubmap
  on_subscribed (map m) has_cb err granted d = onsubmap m has_cb err d
  on_subscribed topics has_cb err granted d = onsub topics has_cb err granted d

  abbrev pub request : Topics → Option Json → Effect P
  request (one t) opts = subscribe (t ∷ []) opts
  request (many ts) opts = subscribe ts opts
  request (map m) opts = subscribe_map m

  unfoldable pub sub : Topics → Option Json → Delegate P → Step P
  sub topics opts d =
      if is_connected d
      then (d, request topics opts ∷ [])
      else (d, notify (notify_fail "Client not connected") ∷ [])

  unfoldable pub unsub : List String → Delegate P → Step P
  unsub topics d =
      if is_connected d
      then (d, unsubscribe topics ∷ [])
      else (d, notify (notify_fail "Client not connected") ∷ [])

  -- The callback of `client.unsubscribe`.
  unfoldable pub on_unsubscribed :
      List String → (has_cb : Bool) (err : Option String) → Delegate P → Step P
  on_unsubscribed topics has_cb (some err) d = (d, answer has_cb (some err) (notify_fail err) ∷ [])
  on_unsubscribed topics has_cb none d =
      let d' = marked false topics d in
      (d', update_store d' ∷ answer has_cb none (notify_done "Topic(s) Unsubscribed") ∷ [])
