-- ===== src/Delegate/Subscribe/Laws.antt =====
-- The subscriptions after the answers of the client (web/src/utils/MqttDelegate.js), and
-- `subscribeAll` (web/src/utils/subs.js) after its own success.
use tio.Common.{
  ℕ, ◌≡◌, refl, Bool, true, false, not, ◌&&◌, ◌||◌, [], ◌∷◌, List, Option, none, some, String, ◌==◌,
  filter, is_some, if◌then◌else◌, eq_iff, eq_refl, arith,
}
use tio.Common.Dict.{Dict, put, keys, get-put}
use tio.Json.{Json}
use tio.Notify.{notify_warn}
use tio.Delegate.{Delegate}
use tio.Subs.{SubConfig, subscribe, warn, is_subscribed, convert_subs_config_sub_map, subscribe_all}
use tio.Subs.Laws.{contains, contains-keys, last_opts, get-convert_subs_config_sub_map}
use tio.Delegate.Subscribe.{
  Topics, one, many, map, mark, topics_of, is_refused, onsubmap, on_subscribed, on_unsubscribed,
}

is_subscribed-put :
    (t k : String) (b : Bool) (m : Dict Bool)
    → is_subscribed (put k b m) t ≡ (if k == t then b else is_subscribed m t)
unfolding is_subscribed
is_subscribed-put t k b m = ground (arith, get-put k t b m)

pub is_subscribed-mark :
    (b : Bool) (ts : List String) (m : Dict Bool) (t : String)
    → is_subscribed (mark b ts m) t ≡ (if contains t ts then b else is_subscribed m t)
unfolding mark
is_subscribed-mark b [] m t = refl
is_subscribed-mark b (k ∷ ts) m t =
    ground (arith, is_subscribed-mark b ts (put k b m) t, is_subscribed-put t k b m)

-- The client granted what was asked; the answer for a map of topics is not looked at.
abbrev pub is_granted : Topics → Option String → Option (List ℕ) → Bool
is_granted topics (some err) granted = false
is_granted (map m) none granted = true
is_granted (one t) none granted = not (is_refused granted)
is_granted (many ts) none granted = not (is_refused granted)

module _ {P : Type 0} where
  -- After the answer to `sub` a topic is subscribed exactly when it was before, or is one of those
  -- asked for and the client reported no error and did not refuse the first of them.
  pub on_subscribed-is_subscribed :
      (topics : Topics) (has_cb : Bool) (err : Option String) (granted : Option (List ℕ))
      (d : Delegate P) (t : String)
      → is_subscribed (on_subscribed topics has_cb err granted d).0.subs t ≡ (
          (is_granted topics err granted && contains t (topics_of topics))
          || is_subscribed d.subs t)
  unfolding on_subscribed
  on_subscribed-is_subscribed topics has_cb err granted d t =
      ground (arith, is_subscribed-mark true (topics_of topics) d.subs t)

  -- After the answer to `unsub` a topic is subscribed exactly when it was before and is none of those
  -- given up, or the client reported an error.
  pub on_unsubscribed-is_subscribed :
      (topics : List String) (has_cb : Bool) (err : Option String) (d : Delegate P) (t : String)
      → is_subscribed (on_unsubscribed topics has_cb err d).0.subs t
        ≡ (is_subscribed d.subs t && (is_some err || not (contains t topics)))
  unfolding on_unsubscribed
  on_unsubscribed-is_subscribed topics has_cb err d t =
      ground (arith, is_subscribed-mark false topics d.subs t)

-- The configured subscriptions that are still to be made.
abbrev missing : Dict Bool → List (SubConfig Json) → List (SubConfig Json)
missing m = filter (λ sub. not (is_subscribed m sub.topic))

abbrev pub topics : List (SubConfig Json) → List String
topics [] = []
topics (sub ∷ subs) = sub.topic ∷ topics subs

last_opts-missing :
    (m : Dict Bool) (subs : List (SubConfig Json)) (t : String)
    → contains t (topics subs) ≡ true
    → is_subscribed m t ≡ false
    → is_some (last_opts t (missing m subs)) ≡ true
last_opts-missing m [] t h n = cc
last_opts-missing m (sub ∷ subs) t h n =
    ground (arith, last_opts-missing m subs t, eq_iff sub.topic t)

missing_none :
    (m : Dict Bool) (subs : List (SubConfig Json))
    → ((t : String) → contains t (topics subs) ≡ true → is_subscribed m t ≡ true)
    → missing m subs ≡ []
missing_none m [] f = refl
missing_none m (sub ∷ subs) f =
    ground (arith, f sub.topic, eq_refl sub.topic, missing_none m subs (λ t h. f t (ground arith)))

asked_eq :
    (subs : List (SubConfig Json)) (m : Dict Bool) (asked : Dict Json)
    (configs : List (SubConfig Json))
    → subscribe_all (some subs) m ≡ subscribe asked configs
    → asked ≡ convert_subs_config_sub_map (missing m subs)
unfolding subscribe_all
asked_eq subs m asked configs e = ground arith

subscribe_all-missing :
    (subs : List (SubConfig Json)) (m : Dict Bool)
    → missing m subs ≡ []
    → subscribe_all (some subs) m
      ≡ warn (notify_warn "All configured subscriptions have already been subscribed.")
unfolding subscribe_all
subscribe_all-missing subs m e = rw e

module _ {P : Type 0} where
  -- Once the client has subscribed to what `subscribeAll` asked for, a second `subscribeAll` asks for
  -- nothing, and says so.
  pub subscribe_all-onsubmap :
      (subs : List (SubConfig Json)) (d : Delegate P) (has_cb : Bool) (asked : Dict Json)
      (configs : List (SubConfig Json))
      → subscribe_all (some subs) d.subs ≡ subscribe asked configs
      → subscribe_all (some subs) (onsubmap asked has_cb none d).0.subs
        ≡ warn (notify_warn "All configured subscriptions have already been subscribed.")
  unfolding onsubmap
  subscribe_all-onsubmap subs d has_cb asked configs e = subscribe_all-missing subs _ (
      missing_none _ subs λ t h. ground (
        arith,
        is_subscribed-mark true (keys asked) d.subs t,
        contains-keys t asked,
        asked_eq subs d.subs asked configs e,
        get-convert_subs_config_sub_map t (missing d.subs subs),
        last_opts-missing d.subs subs t h,
      ))
