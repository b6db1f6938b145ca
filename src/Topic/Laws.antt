-- ===== src/Topic/Laws.antt =====
-- What `matchTopicMethod` (web/src/utils/subs.js) answers on whole topics, and what
-- `MqttMessage.vue`, which calls it with its two arguments exchanged, gets from it.
use tio.Common.{
  ◌⊎◌, Bool-cases, inl, inr, ◌≡◌, ◌∙◌, refl, sym, ap, ◌≢◌, ◌↔◌, true, false, List, [], ◌∷◌, String,
  All, arith, includes, split, join, ◌+++◌, starts_with-append, includes_of_starts_with,
}
use tio.Topic.{match_topic_method}
use tio.Topic.Levels.{
  is_hidden, MatchesByMqtt, Matches, end, multi, single, level, HashLast, match_levels_iff,
}
use tio.Topic.Split.{NoSlash, join-split, split-append}

pub match_topic_method_levels :
    (filter topic : String)
    → includes filter "$share" ≡ false
    → HashLast (split filter)
    → (match_topic_method filter topic ≡ true) ↔ Matches (split filter) (split topic)
unfolding match_topic_method
match_topic_method_levels filter topic plain v =
    rw plain (match_levels_iff (split filter) (split topic) v)

-- For a filter that is no shared subscription and has `#` at its end only, the answer is true exactly
-- when the topic matches the filter by all the rules of MQTT, or when it does by those for levels
-- alone, the filter having a wildcard in front and the topic starting with `$`: there MQTT forbids the
-- match that the code finds.
pub match_topic_method_iff :
    (filter topic : String)
    → includes filter "$share" ≡ false
    → HashLast (split filter)
    → (match_topic_method filter topic ≡ true) ↔ (
        MatchesByMqtt (split filter) (split topic)
        ⊎ (Matches (split filter) (split topic) × (is_hidden (split filter) (split topic) ≡ true)))
match_topic_method_iff filter topic plain v =
    let (to, from) = match_topic_method_levels filter topic plain v in
    (
      λ e. elim (Bool-cases (is_hidden (split filter) (split topic))) [
        | inl h ↦ inr (to e, h)
        | inr h ↦ inl (record { levels = to e; visible = h })
      ],
      λ m. elim m [ inl r ↦ from r.levels | inr (r, h) ↦ from r ],
    )

abbrev pub shared : String → String → String
shared group filter = "$share" +++ ("/" +++ (group +++ ("/" +++ filter)))

includes-shared : (s : String) → includes ("$share" +++ s) "$share" ≡ true
includes-shared s = includes_of_starts_with _ _ (starts_with-append "$share" s)

split-shared :
    (group filter : String)
    → NoSlash group
    → split (shared group filter) ≡ "$share" ∷ group ∷ split filter
split-shared group filter h =
    split-append "$share" (group +++ ("/" +++ filter)) (omega arith)
    ∙ ap (λ ps. "$share" ∷ ps) (split-append group filter h)

-- The name of the share and its prefix are ignored: a shared subscription matches as its filter does.
pub match_topic_method-shared :
    (group filter topic : String)
    → NoSlash group
    → HashLast (split filter)
    → (match_topic_method (shared group filter) topic ≡ true) ↔ Matches (split filter) (split topic)
unfolding match_topic_method
match_topic_method-shared group filter topic h v =
    rw
      (
        includes-shared ("/" +++ (group +++ ("/" +++ filter))),
        split-shared group filter h,
        join-split filter,
      )
      (match_levels_iff (split filter) (split topic) v)

-- No level is a wildcard.
abbrev pub IsPlain : String → Type 0
IsPlain l = (l ≢ "#") × (l ≢ "+")

Matches-plain : {fs ts : List String} → All IsPlain fs → Matches fs ts → fs ≡ ts
Matches-plain h end = refl
Matches-plain h (multi e) = absurd (h.0.0 e)
Matches-plain h (single e r) = absurd (h.0.1 e)
Matches-plain h (level _ e r) = cc (e, Matches-plain h.1 r)

plain-HashLast : (fs : List String) → All IsPlain fs → HashLast fs
plain-HashLast [] h = tt
plain-HashLast (l ∷ fs) (p, h) = ((λ e. absurd (p.0 e)), plain-HashLast fs h)

plain_match-eq :
    (topic wanted : String)
    → All IsPlain (split topic)
    → Matches (split topic) (split wanted)
    → topic ≡ wanted
plain_match-eq topic wanted h m =
    sym (join-split topic) ∙ ap join (Matches-plain h m) ∙ join-split wanted

plain_refl : (fs : List String) → All IsPlain fs → Matches fs fs
plain_refl [] h = end
plain_refl (l ∷ fs) (p, h) = level p.0 refl (plain_refl fs h)

-- With a topic without wildcards in the filter's place, the answer is true exactly when the other
-- argument is the same text, whatever wildcards that has.
pub match_topic_method-plain :
    (topic wanted : String)
    → includes topic "$share" ≡ false
    → All IsPlain (split topic)
    → (match_topic_method topic wanted ≡ true) ↔ (topic ≡ wanted)
match_topic_method-plain topic wanted s h =
    let decided = match_topic_method_levels topic wanted s (plain-HashLast (split topic) h) in
    (
      λ e. plain_match-eq topic wanted h (decided.0 e),
      λ e. decided.1 (rw (← e) (plain_refl (split topic) h)),
    )
