-- ===== src/Subs/Own.antt =====
-- The topics that are suggested to a thing (`getSuggestedTopicsForThing` of web/src/utils/subs.js)
-- receive that thing's topics alone.
use text.Mathlib.TextLemmas.{append_assoc}
use mathlib.Core.List.{Memᴰ}
use tio.Common.{
  ℕ, suc, ◌≡◌, ◌∙◌, ap, true, false, List, [], ◌∷◌, String, ◌+++◌, split, includes, All, eq_iff,
  arith,
}
use tio.Topic.{match_from, match_topic_method}
use tio.Topic.Split.{NoSlash, split-append}
use tio.Topic.Laws.{IsPlain}
use tio.Subs.{
  Grouped, SubConfig, QosOpts, suggest_from, get_suggested_topics_for_thing, topics, init,
}

-- A topic below the things' prefix and a thing's identifier.
abbrev pub IsBelow : String → List String → Type 0
IsBelow id levels = (rest : List String) × (levels ≡ "$iothub" ∷ "things" ∷ id ∷ rest)

things_prefix :
    (x : String) → "$iothub/things/" +++ x ≡ "$iothub" +++ ("/" +++ ("things" +++ ("/" +++ x)))
things_prefix x =
    append_assoc "$iothub" "/things/" x
    ∙ ap (λ y. "$iothub" +++ y)
        (append_assoc "/" "things/" x ∙ ap (λ y. "/" +++ y) (append_assoc "things" "/" x))

split-things :
    (id rest : String)
    → NoSlash id
    → split ("$iothub/things/" +++ (id +++ ("/" +++ rest))) ≡ "$iothub" ∷ "things" ∷ id ∷ split rest
split-things id rest h =
    ap split (things_prefix (id +++ ("/" +++ rest)))
    ∙ split-append "$iothub" _ (omega arith)
    ∙ ap (λ ls. "$iothub" ∷ ls) (split-append "things" _ (omega arith))
    ∙ ap (λ ls. "$iothub" ∷ "things" ∷ ls) (split-append id rest h)

IsBelow-things :
    (id rest : String)
    → NoSlash id
    → IsBelow id (split ("$iothub/things/" +++ (id +++ ("/" +++ rest))))
IsBelow-things id rest h = (split rest, split-things id rest h)

suggested-IsBelow :
    (id : String)
    → NoSlash id
    → All (λ g. IsBelow id (split (g.topic.topic_resolver id))) topics.suggested_for_thing
unfolding init
suggested-IsBelow id h = (
  IsBelow-things id "methods/+/req" h,
  (
    IsBelow-things id "shadows/name/default/get/accepted" h,
    (
      IsBelow-things id "shadows/name/default/get/rejected" h,
      (
        IsBelow-things id "shadows/name/default/update/accepted" h,
        (
          IsBelow-things id "shadows/name/default/update/rejected" h,
          (
            IsBelow-things id "shadows/name/default/update/documents" h,
            (IsBelow-things id "shadows/name/default/update/delta" h, tt),
          ),
        ),
      ),
    ),
  ),
)

-- A level without wildcards takes its equal.
match_from-cons :
    (n m : ℕ) (l : String) (fs ts : List String)
    → IsPlain l
    → match_from n m (l ∷ fs) ts ≡ true
    → (rest : List String) × (ts ≡ l ∷ rest) × (match_from n m fs rest ≡ true)
unfolding match_from
match_from-cons n m l fs [] p h = absurd (ground (arith, eq_iff l "#", eq_iff l "+"))
match_from-cons n m l fs (t ∷ ts) p h = (
  ts,
  ground (arith, eq_iff l "#", eq_iff l "+", eq_iff l t),
  ground (arith, eq_iff l "#", eq_iff l "+", eq_iff l t),
)

IsPlain-words : (IsPlain "$iothub") × (IsPlain "things")
IsPlain-words =
    ground
      (arith, eq_iff "$iothub" "#", eq_iff "$iothub" "+", eq_iff "things" "#", eq_iff "things" "+")

IsBelow-match :
    (n m : ℕ) (id : String) (rest ts : List String)
    → IsPlain id
    → match_from n m ("$iothub" ∷ "things" ∷ id ∷ rest) ts ≡ true
    → IsBelow id ts
IsBelow-match n m id rest ts p h =
    let (ts₁, e₁, h₁) = match_from-cons n m "$iothub" _ ts IsPlain-words.0 h in
    let (ts₂, e₂, h₂) = match_from-cons n m "things" _ ts₁ IsPlain-words.1 h₁ in
    let (ts₃, e₃, h₃) = match_from-cons n m id _ ts₂ p h₂ in (ts₃, cc)

filter_match :
    (id filter topic : String)
    → IsPlain id
    → includes filter "$share" ≡ false
    → IsBelow id (split filter)
    → match_topic_method filter topic ≡ true
    → IsBelow id (split topic)
unfolding match_topic_method
filter_match id filter topic p plain (rest, e) h =
    IsBelow-match _ _ id rest (split topic) p (rw e at (rw plain at h))

suggest_from-IsBelow :
    (fresh : ℕ → String) (n : ℕ) (id : String) (gs : List Grouped) {sub : SubConfig QosOpts}
    → All (λ g. IsBelow id (split (g.topic.topic_resolver id))) gs
    → Memᴰ sub (suggest_from fresh n id gs)
    → IsBelow id (split sub.topic)
unfolding suggest_from
suggest_from-IsBelow fresh n id [] h m = elim m [ ]
suggest_from-IsBelow fresh n id (g ∷ gs) (b, h) (Memᴰ.head e) = rw e b
suggest_from-IsBelow fresh n id (g ∷ gs) (b, h) (Memᴰ.tail m) =
    suggest_from-IsBelow fresh (suc n) id gs h m

-- For a thing whose identifier has no slash and is no wildcard: whatever topic matches one of its
-- suggested subscriptions (one that does not spell a shared subscription) lies below
-- `$iothub/things/` and that identifier.
pub suggested_own :
    (fresh : ℕ → String) (id : String) (sub : SubConfig QosOpts) (topic : String)
    → NoSlash id
    → IsPlain id
    → Memᴰ sub (get_suggested_topics_for_thing fresh id)
    → includes sub.topic "$share" ≡ false
    → match_topic_method sub.topic topic ≡ true
    → IsBelow id (split topic)
unfolding get_suggested_topics_for_thing
suggested_own fresh id sub topic h p m plain e =
    filter_match id sub.topic topic p plain
      (suggest_from-IsBelow fresh 0 id topics.suggested_for_thing (suggested-IsBelow id h) m) e
