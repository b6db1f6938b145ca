-- ===== src/Topic/Levels.antt =====
-- `matchTopicMethod` level by level, against the matching rules of MQTT as a relation. The rule that
-- a wildcard in front matches no topic that starts with `$` is not in the code; it stands apart here.
use tio.Common.{
  ℕ, ◌+◌, ◌<◌, ◌≡◌, ◌≢◌, ◌↔◌, ◌⊎◌, inl, inr, suc, Bool, true, false, ◌==◌, ◌||◌, ◌&&◌, starts_with,
  string_dec, List, [], ◌∷◌, String, length, eq_iff, arith,
}
use tio.Topic.{match_from, match_levels}

-- The rules of MQTT for levels: `#` takes all the levels that are left, `+` takes one level, and any other
-- level takes its equal.
pub data Matches : List String → List String → Type 0 where
  end : Matches [] []
  multi : {l : String} {ts : List String} → l ≡ "#" → Matches (l ∷ []) ts
  single :
      {l t : String} {fs ts : List String} → l ≡ "+" → Matches fs ts → Matches (l ∷ fs) (t ∷ ts)
  level :
      {l t : String} {fs ts : List String}
      → l ≢ "#"
      → l ≡ t
      → Matches fs ts
      → Matches (l ∷ fs) (t ∷ ts)

-- Whether a wildcard stands in front and the topic starts with `$`.
abbrev pub is_hidden : List String → List String → Bool
is_hidden (l ∷ fs) (t ∷ ts) = (l == "#" || l == "+") && starts_with t "$"
is_hidden _ _ = false

-- All the rules of MQTT: those for levels, and that a filter with a wildcard in front matches no topic
-- that starts with `$`.
pub record MatchesByMqtt (fs ts : List String) : Type 0 where
  pub levels : Matches fs ts
  pub visible : is_hidden fs ts ≡ false

-- `#` stands at the end of a filter only, as MQTT demands.
abbrev pub HashLast : List String → Type 0
HashLast [] = Unit
HashLast (l ∷ fs) = (l ≡ "#" → fs ≡ []) × HashLast fs

-- Once the topic has run out, only a final `#` could still match.
match_from-nil : (n m : ℕ) (fs : List String) → m + length fs < n → match_from n m fs [] ≡ false
unfolding match_from
match_from-nil n m [] h = ground arith
match_from-nil n m (l ∷ fs) h = ground (arith, match_from-nil n m fs)

module _ (l : String) (fs : List String) where
  multi_last : (ts : List String) → (l ≡ "#" → fs ≡ []) → l ≡ "#" → Matches (l ∷ fs) ts
  multi_last ts last e = rw (last e) (multi e)

  level_sound :
      (t : String) (ts : List String) (n m : ℕ)
      → l ≢ "#"
      → match_from n m (l ∷ fs) (t ∷ ts) ≡ true
      → ((l ≡ t) ⊎ (l ≡ "+")) × (match_from n m fs ts ≡ true)
  unfolding match_from
  level_sound t ts n m h e = ground (arith, eq_iff l "#", eq_iff l t, eq_iff l "+")

match_sound :
    (k n m : ℕ) (fs ts : List String)
    → HashLast fs
    → n ≡ k + length fs
    → m ≡ k + length ts
    → match_from n m fs ts ≡ true
    → Matches fs ts
unfolding match_from
match_sound k n m [] [] v p q h = end
match_sound k n m [] (t ∷ ts) v p q h = absurd (ground arith)
match_sound k n m (l ∷ fs) [] v p q h = elim (string_dec l "#") [
  | yes e ↦ multi_last l fs [] v.0 e
  | no e ↦ absurd (ground (arith, eq_iff l "#", eq_iff l "+", match_from-nil n m fs))
]
match_sound k n m (l ∷ fs) (t ∷ ts) v p q h = elim (string_dec l "#") [
  | yes e ↦ multi_last l fs (t ∷ ts) v.0 e
  | no e ↦
      let (here, later) = level_sound l fs t ts n m e h in
      let rest = match_sound (suc k) n m fs ts v.1 (omega arith) (omega arith) later in
      elim here [ inl same ↦ level e same rest | inr plus ↦ single plus rest ]
]

match_complete :
    (k n m : ℕ) {fs ts : List String}
    → n ≡ k + length fs
    → m ≡ k + length ts
    → Matches fs ts
    → match_from n m fs ts ≡ true
unfolding match_from
match_complete k n m p q end = ground arith
match_complete k n m p q (multi {l} e) = ground (arith, eq_iff l "#")
match_complete k n m p q (single {l} {t} {fs} {ts} e r) =
    let rest = match_complete (suc k) n m (omega arith) (omega arith) r in
    rw e (ground (arith, eq_iff "+" "#", eq_iff "+" t))
match_complete k n m p q (level {l} {t} ne e r) =
    let rest = match_complete (suc k) n m (omega arith) (omega arith) r in
    ground (arith, eq_iff l "#", eq_iff l t)

-- The loop decides the relation, for a filter with `#` at its end only.
pub match_levels_iff :
    (fs ts : List String) → HashLast fs → (match_levels fs ts ≡ true) ↔ Matches fs ts
match_levels_iff fs ts v = (
  match_sound 0 (length fs) (length ts) fs ts v (omega arith) (omega arith),
  match_complete 0 (length fs) (length ts) (omega arith) (omega arith),
)
