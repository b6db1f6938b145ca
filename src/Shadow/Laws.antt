-- ===== src/Shadow/Laws.antt =====
-- What the delta of `mergeState` (web/src/utils/shadow.js) says of each key of two objects.
use tio.Common.{
  ◌≡◌, ◌∙◌, refl, sym, ap, inl, inr, false, [], Option, none, some, String, Bool-cases,
  if◌then◌else◌, ◌==◌, eq_iff, arith,
}
use tio.Common.Dict.{get, Distinct}
use tio.Json.{Json, null, obj, Fields, end, field, fields, is_null}
use tio.Shadow.{
  Outcome, ok, type_error, ◌>>=◌, Partial, merge_key, merge_missing, trim, merge_state,
  merge_fields, finish,
}
use tio.Shadow.Delta.{
  known_delta, merge_fields-value, merge_fields-Distinct, merge_missing-value,
  merge_missing-Distinct, get-trim, delta_prop, delta_prop-none_if_empty, >>=-eq-ok, ok_injective,
  prop-obj,
}

-- The delta of one key, from its reported and its desired value: what only the desired state has
-- is there, unless it is null; what only the reported state has is not; two primitive values give
-- the desired one if they differ; and where the reported value is an object the delta is that of the
-- two values, or nothing if the desired one is null.
abbrev pub delta_at : Option Json → Option Json → Option Json
delta_at none none = none
delta_at none (some c) = if is_null c then none else some c
delta_at (some v) desired = known_delta v (merge_state v) desired

bind_fails {ℓ κ} :
    {A : Type ℓ} {B : Type κ} (m : Outcome A) (f : A → Outcome B)
    → ((a : A) → f a ≡ type_error)
    → (m >>= f) ≡ type_error
bind_fails (ok a) f h = h a
bind_fails type_error f h = refl

module _ (cs : Fields) where
  merge_key_null :
      (k : String) (c : Json) (delta : Partial)
      → get k (fields cs) ≡ some c
      → is_null c ≡ false
      → merge_key k null (merge_state null) (obj cs) delta ≡ type_error
  unfolding merge_key merge_state
  merge_key_null k c delta q n = ground (arith, prop-obj k cs)

  fields_null :
      (fs : Fields) (k : String) (c : Json)
      → get k (fields fs) ≡ some null
      → get k (fields cs) ≡ some c
      → is_null c ≡ false
      → (delta : Partial) → merge_fields fs (obj cs) delta ≡ type_error
  unfolding merge_state get
  fields_null end k c p q n delta = cc
  fields_null (field j v fs) k c p q n delta = elim (Bool-cases (j == k)) [
    | inl e ↦
        let is_null_v : v ≡ null = ground (arith, eq_iff j k) in
        let at_j : get j (fields cs) ≡ some c = rw ((eq_iff j k).0 e) q in
        rw (is_null_v, merge_key_null j c delta at_j n) refl
    | inr e ↦
        bind_fails (merge_key j v (merge_state v) (obj cs) delta) _
          (fields_null fs k c (rw e at p) q n)
  ]

module _ (ps cs : Fields) (distinct : Distinct (fields ps)) (distinct' : Distinct (fields cs)) where
  finish-value :
      (k : String) (d : Partial) {r : Option Json}
      → merge_fields ps (obj cs) [] ≡ ok d
      → finish (obj ps) (obj cs) d ≡ ok r
      → delta_prop k r ≡ delta_at (get k (fields ps)) (get k (fields cs))
  unfolding finish get
  finish-value k d e f =
      let total = merge_missing (obj ps) (fields cs) d in
      let unique =
        merge_missing-Distinct (obj ps) (fields cs) d (merge_fields-Distinct ps (obj cs) [] tt e) in
      let known = merge_fields-value ps (obj cs) [] k distinct (λ i p. refl) e in
      let all = merge_missing-value (obj ps) (fields cs) d k distinct' in
      ap (delta_prop k) (sym (ok_injective f))
      ∙ delta_prop-none_if_empty k (trim total)
      ∙ get-trim k total unique
      ∙ ground (arith, all, known, prop-obj k ps, prop-obj k cs)

  -- For two objects whose keys are distinct, each key of the delta is what `delta_at` says of the
  -- key's reported and desired values.
  pub prop-merge_state :
      (k : String) (r : Option Json)
      → merge_state (obj ps) (obj cs) ≡ ok r
      → delta_prop k r ≡ delta_at (get k (fields ps)) (get k (fields cs))
  unfolding merge_state
  prop-merge_state k r e =
      let (d, e₁, e₂) = >>=-eq-ok (merge_fields ps (obj cs) []) (finish (obj ps) (obj cs)) e in
      finish-value k d e₁ e₂

  -- Where the reported state holds null under a key and the desired state something else, `mergeState`
  -- does not return: it reads the keys of null.
  pub null-type_error :
      (k : String) (c : Json)
      → get k (fields ps) ≡ some null
      → get k (fields cs) ≡ some c
      → is_null c ≡ false
      → merge_state (obj ps) (obj cs) ≡ type_error
  unfolding merge_state
  null-type_error k c p q n = rw (fields_null cs ps k c p q n []) refl
