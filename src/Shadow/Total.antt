-- ===== src/Shadow/Total.antt =====
-- When `mergeState` and `diffState` (web/src/utils/shadow.js) return.
use tio.Common.{
  ℕ, suc, ◌≡◌, refl, inl, inr, Bool, true, false, ◌&&◌, Option, some, String, [], is_some,
  Option-cases, arith,
}
use mathlib.Core.Bool.{and-eq-true_iff}
use tio.Json.{
  Json, null, bool, num, str, arr, obj, Items, nil, item, Fields, end, field, fields, prop,
  is_object, is_null,
}
use tio.Json.Decimal.{decimal}
use tio.Common.Dict.{Distinct, get}
use tio.Shadow.Delta.{delta_prop}
use tio.Shadow.Laws.{delta_at, prop-merge_state}
use tio.Shadow.{
  Outcome, ok, type_error, ◌>>=◌, Partial, merge_key, merge_chars, merge_state, merge_fields,
  merge_items, finish, diff_state,
}

-- No null stands anywhere in the value.
abbrev mutual
  pub null_free : Json → Bool
  null_free null = false
  null_free (arr xs) = items_null_free xs
  null_free (obj fs) = fields_null_free fs
  null_free _ = true

  pub items_null_free : Items → Bool
  items_null_free nil = true
  items_null_free (item v vs) = null_free v && items_null_free vs

  pub fields_null_free : Fields → Bool
  fields_null_free end = true
  fields_null_free (field k v fs) = null_free v && fields_null_free fs

abbrev is_ok {ℓ} : {A : Type ℓ} → Outcome A → Bool
is_ok (ok a) = true
is_ok type_error = false

is_ok-bind {ℓ κ} :
    {A : Type ℓ} {B : Type κ} (m : Outcome A) (f : A → Outcome B)
    → is_ok m ≡ true
    → ((a : A) → is_ok (f a) ≡ true)
    → is_ok (m >>= f) ≡ true
is_ok-bind (ok a) f e h = h a
is_ok-bind type_error f e h = cc

merge_key-is_ok :
    (k : String) (v : Json) (sub : Json → Outcome (Option Json)) (cur : Json) (delta : Partial)
    → ((c : Json) → is_object v ≡ true → is_null c ≡ false → is_ok (sub c) ≡ true)
    → is_ok (merge_key k v sub cur delta) ≡ true
unfolding merge_key
merge_key-is_ok k v sub cur delta h = elim (Option-cases (prop k cur)) [
  | inl absent ↦ ground arith
  | inr (c, e) ↦ ground (arith, h c)
]

finish-is_ok :
    (pre cur : Json) (d : Partial) → is_null cur ≡ false → is_ok (finish pre cur d) ≡ true
unfolding finish
finish-is_ok pre cur d n = rw n

chars-is_ok :
    (n : ℕ) (s : String) (cur : Json) (delta : Partial) → is_ok (merge_chars n s cur delta) ≡ true
unfolding merge_chars
chars-is_ok n String.[] cur delta = refl
chars-is_ok n (String.◌∷◌ c s) cur delta =
    is_ok-bind _ _ (merge_key-is_ok (decimal n) _ (λ _. type_error) cur delta (λ c e. cc))
      (λ d. chars-is_ok (suc n) s cur d)

mutual
  unfolding merge_state

  state-is_ok :
      (v cur : Json) → null_free v ≡ true → is_null cur ≡ false → is_ok (merge_state v cur) ≡ true
  state-is_ok null cur h n = cc
  state-is_ok (bool b) cur h n = finish-is_ok (bool b) cur [] n
  state-is_ok (num t) cur h n = finish-is_ok (num t) cur [] n
  state-is_ok (str s) cur h n =
      is_ok-bind _ _ (chars-is_ok 0 s cur []) (λ d. finish-is_ok (str s) cur d n)
  state-is_ok (arr xs) cur h n =
      is_ok-bind _ _ (items-is_ok 0 xs cur [] h) (λ d. finish-is_ok (arr xs) cur d n)
  state-is_ok (obj fs) cur h n =
      is_ok-bind _ _ (fields-is_ok fs cur [] h) (λ d. finish-is_ok (obj fs) cur d n)

  items-is_ok :
      (i : ℕ) (xs : Items) (cur : Json) (delta : Partial)
      → items_null_free xs ≡ true
      → is_ok (merge_items i xs cur delta) ≡ true
  items-is_ok i nil cur delta h = refl
  items-is_ok i (item v vs) cur delta h =
      let (here, later) = (and-eq-true_iff _ _).0 h in
      is_ok-bind _ _
        (merge_key-is_ok (decimal i) v (merge_state v) cur delta (λ c o n. state-is_ok v c here n))
        (λ d. items-is_ok (suc i) vs cur d later)

  fields-is_ok :
      (fs : Fields) (cur : Json) (delta : Partial)
      → fields_null_free fs ≡ true
      → is_ok (merge_fields fs cur delta) ≡ true
  fields-is_ok end cur delta h = refl
  fields-is_ok (field k v fs) cur delta h =
      let (here, later) = (and-eq-true_iff _ _).0 h in
      is_ok-bind _ _
        (merge_key-is_ok k v (merge_state v) cur delta (λ c o n. state-is_ok v c here n))
        (λ d. fields-is_ok fs cur d later)

is_ok-Returns {ℓ} : {A : Type ℓ} (r : Outcome A) → is_ok r ≡ true → (a : A) × (r ≡ ok a)
is_ok-Returns (ok a) h = (a, refl)
is_ok-Returns type_error h = cc

-- `diffState` returns for every state whose desired part is not null and whose reported part holds
-- no null at any depth; its first answer says whether the second, the delta, is defined.
pub diff_state_total :
    (desired reported : Json)
    → is_null desired ≡ false
    → null_free reported ≡ true
    → (delta : Option Json) × (merge_state reported desired ≡ ok delta)
      × (diff_state (some (record { desired = some desired; reported = some reported }))
          ≡ ok (is_some delta, delta))
unfolding diff_state
diff_state_total desired reported n h =
    let (delta, e) = is_ok-Returns _ (state-is_ok reported desired h n) in
    (delta, e, rw e (ground arith))

-- For a shadow whose two states are objects with distinct keys, the reported one without null at any
-- depth, `diffState` returns, and the delta holds under each key: nothing where the desired state lacks
-- the key; where the reported state lacks it, the desired value, or nothing for null; where the
-- reported value is primitive, the desired value, null included, or nothing if it is the same; and
-- where the reported value is an object, the difference of the two values, or nothing for null.
pub diff_state-delta_at :
    (ps cs : Fields)
    → Distinct (fields ps)
    → Distinct (fields cs)
    → fields_null_free ps ≡ true
    → (delta : Option Json) × (diff_state
          (some (record { desired = some (obj cs); reported = some (obj ps) }))
        ≡ ok (is_some delta, delta))
      × ((k : String) → delta_prop k delta ≡ delta_at (get k (fields ps)) (get k (fields cs)))
diff_state-delta_at ps cs distinct distinct' h =
    let (delta, e, returned) = diff_state_total (obj cs) (obj ps) refl h in
    (delta, returned, λ k. prop-merge_state ps cs distinct distinct' k delta e)
