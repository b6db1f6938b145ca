-- ===== src/Shadow/Same.antt =====
-- When `mergeState` (web/src/utils/shadow.js) finds no difference.
use tio.Common.{
  ℕ, suc, ◌≡◌, ◌<◌, refl, ◌⊎◌, inl, inr, Bool, true, false, [], ◌∷◌, Option, none, some, String,
  All, Bool-cases, Option-cases, eq_iff, eq_refl, arith,
}
use tio.Common.Dict.{Dict, get, put, Distinct}
use tio.Json.{
  Json, null, bool, num, str, arr, obj, Items, nil, item, Fields, end, field, fields, items_from,
  entries, prop, is_object, is_null, strict_eq,
}
use tio.Json.Decimal.{decimal, decimal_injective}
use tio.Shadow.{
  Outcome, ok, ◌>>=◌, Partial, merge_key, merge_missing, trim, merge_state, merge_fields,
  merge_items, finish,
}

abbrev AllNone : Partial → Type 0
AllNone = All (λ e. e.1 ≡ none)

put-AllNone : (k : String) (m : Partial) → AllNone m → AllNone (put k none m)
unfolding put
put-AllNone k [] h = (refl, tt)
put-AllNone k ((j, o) ∷ m) (p, h) = ground (arith, put-AllNone k m h)

trim_of_AllNone : (m : Partial) → AllNone m → trim m ≡ []
unfolding trim
trim_of_AllNone [] h = refl
trim_of_AllNone ((k, none) ∷ m) (p, h) = trim_of_AllNone m h
trim_of_AllNone ((k, some v) ∷ m) (p, h) = cc

-- A key that makes no difference: `o` is what the desired state has under it.
abbrev QuietValue : Bool → Json → (Json → Outcome (Option Json)) → Json → Type 0
QuietValue true v sub c = (is_null c ≡ true) ⊎ (sub c ≡ ok none)
QuietValue false v sub c = strict_eq v c ≡ true

abbrev Quiet : Json → (Json → Outcome (Option Json)) → Option Json → Type 0
Quiet v sub none = Unit
Quiet v sub (some c) = QuietValue (is_object v) v sub c

abbrev Calm : Outcome Partial → Type 0
Calm r = (d : Partial) × (r ≡ ok d) × AllNone d

merge_key-Quiet :
    (k : String) (v : Json) (sub : Json → Outcome (Option Json)) (cur : Json) (delta : Partial)
    → AllNone delta
    → Quiet v sub (prop k cur)
    → Calm (merge_key k v sub cur delta)
unfolding merge_key
merge_key-Quiet k v sub cur delta h q = elim (Option-cases (prop k cur)) [
  | inl absent ↦ (put k none delta, ground arith, put-AllNone k delta h)
  | inr (c, e) ↦ elim (Bool-cases (is_object v)) [
    | inr other ↦ (delta, ground arith, h)
    | inl o ↦ elim (Bool-cases (is_null c)) [
      | inl n ↦ (put k none delta, ground arith, put-AllNone k delta h)
      | inr n ↦ (delta, ground arith, h)
    ]
  ]
]

Calm-bind :
    (r : Outcome Partial) (f : Partial → Outcome Partial)
    → Calm r
    → ((d : Partial) → AllNone d → Calm (f d))
    → Calm (r >>= f)
Calm-bind r f (d, e, h) next = rw e (next d h)

finish-Calm :
    (pre cur : Json) (r : Outcome Partial)
    → is_null cur ≡ false
    → ((d : Partial) → merge_missing pre (entries cur) d ≡ d)
    → Calm r
    → (r >>= finish pre cur) ≡ ok none
unfolding finish
finish-Calm pre cur r n same (d, e, h) = rw (e, n, same d, trim_of_AllNone d h)

strict_eq_refl : (v : Json) → is_object v ≡ false → strict_eq v v ≡ true
unfolding strict_eq
strict_eq_refl (bool true) h = refl
strict_eq_refl (bool false) h = refl
strict_eq_refl (num n) h = eq_refl n
strict_eq_refl (str s) h = eq_refl s
strict_eq_refl _ h = cc

-- An array or an object.
abbrev pub is_container : Json → Bool
is_container (arr xs) = true
is_container (obj fs) = true
is_container _ = false

not_null : (v : Json) → is_container v ≡ true → is_null v ≡ false
not_null null h = cc
not_null _ h = refl

-- Every object inside has distinct keys, as the objects of JavaScript have.
abbrev mutual
  pub IsWf : Json → Type 0
  IsWf (arr xs) = AreWf xs
  IsWf (obj fs) = Distinct (fields fs) × FieldsWf fs
  IsWf _ = Unit

  pub AreWf : Items → Type 0
  AreWf nil = Unit
  AreWf (item v vs) = IsWf v × AreWf vs

  pub FieldsWf : Fields → Type 0
  FieldsWf end = Unit
  FieldsWf (field k v fs) = IsWf v × FieldsWf fs

abbrev Found : Dict Json → Dict Json → Type 0
Found m = All (λ e. get e.0 m ≡ some e.1)

Found-cons :
    (k : String) (v : Json) (m ms : Dict Json) → get k m ≡ none → Found m ms → Found ((k, v) ∷ m) ms
unfolding get
Found-cons k v m [] n h = tt
Found-cons k v m ((j, w) ∷ ms) n (p, h) = (ground (arith, eq_iff k j), Found-cons k v m ms n h)

Found-self : (m : Dict Json) → Distinct m → Found m m
unfolding get
Found-self [] h = tt
Found-self ((k, v) ∷ m) (n, h) = (ground (arith, eq_refl k), Found-cons k v m m n (Found-self m h))

items_from-absent : (i n : ℕ) (xs : Items) → i < n → get (decimal i) (items_from n xs) ≡ none
unfolding get
items_from-absent i n nil h = refl
items_from-absent i n (item v vs) h =
    ground
      (arith, eq_iff (decimal n) (decimal i), decimal_injective n i, items_from-absent i (suc n) vs)

items_from-Distinct : (n : ℕ) (xs : Items) → Distinct (items_from n xs)
items_from-Distinct n nil = tt
items_from-Distinct n (item v vs) =
    (items_from-absent n (suc n) vs (omega arith), items_from-Distinct (suc n) vs)

entries-Distinct : (v : Json) → IsWf v → is_container v ≡ true → Distinct (entries v)
entries-Distinct (arr xs) w c = items_from-Distinct 0 xs
entries-Distinct (obj fs) w c = w.0
entries-Distinct null w c = cc
entries-Distinct _ w c = cc

abbrev Holds : Json → Dict Json → Type 0
Holds cur = All (λ e. prop e.0 cur ≡ some e.1)

Found-Holds : (cur : Json) (ms : Dict Json) → Found (entries cur) ms → Holds cur ms
unfolding prop
Found-Holds cur [] h = tt
Found-Holds cur ((k, v) ∷ ms) (p, h) = (ground arith, Found-Holds cur ms h)

entries-Holds : (v : Json) → IsWf v → is_container v ≡ true → Holds v (entries v)
entries-Holds v w c = Found-Holds v (entries v) (Found-self (entries v) (entries-Distinct v w c))

merge_missing-Holds :
    (pre : Json) (cs : Dict Json) (d : Partial) → Holds pre cs → merge_missing pre cs d ≡ d
unfolding merge_missing
merge_missing-Holds pre [] d h = refl
merge_missing-Holds pre ((k, v) ∷ cs) d (p, h) = rw p (merge_missing-Holds pre cs d h)

Quiet-self :
    (v : Json)
    → (is_container v ≡ true → merge_state v v ≡ ok none)
    → Quiet v (merge_state v) (some v)
Quiet-self (arr xs) h = inr (h refl)
Quiet-self (obj fs) h = inr (h refl)
Quiet-self null h = inl refl
Quiet-self (bool b) h = strict_eq_refl (bool b) refl
Quiet-self (num n) h = strict_eq_refl (num n) refl
Quiet-self (str t) h = strict_eq_refl (str t) refl

finish_self :
    (v : Json) (r : Outcome Partial)
    → IsWf v
    → is_container v ≡ true
    → Calm r
    → (r >>= finish v v) ≡ ok none
finish_self v r w c h =
    finish-Calm v v r (not_null v c)
      (λ d. merge_missing-Holds v (entries v) d (entries-Holds v w c)) h

mutual
  unfolding merge_state

  self : (v : Json) → IsWf v → is_container v ≡ true → merge_state v v ≡ ok none
  self (arr xs) w c =
      finish_self (arr xs) _ w refl
        (self_items 0 xs (arr xs) [] w (entries-Holds (arr xs) w refl) tt)
  self (obj fs) w c =
      finish_self (obj fs) _ w refl
        (self_fields fs (obj fs) [] w.1 (entries-Holds (obj fs) w refl) tt)
  self null w c = cc
  self _ w c = cc

  self_items :
      (n : ℕ) (xs : Items) (cur : Json) (delta : Partial)
      → AreWf xs
      → Holds cur (items_from n xs)
      → AllNone delta
      → Calm (merge_items n xs cur delta)
  self_items n nil cur delta w h q = (delta, refl, q)
  self_items n (item v vs) cur delta (w, ws) (p, h) q =
      Calm-bind _ _
        (merge_key-Quiet (decimal n) v (merge_state v) cur delta q (rw p (Quiet-self v (self v w))))
        (λ d q'. self_items (suc n) vs cur d ws h q')

  self_fields :
      (fs : Fields) (cur : Json) (delta : Partial)
      → FieldsWf fs
      → Holds cur (fields fs)
      → AllNone delta
      → Calm (merge_fields fs cur delta)
  self_fields end cur delta w h q = (delta, refl, q)
  self_fields (field k v fs) cur delta (w, ws) (p, h) q =
      Calm-bind _ _
        (merge_key-Quiet k v (merge_state v) cur delta q (rw p (Quiet-self v (self v w))))
        (λ d q'. self_fields fs cur d ws h q')

-- A state of objects and arrays has no difference from itself, at any depth: the delta is
-- undefined.
pub merge_state_self : (v : Json) → IsWf v → is_container v ≡ true → merge_state v v ≡ ok none
merge_state_self v w c = self v w c

-- A scalar: a truth value or a number, of which no property is defined.
abbrev pub is_scalar : Json → Bool
is_scalar (bool b) = true
is_scalar (num n) = true
is_scalar _ = false

prop-scalar : (c : Json) (k : String) → is_scalar c ≡ true → prop k c ≡ none
unfolding prop get
prop-scalar (bool b) k h = ground arith
prop-scalar (num n) k h = ground arith
prop-scalar null k h = cc
prop-scalar _ k h = cc

scalar_not_null : (c : Json) → is_scalar c ≡ true → is_null c ≡ false
scalar_not_null null h = cc
scalar_not_null _ h = refl

scalar_missing :
    (fs : Fields) (c : Json) (d : Partial)
    → is_scalar c ≡ true
    → merge_missing (obj fs) (entries c) d ≡ d
unfolding merge_missing
scalar_missing fs (bool b) d h = refl
scalar_missing fs (num n) d h = refl
scalar_missing fs null d h = refl
scalar_missing fs _ d h = cc

scalar_fields :
    (fs : Fields) (c : Json) (delta : Partial)
    → is_scalar c ≡ true
    → AllNone delta
    → Calm (merge_fields fs c delta)
unfolding merge_state
scalar_fields end c delta h q = (delta, refl, q)
scalar_fields (field k v fs) c delta h q =
    Calm-bind _ _ (merge_key-Quiet k v (merge_state v) c delta q (rw (prop-scalar c k h) tt))
      (λ d q'. scalar_fields fs c d h q')

-- Where the desired state replaces an object by a truth value or a number, no difference is found.
pub merge_state-scalar :
    (fs : Fields) (c : Json) → is_scalar c ≡ true → merge_state (obj fs) c ≡ ok none
unfolding merge_state
merge_state-scalar fs c h =
    finish-Calm (obj fs) c _ (scalar_not_null c h) (λ d. scalar_missing fs c d h)
      (scalar_fields fs c [] h tt)
