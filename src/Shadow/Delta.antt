-- ===== src/Shadow/Delta.antt =====
-- What each key of the delta holds after the two loops of `mergeState` (web/src/utils/shadow.js).
use tio.Common.{
  ◌≡◌, ◌∙◌, refl, ap, ◌⊎◌, inl, inr, true, [], ◌∷◌, Option, none, some, String, ◌==◌, is_some,
  if◌then◌else◌, eq_iff, eq_refl, subst, arith,
}
use tio.Common.Dict.{Dict, get, put, get-put, Distinct, put-Distinct}
use tio.Json.{Json, obj, Fields, end, field, fields, of_dict, prop, is_object, is_null, strict_eq}
use tio.Shadow.{
  Outcome, ok, type_error, ◌>>=◌, Partial, merge_key, merge_missing, trim, merge_state,
  merge_fields, none_if_empty,
}

-- What a delta under construction holds under a key, `undefined` and a missing key being one.
abbrev pub flat : Option (Option Json) → Option Json
flat none = none
flat (some o) = o

abbrev pub value : String → Partial → Option Json
value k delta = flat (get k delta)

abbrev pub result_or_none : Outcome (Option Json) → Option Json
result_or_none (ok r) = r
result_or_none type_error = none

-- The delta of one key that the reported state has, with value `v`; `sub` takes a desired value to
-- its difference from `v`.
abbrev pub known_delta : Json → (Json → Outcome (Option Json)) → Option Json → Option Json
known_delta v sub none = none
known_delta v sub (some c) =
    if is_object v
    then if is_null c then none else result_or_none (sub c)
    else if strict_eq v c
    then none
    else some c

module _ (k : String) (v : Json) (sub : Json → Outcome (Option Json)) (cur : Json)
    (delta : Partial) where
  -- A round leaves the delta, where the key has no difference, or sets the key to its difference.
  merge_key_cases :
      {d : Partial}
      → merge_key k v sub cur delta ≡ ok d
      → ((d ≡ delta) × (known_delta v sub (prop k cur) ≡ none))
        ⊎ (d ≡ put k (known_delta v sub (prop k cur)) delta)
  unfolding merge_key
  merge_key_cases {d} e = ground arith

  merge_key-value :
      (j : String) {d : Partial}
      → value k delta ≡ none
      → merge_key k v sub cur delta ≡ ok d
      → value j d ≡ (if k == j then known_delta v sub (prop k cur) else value j delta)
  merge_key-value j {d} h e = elim (merge_key_cases e) [
    | inl (same, no_delta) ↦ rw (same, no_delta) (ground (arith, eq_iff k j))
    | inr put_it ↦ rw (put_it, get-put) (ground arith)
  ]

  merge_key-Distinct :
      {d : Partial} → Distinct delta → merge_key k v sub cur delta ≡ ok d → Distinct d
  merge_key-Distinct {d} h e = elim (merge_key_cases e) [
    | inl (same, _) ↦ rw same h
    | inr put_it ↦ rw put_it (put-Distinct k _ delta h)
  ]

-- Where two steps in a row answer, the first does, and the second from there.
pub >>=-eq-ok :
    {D E : Type 0} (step : Outcome D) (next : D → Outcome E) {e : E}
    → (step >>= next) ≡ ok e
    → (d : D) × (step ≡ ok d) × (next d ≡ ok e)
>>=-eq-ok type_error next answers = cc
>>=-eq-ok (ok d) next answers = (d, refl, answers)

pub ok_injective {ℓ} : {A : Type ℓ} {a b : A} → ok a ≡ ok b → a ≡ b
ok_injective e = cc

-- The delta after the loop over the fields that are left.
abbrev pub known_or : Fields → Json → Partial → String → Option Json
known_or fs cur delta j = elim (get j (fields fs)) [
  | some v ↦ known_delta v (merge_state v) (prop j cur)
  | none ↦ value j delta
]

pub merge_fields-value :
    (fs : Fields) (cur : Json) (delta : Partial) (j : String) {d : Partial}
    → Distinct (fields fs)
    → ((i : String) → is_some (get i (fields fs)) ≡ true → value i delta ≡ none)
    → merge_fields fs cur delta ≡ ok d
    → value j d ≡ known_or fs cur delta j
unfolding merge_state get
merge_fields-value end cur delta j h fresh e = cc
merge_fields-value (field k v fs) cur delta j {d} (absent, h) fresh e =
    let (d₁, e₁, e₂) =
      >>=-eq-ok (merge_key k v (merge_state v) cur delta) (merge_fields fs cur) e in
    let new_key = fresh k (ground (arith, eq_refl k)) in
    let here = merge_key-value k v (merge_state v) cur delta j new_key e₁ in
    let later =
      merge_fields-value fs cur d₁ j h
        (λ i p.
          ground (
            arith,
            merge_key-value k v (merge_state v) cur delta i new_key e₁,
            fresh i,
            eq_iff k i,
          ))
        e₂ in
    ground (arith, eq_iff k j)

pub merge_fields-Distinct :
    (fs : Fields) (cur : Json) (delta : Partial) {d : Partial}
    → Distinct delta
    → merge_fields fs cur delta ≡ ok d
    → Distinct d
unfolding merge_state
merge_fields-Distinct end cur delta h e = subst Distinct (ok_injective e) h
merge_fields-Distinct (field k v fs) cur delta h e =
    let (d₁, e₁, e₂) =
      >>=-eq-ok (merge_key k v (merge_state v) cur delta) (merge_fields fs cur) e in
    merge_fields-Distinct fs cur d₁ (merge_key-Distinct k v (merge_state v) cur delta h e₁) e₂

-- One round of the second loop.
abbrev missing : Json → String → Json → Partial → Partial
missing pre k c delta = elim (prop k pre) [
  | some _ ↦ delta
  | none ↦ if is_null c then delta else put k (some c) delta
]

missing-value :
    (pre : Json) (k : String) (c : Json) (delta : Partial) (j : String)
    → value j (missing pre k c delta) ≡ (
        if k == j
        then if is_some (prop j pre)
          then value j delta
          else if is_null c
          then value j delta
          else some c
        else value j delta)
missing-value pre k c delta j = ground (arith, get-put k j (some c) delta, eq_iff k j)

missing-Distinct :
    (pre : Json) (k : String) (c : Json) (delta : Partial)
    → Distinct delta
    → Distinct (missing pre k c delta)
missing-Distinct pre k c delta h = ground (arith, put-Distinct k (some c) delta h)

pub merge_missing-value :
    (pre : Json) (cs : Dict Json) (delta : Partial) (j : String)
    → Distinct cs
    → value j (merge_missing pre cs delta) ≡ (elim (get j cs) [
      | none ↦ value j delta
      | some c ↦
          if is_some (prop j pre)
          then value j delta
          else if is_null c
          then value j delta
          else some c
    ])
unfolding merge_missing get
merge_missing-value pre [] delta j h = refl
merge_missing-value pre ((k, c) ∷ cs) delta j (absent, h) = ground (
  arith,
  merge_missing-value pre cs (missing pre k c delta) j h,
  missing-value pre k c delta j,
  eq_iff k j,
)

pub merge_missing-Distinct :
    (pre : Json) (cs : Dict Json) (delta : Partial)
    → Distinct delta
    → Distinct (merge_missing pre cs delta)
unfolding merge_missing
merge_missing-Distinct pre [] delta h = h
merge_missing-Distinct pre ((k, c) ∷ cs) delta h =
    merge_missing-Distinct pre cs (missing pre k c delta) (missing-Distinct pre k c delta h)

pub get-trim : (j : String) (m : Partial) → Distinct m → get j (trim m) ≡ value j m
unfolding trim get
get-trim j [] h = refl
get-trim j ((k, none) ∷ m) (absent, h) = ground (arith, get-trim j m h, eq_iff k j)
get-trim j ((k, some v) ∷ m) (absent, h) = ground (arith, get-trim j m h, eq_iff k j)

abbrev pub delta_prop : String → Option Json → Option Json
delta_prop j none = none
delta_prop j (some d) = prop j d

pub fields-of_dict : (m : Dict Json) → fields (of_dict m) ≡ m
fields-of_dict [] = refl
fields-of_dict ((k, v) ∷ m) = cc (fields-of_dict m)

pub prop-obj : (j : String) (fs : Fields) → prop j (obj fs) ≡ get j (fields fs)
unfolding prop
prop-obj j fs = ground arith

pub delta_prop-none_if_empty :
    (j : String) (m : Dict Json) → delta_prop j (none_if_empty m) ≡ get j m
delta_prop-none_if_empty j [] = unfold get in refl
delta_prop-none_if_empty j (e ∷ m) =
    prop-obj j (of_dict (e ∷ m)) ∙ ap (get j) (fields-of_dict (e ∷ m))
