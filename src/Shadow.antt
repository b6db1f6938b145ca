-- ===== src/Shadow.antt =====
-- The difference between the desired and the reported state of a thing (web/src/utils/shadow.js).
-- `type_error` is the exception of `Object.keys` on null or undefined. A delta under construction
-- maps each of its keys to a value or to `none`, which stands for `undefined`.
pub mod Delta
pub mod Laws
pub mod Same
pub mod Total
mod Tests
use tio.Common.{
  Bool, true, false, is_some, [], ◌∷◌, Option, none, some, String, ℕ, suc, if◌then◌else◌,
}
use tio.Common.Dict.{Dict, get, put}
use tio.Json.{
  Json, null, bool, num, str, arr, obj, Items, nil, item, Fields, end, field, of_dict, chars_from,
  entries, prop, is_object, is_null, strict_eq,
}
use tio.Json.Decimal.{decimal}

pub data Outcome {ℓ} (A : Type ℓ) : Type ℓ where
  type_error : Outcome A
  ok : A → Outcome A

infixl 5 ◌>>=◌
abbrev pub ◌>>=◌ {ℓ κ} : {A : Type ℓ} {B : Type κ} → Outcome A → (A → Outcome B) → Outcome B
type_error >>= next = type_error
ok a >>= next = next a

abbrev pub Partial : Type 0
Partial = Dict (Option Json)

-- One round of the first loop: the key `k` has the value `v` in the reported state. `sub` is the
-- difference of `v` and a desired value.
unfoldable pub merge_key :
    String → Json → (Json → Outcome (Option Json)) → Json → Partial → Outcome Partial
merge_key k v sub cur delta =
    if is_object v
    then elim (prop k cur) [
      | none ↦ ok (put k none delta)
      | some c ↦
          if is_null c
          then ok (put k none delta)
          else (sub c >>= elim [ none ↦ ok delta | some d ↦ ok (put k (some d) delta) ])
    ]
    else elim (prop k cur) [
      | none ↦ ok (put k none delta)
      | some c ↦ if strict_eq v c then ok delta else ok (put k (some c) delta)
    ]

-- The second loop, over the desired state: what the reported state lacks.
unfoldable pub merge_missing : Json → Dict Json → Partial → Partial
merge_missing pre [] delta = delta
merge_missing pre ((k, v) ∷ cs) delta = merge_missing pre cs (elim (prop k pre) [
  | some _ ↦ delta
  | none ↦ if is_null v then delta else put k (some v) delta
])

-- `JSON.parse(JSON.stringify(delta))` drops what is undefined.
unfoldable pub trim : Partial → Dict Json
trim [] = []
trim ((k, none) ∷ m) = trim m
trim ((k, some v) ∷ m) = (k, v) ∷ trim m

abbrev pub none_if_empty : Dict Json → Option Json
none_if_empty [] = none
none_if_empty (e ∷ m) = some (obj (of_dict (e ∷ m)))

-- What follows the first loop; `Object.keys(curState)` fails on null.
unfoldable pub finish : Json → Json → Partial → Outcome (Option Json)
unfolding trim merge_missing
finish pre cur delta =
    if is_null cur
    then type_error
    else ok (none_if_empty (trim (merge_missing pre (entries cur) delta)))

-- The first loop over a text, whose characters are no objects.
unfoldable pub merge_chars : ℕ → String → Json → Partial → Outcome Partial
merge_chars n String.[] cur delta = ok delta
merge_chars n (String.◌∷◌ c s) cur delta =
    merge_key (decimal n) (str (String.◌∷◌ c String.[])) (λ _. type_error) cur delta
    >>= merge_chars (suc n) s cur

unfoldable mutual
  pub merge_state : Json → Json → Outcome (Option Json)
  merge_state null cur = type_error
  merge_state (bool b) cur = finish (bool b) cur []
  merge_state (num n) cur = finish (num n) cur []
  merge_state (str s) cur = merge_chars 0 s cur [] >>= finish (str s) cur
  merge_state (arr xs) cur = merge_items 0 xs cur [] >>= finish (arr xs) cur
  merge_state (obj fs) cur = merge_fields fs cur [] >>= finish (obj fs) cur

  pub merge_items : ℕ → Items → Json → Partial → Outcome Partial
  merge_items n nil cur delta = ok delta
  merge_items n (item v vs) cur delta =
      merge_key (decimal n) v (merge_state v) cur delta >>= merge_items (suc n) vs cur

  pub merge_fields : Fields → Json → Partial → Outcome Partial
  merge_fields end cur delta = ok delta
  merge_fields (field k v fs) cur delta =
      merge_key k v (merge_state v) cur delta >>= merge_fields fs cur

-- The state of a shadow as the server sends it; `none` where a part is missing.
pub record State : Type 0 where
  pub desired : Option Json
  pub reported : Option Json

abbrev merge_known : Option Json → Option Json → Outcome (Option Json)
merge_known (some reported) (some desired) = merge_state reported desired
merge_known _ _ = type_error

-- The answer is the pair of `delta !== void 0` and `delta`.
unfoldable pub diff_state : Option State → Outcome (Bool × Option Json)
diff_state none = merge_state (obj end) (obj end) >>= λ d. ok (is_some d, d)
diff_state (some s) = merge_known s.reported s.desired >>= λ d. ok (is_some d, d)
