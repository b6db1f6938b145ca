-- ===== src/Json.antt =====
-- Values of JSON, as the console reads them. A number is held as the text that `JSON.stringify`
-- prints, since the code only compares numbers, and two finite numbers are equal just when those
-- texts are. Properties inherited from `Object.prototype` are left out.
pub mod Decimal
use Prim.Native.String
use Prim.Native.String.{String}
use Decimal.{decimal}
use tio.Common.{
  ℕ, suc, Bool, true, false, ◌&&◌, ◌||◌, List, [], ◌∷◌, Option, none, some, ◌==◌, if◌then◌else◌,
}
use tio.Common.Dict.{Dict, get}

mutual
  pub data Json : Type 0 where
    null : Json
    bool : Bool → Json
    num : String → Json
    str : String → Json
    arr : Items → Json
    obj : Fields → Json

  pub data Items : Type 0 where
    nil : Items
    item : Json → Items → Items

  pub data Fields : Type 0 where
    end : Fields
    field : String → Json → Fields → Fields

abbrev pub fields : Fields → Dict Json
fields end = []
fields (field k v fs) = (k, v) ∷ fields fs

abbrev pub of_dict : Dict Json → Fields
of_dict [] = end
of_dict ((k, v) ∷ m) = field k v (of_dict m)

-- The elements of an array under their indices, the first of which is `n`.
abbrev pub items_from : ℕ → Items → Dict Json
items_from n nil = []
items_from n (item v vs) = (decimal n, v) ∷ items_from (suc n) vs

abbrev pub chars_from : ℕ → String → Dict Json
chars_from n String.[] = []
chars_from n (String.◌∷◌ c s) = (decimal n, str (String.◌∷◌ c String.[])) ∷ chars_from (suc n) s

abbrev pub count_items : Items → ℕ
count_items nil = 0
count_items (item v vs) = suc (count_items vs)

abbrev pub count_chars : String → ℕ
count_chars String.[] = 0
count_chars (String.◌∷◌ c s) = suc (count_chars s)

-- `Object.entries(v)`, for a value that is not null
abbrev pub entries : Json → Dict Json
entries null = []
entries (bool b) = []
entries (num n) = []
entries (str s) = chars_from 0 s
entries (arr xs) = items_from 0 xs
entries (obj fs) = fields fs

-- The property `length` of texts and arrays, which is not enumerable.
abbrev pub length_prop : Json → Option Json
length_prop (str s) = some (num (decimal (count_chars s)))
length_prop (arr xs) = some (num (decimal (count_items xs)))
length_prop _ = none

-- `v[k]`, for a value that is not null
unfoldable pub prop : String → Json → Option Json
prop k v = elim (get k (entries v)) [
  | some w ↦ some w
  | none ↦ if k == "length" then length_prop v else none
]

-- `typeof v === "object"`
abbrev pub is_object : Json → Bool
is_object null = true
is_object (arr xs) = true
is_object (obj fs) = true
is_object _ = false

abbrev pub is_null : Json → Bool
is_null null = true
is_null _ = false

abbrev bool_eq : Bool → Bool → Bool
bool_eq true b = b
bool_eq false true = false
bool_eq false false = true

-- `v === w` where `v` is no object; the two values never share an object.
unfoldable pub strict_eq : Json → Json → Bool
strict_eq (bool a) (bool b) = bool_eq a b
strict_eq (num a) (num b) = a == b
strict_eq (str a) (str b) = a == b
strict_eq _ _ = false
