-- ===== src/KeyValues/Laws.antt =====
-- The object of an editor of keys and values (web/src/components/common/KeyValueEditor.vue) against
-- the values of each key, and against the rows that show it.
use tio.Common.{
  ◌≡◌, refl, sym, ap, ◌∙◌, true, false, ◌&&◌, List, [], ◌∷◌, ◌++◌, Option, none, some, String, ◌==◌,
  if◌then◌else◌, filter, inl, inr, Bool-cases, eq_iff, arith, append_assoc, append-nil,
}
use tio.Common.Dict.{Dict, get, put, get-put}
use tio.Delegate.State.{UserValue, one, many}
use tio.KeyValues.{Row, with_value, add_pair, add_rows, gather}

-- What each key stands for, independent of the code: the values of its rows, in their order, without
-- the empty ones in front; one text alone when one is left or none is.
abbrev skip_empty : List String → List String
skip_empty [] = []
skip_empty (v ∷ vs) = let rest = skip_empty vs in if v == "" then rest else v ∷ vs

abbrev as_value : List String → UserValue
as_value [] = one ""
as_value (v ∷ []) = one v
as_value (v ∷ w ∷ vs) = many (v ∷ w ∷ vs)

abbrev pub group : List String → Option UserValue
group [] = none
group (v ∷ vs) = some (as_value (skip_empty (v ∷ vs)))

-- The values of the checked rows of a key.
abbrev pub values_of : String → List Row → List String
values_of k [] = []
values_of k (r ∷ rs) =
    let rest = values_of k rs in if r.checked && r.key == k then r.value ∷ rest else rest

abbrev pub accumulate : Option UserValue → List String → Option UserValue
accumulate o [] = o
accumulate o (v ∷ vs) = accumulate (some (with_value o v)) vs

pub accumulate-many :
    (ws vs : List String) → accumulate (some (many ws)) vs ≡ some (many (ws ++ vs))
accumulate-many ws [] = ap (λ x. some (many x)) (sym (append-nil ws))
accumulate-many ws (v ∷ vs) =
    accumulate-many (ws ++ v ∷ []) vs ∙ ap (λ x. some (many x)) (append_assoc ws (v ∷ []) vs)

accumulate-one :
    (w : String) (vs : List String)
    → accumulate (some (one w)) vs ≡ some (as_value (skip_empty (w ∷ vs)))
accumulate-one w [] = ground (arith, eq_iff w "")
accumulate-one w (v ∷ vs) = elim (Bool-cases (w == "")) [
  | inl e ↦ rw e (accumulate-one v vs)
  | inr e ↦ rw e (accumulate-many (w ∷ v ∷ []) vs)
]

pub accumulate-group : (vs : List String) → accumulate none vs ≡ group vs
accumulate-group [] = refl
accumulate-group (v ∷ vs) = accumulate-one v vs

get-add_pair :
    (k key value : String) (obj : Dict UserValue)
    → (k == "") ≡ false
    → get k (add_pair key value obj)
      ≡ (if key == k then some (with_value (get k obj) value) else get k obj)
get-add_pair k key value obj n = elim (Bool-cases (key == "")) [
  | inl e ↦ rw e (ground (arith, eq_iff key k, eq_iff key "", eq_iff k ""))
  | inr e ↦
      rw e (rw (get-put key k (with_value (get key obj) value) obj) (ground (arith, eq_iff key k)))
]

pub get-gather :
    (k : String) (rows : List Row) (obj : Dict UserValue)
    → (k == "") ≡ false
    → get k (add_rows (filter (λ r. r.checked) rows) obj)
      ≡ accumulate (get k obj) (values_of k rows)
get-gather k [] obj n = refl
get-gather k (r ∷ rs) obj n = elim (Bool-cases r.checked) [
  | inl e ↦ rw e (
      rw (get-gather k rs (add_pair r.key r.value obj) n, get-add_pair k r.key r.value obj n)
        (ground arith))
  | inr e ↦ rw e (get-gather k rs obj n)
]

get-add_rows-empty :
    (k : String) (rows : List Row) (obj : Dict UserValue)
    → (k == "") ≡ true
    → get k (add_rows rows obj) ≡ get k obj
get-add_rows-empty k [] obj e = refl
get-add_rows-empty k (r ∷ rs) obj e = elim (Bool-cases (r.key == "")) [
  | inl f ↦ rw f (get-add_rows-empty k rs obj e)
  | inr f ↦ rw f (
      rw
        (
          get-add_rows-empty k rs (put r.key (with_value (get r.key obj) r.value) obj) e,
          get-put r.key k (with_value (get r.key obj) r.value) obj,
        )
        (ground (arith, eq_iff r.key k, eq_iff k "", eq_iff r.key "")))
]

-- The object that an editor gives holds, under every key, the values of the checked rows of that key
-- in their order: the empty ones in front are left out, one value stands alone and several make a
-- list; nothing is held under the empty key.
pub gather-group :
    (k : String) (rows : List Row)
    → get k (gather rows) ≡ (if k == "" then none else group (values_of k rows))
unfolding get
gather-group k rows = elim (Bool-cases (k == "")) [
  | inl e ↦ rw e (get-add_rows-empty k (filter (λ r. r.checked) rows) [] e)
  | inr e ↦ rw e (get-gather k rows [] e ∙ accumulate-group (values_of k rows))
]
