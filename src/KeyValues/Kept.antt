-- ===== src/KeyValues/Kept.antt =====
-- The objects that the editor of keys and values (web/src/components/common/KeyValueEditor.vue) gives,
-- and that it shows without loss.
use tio.Common.{
  ◌≡◌, refl, sym, ap, ◌∙◌, false, List, [], ◌∷◌, ◌++◌, Option, none, some, String, ◌==◌, filter,
  filter-append, All, map, inl, inr, Bool-cases, eq_iff, eq_refl, arith, append_assoc, append-nil,
}
use tio.Common.Dict.{Dict, get, put, get-put}
use tio.Delegate.State.{UserValue, one, many}
use tio.KeyValues.{
  Row, with_value, add_rows, gather, shown_row, rows_of, rows_of_entries, process_obj_to_arry,
  or_empty_row, object,
}

-- A text, or several of which the first is not empty.
abbrev pub IsKeptValue : UserValue → Type 0
IsKeptValue (one v) = Unit
IsKeptValue (many []) = ⊥
IsKeptValue (many (v ∷ [])) = ⊥
IsKeptValue (many (v ∷ w ∷ vs)) = (v == "") ≡ false

-- No key is empty or there twice, and no value is an empty list, a list of one or one that starts with
-- an empty text.
abbrev pub IsKept : Dict UserValue → Type 0
IsKept [] = Unit
IsKept ((k, v) ∷ obj) = ((k == "") ≡ false) × IsKeptValue v × (get k obj ≡ none) × IsKept obj

abbrev IsKeptOption : Option UserValue → Type 0
IsKeptOption none = Unit
IsKeptOption (some v) = IsKeptValue v

with_value-IsKeptValue :
    (o : Option UserValue) (v : String) → IsKeptOption o → IsKeptValue (with_value o v)
with_value-IsKeptValue none v h = tt
with_value-IsKeptValue (some (many [])) v h = absurd h
with_value-IsKeptValue (some (many (u ∷ []))) v h = absurd h
with_value-IsKeptValue (some (many (u ∷ w ∷ vs))) v h = h
with_value-IsKeptValue (some (one u)) v h = elim (Bool-cases (u == "")) [
  | inl e ↦ rw e tt
  | inr e ↦ rw e e
]

get-IsKeptOption : (k : String) (obj : Dict UserValue) → IsKept obj → IsKeptOption (get k obj)
unfolding get
get-IsKeptOption k [] h = tt
get-IsKeptOption k ((j, v) ∷ obj) (m, r, f, h) = elim (Bool-cases (j == k)) [
  | inl e ↦ rw e r
  | inr e ↦ rw e (get-IsKeptOption k obj h)
]

put-IsKept :
    (k : String) (v : UserValue) (obj : Dict UserValue)
    → (k == "") ≡ false
    → IsKeptValue v
    → IsKept obj
    → IsKept (put k v obj)
unfolding get put
put-IsKept k v [] n q h = (n, q, refl, tt)
put-IsKept k v ((j, w) ∷ obj) n q (m, r, f, h) = elim (Bool-cases (j == k)) [
  | inl e ↦ rw e (m, q, f, h)
  | inr e ↦ rw e (
    m,
    r,
    rw (get-put k j v obj) (ground (arith, eq_iff j k, eq_iff k j)),
    put-IsKept k v obj n q h,
  )
]

add_rows-IsKept : (rows : List Row) (obj : Dict UserValue) → IsKept obj → IsKept (add_rows rows obj)
add_rows-IsKept [] obj h = h
add_rows-IsKept (r ∷ rs) obj h = elim (Bool-cases (r.key == "")) [
  | inl e ↦ rw e (add_rows-IsKept rs obj h)
  | inr e ↦ rw e (
      add_rows-IsKept rs (put r.key (with_value (get r.key obj) r.value) obj) (
        put-IsKept r.key (with_value (get r.key obj) r.value) obj e
          (with_value-IsKeptValue (get r.key obj) r.value (get-IsKeptOption r.key obj h)) h))
]

-- Every object that the editor gives is one that it shows without loss: no key is empty or there
-- twice, and several values start with one that is not empty.
pub gather-IsKept : (rows : List Row) → IsKept (gather rows)
gather-IsKept rows = add_rows-IsKept (filter (λ r. r.checked) rows) [] tt

module _ (k : String) {V : Type 0} where
  put-new : (v : V) (obj : Dict V) → get k obj ≡ none → put k v obj ≡ obj ++ (k, v) ∷ []
  unfolding get put
  put-new v [] h = refl
  put-new v ((j, w) ∷ obj) h = ground (arith, put-new v obj)

  put-again :
      (v w : V) (obj : Dict V)
      → get k obj ≡ none
      → put k w (obj ++ (k, v) ∷ []) ≡ obj ++ (k, w) ∷ []
  unfolding get put
  put-again v w [] h = rw (eq_refl k) refl
  put-again v w ((j, u) ∷ obj) h = ground (arith, put-again v w obj)

  get-last : (v : V) (obj : Dict V) → get k obj ≡ none → get k (obj ++ (k, v) ∷ []) ≡ some v
  unfolding get
  get-last v [] h = rw (eq_refl k) refl
  get-last v ((j, u) ∷ obj) h = ground (arith, get-last v obj)

  get-before :
      (j : String) (v : V) (obj : Dict V)
      → get j obj ≡ none
      → (k == j) ≡ false
      → get j (obj ++ (k, v) ∷ []) ≡ none
  unfolding get
  get-before j v [] h n = rw n refl
  get-before j v ((i, u) ∷ obj) h n = ground (arith, get-before j v obj)

filter-shown_row :
    (k : String) (vs : List String)
    → filter (λ r. r.checked) (map (shown_row k) vs) ≡ map (shown_row k) vs
filter-shown_row k [] = refl
filter-shown_row k (v ∷ vs) = ap (λ rs. shown_row k v ∷ rs) (filter-shown_row k vs)

filter-rows_of : (k : String) (u : UserValue) → filter (λ r. r.checked) (rows_of k u) ≡ rows_of k u
filter-rows_of k (one v) = refl
filter-rows_of k (many vs) = filter-shown_row k vs

filter-rows_of_entries :
    (obj : Dict UserValue) → filter (λ r. r.checked) (rows_of_entries obj) ≡ rows_of_entries obj
filter-rows_of_entries [] = refl
filter-rows_of_entries ((k, u) ∷ obj) =
    rw
      (
        filter-append (λ r. r.checked) (rows_of k u) (rows_of_entries obj),
        filter-rows_of k u,
        filter-rows_of_entries obj,
      )
      refl

module _ (k : String) (rest : List Row) (obj : Dict UserValue) (n : (k == "") ≡ false)
    (f : get k obj ≡ none) where
  add_rows-shown_row :
      (v : String) (rs : List Row) (acc : Dict UserValue) (o : Option UserValue)
      → get k acc ≡ o
      → add_rows (shown_row k v ∷ rs) acc ≡ add_rows rs (put k (with_value o v) acc)
  add_rows-shown_row v rs acc o g = ap (add_rows rs) (rw (n, g) refl)

  add_rows-more :
      (ws vs : List String)
      → add_rows (map (shown_row k) vs ++ rest) (obj ++ (k, many ws) ∷ [])
        ≡ add_rows rest (obj ++ (k, many (ws ++ vs)) ∷ [])
  add_rows-more ws [] = rw (append-nil ws) refl
  add_rows-more ws (v ∷ vs) =
      add_rows-shown_row v (map (shown_row k) vs ++ rest) (obj ++ (k, many ws) ∷ [])
        (some (many ws)) (get-last k (many ws) obj f)
      ∙ (ap (add_rows (map (shown_row k) vs ++ rest))
            (put-again k (many ws) (many (ws ++ v ∷ [])) obj f)
          ∙ (add_rows-more (ws ++ v ∷ []) vs
              ∙ ap (λ us. add_rows rest (obj ++ (k, many us) ∷ [])) (append_assoc ws (v ∷ []) vs)))

  add_rows-one :
      (v : String) (rs : List Row)
      → add_rows (shown_row k v ∷ rs) obj ≡ add_rows rs (obj ++ (k, one v) ∷ [])
  add_rows-one v rs =
      add_rows-shown_row v rs obj none f ∙ ap (add_rows rs) (put-new k (one v) obj f)

  add_rows-two :
      (v w : String) (rs : List Row)
      → (v == "") ≡ false
      → add_rows (shown_row k w ∷ rs) (obj ++ (k, one v) ∷ [])
        ≡ add_rows rs (obj ++ (k, many (v ∷ w ∷ [])) ∷ [])
  add_rows-two v w rs h =
      add_rows-shown_row w rs (obj ++ (k, one v) ∷ []) (some (one v)) (get-last k (one v) obj f)
      ∙ ap (add_rows rs) (rw h (put-again k (one v) (many (v ∷ w ∷ [])) obj f))

  add_rows-rows_of :
      (u : UserValue)
      → IsKeptValue u
      → add_rows (rows_of k u ++ rest) obj ≡ add_rows rest (obj ++ (k, u) ∷ [])
  add_rows-rows_of (one v) h = add_rows-one v rest
  add_rows-rows_of (many []) h = absurd h
  add_rows-rows_of (many (v ∷ [])) h = absurd h
  add_rows-rows_of (many (v ∷ w ∷ vs)) h =
      add_rows-one v (shown_row k w ∷ map (shown_row k) vs ++ rest)
      ∙ (add_rows-two v w (map (shown_row k) vs ++ rest) h ∙ add_rows-more (v ∷ w ∷ []) vs)

-- None of the keys is in an object.
abbrev IsFresh : Dict UserValue → Dict UserValue → Type 0
IsFresh acc = All (λ e. get e.0 acc ≡ none)

IsFresh-append :
    (k : String) (u : UserValue) (acc obj : Dict UserValue)
    → get k obj ≡ none
    → IsFresh acc obj
    → IsFresh (acc ++ (k, u) ∷ []) obj
unfolding get
IsFresh-append k u acc [] g h = tt
IsFresh-append k u acc ((j, w) ∷ obj) g (f, h) = elim (Bool-cases (j == k)) [
  | inl e ↦ absurd (ground arith)
  | inr e ↦ (
    get-before k j u acc f (ground (arith, eq_iff j k, eq_iff k j)),
    IsFresh-append k u acc obj (ground arith) h,
  )
]

add_rows-rows_of_entries :
    (obj acc : Dict UserValue)
    → IsKept obj
    → IsFresh acc obj
    → add_rows (rows_of_entries obj) acc ≡ acc ++ obj
add_rows-rows_of_entries [] acc h f = sym (append-nil acc)
add_rows-rows_of_entries ((k, u) ∷ obj) acc (n, q, g, h) (f, fs) =
    add_rows-rows_of k (rows_of_entries obj) acc n f u q
    ∙ (add_rows-rows_of_entries obj (acc ++ (k, u) ∷ []) h (IsFresh-append k u acc obj g fs)
        ∙ append_assoc acc ((k, u) ∷ []) obj)

IsFresh-nil : (obj : Dict UserValue) → IsFresh [] obj
unfolding get
IsFresh-nil [] = tt
IsFresh-nil (e ∷ obj) = (refl, IsFresh-nil obj)

gather-or_empty_row : (rows : List Row) → gather (or_empty_row rows) ≡ gather rows
gather-or_empty_row [] = refl
gather-or_empty_row (r ∷ rs) = refl

-- An object without an empty key, a key there twice or a value that is an empty list, a list of one
-- or one that starts with an empty text, is given back as it is from the rows that show it.
pub gather-process_obj_to_arry :
    (obj : Dict UserValue) → IsKept obj → gather (process_obj_to_arry (object obj)) ≡ obj
gather-process_obj_to_arry obj h =
    gather-or_empty_row (rows_of_entries obj)
    ∙ (ap (λ rows. add_rows rows []) (filter-rows_of_entries obj)
        ∙ add_rows-rows_of_entries obj [] h (IsFresh-nil obj))
