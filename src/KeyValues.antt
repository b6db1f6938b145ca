-- ===== src/KeyValues.antt =====
-- The editor of keys and values (web/src/components/common/KeyValueEditor.vue): its rows, and the
-- object that it shows and gives back. The values are those of user properties and headers, a text or
-- several; a key that objects inherit, such as constructor, is left out. An index that has no row
-- throws in `checkItem` and in the inputs, which changes nothing.
pub mod Laws
pub mod Kept
pub mod Run
mod Tests
use tio.Common.{
  ℕ, zero, suc, Bool, true, false, not, List, [], ◌∷◌, ◌++◌, Option, none, some, String, ◌==◌,
  if◌then◌else◌, filter, map,
}
use mathlib.Core.Option
use tio.Common.Dict.{Dict, get, put}
use tio.Delegate.State.{UserValue, one, many}

pub record Row : Type 0 where
  pub key : String
  pub value : String
  pub checked : Bool

-- The value of the `modelValue` that the parent holds.
pub data Model : Type 0 where
  undefined : Model
  null : Model
  object : Dict UserValue → Model

-- `rows` is `dataList`; `model` is what the parent was last given.
pub record Editor : Type 0 where
  pub rows : List Row
  pub model : Model

abbrev pub empty_row : Bool → Row
empty_row b = record { key = ""; value = ""; checked = b }

-- What `objData[key]` becomes: an empty text counts as no value.
abbrev pub with_value : Option UserValue → String → UserValue
with_value none value = one value
with_value (some (many vs)) value = many (vs ++ value ∷ [])
with_value (some (one v)) value = if v == "" then one value else many (v ∷ value ∷ [])

abbrev pub add_pair : String → String → Dict UserValue → Dict UserValue
add_pair key value obj = if key == "" then obj else put key (with_value (get key obj) value) obj

abbrev pub add_rows : List Row → Dict UserValue → Dict UserValue
add_rows [] obj = obj
add_rows (r ∷ rs) obj = add_rows rs (add_pair r.key r.value obj)

-- The object that `handleInputChange` gives to the parent.
abbrev pub gather : List Row → Dict UserValue
gather rows = add_rows (filter (λ r. r.checked) rows) []

abbrev pub shown_row : String → String → Row
shown_row key value = record { key = key; value = value; checked = true }

abbrev pub rows_of : String → UserValue → List Row
rows_of key (one v) = shown_row key v ∷ []
rows_of key (many vs) = map (shown_row key) vs

abbrev pub rows_of_entries : Dict UserValue → List Row
rows_of_entries [] = []
rows_of_entries ((key, v) ∷ obj) = rows_of key v ++ rows_of_entries obj

abbrev pub or_empty_row : List Row → List Row
or_empty_row [] = empty_row false ∷ []
or_empty_row (r ∷ rs) = r ∷ rs

-- `processObjToArry`
abbrev pub process_obj_to_arry : Model → List Row
process_obj_to_arry undefined = empty_row true ∷ []
process_obj_to_arry null = empty_row true ∷ []
process_obj_to_arry (object obj) = or_empty_row (rows_of_entries obj)

-- The watch on `modelValue`, once the parent has taken the value given to it. It runs at the start
-- also.
abbrev pub model_changed : Model → Editor → Editor
model_changed undefined ed = record ed { rows = process_obj_to_arry ed.model }
model_changed null ed = ed
model_changed (object o) ed = ed

abbrev pub mount : Model → Editor
mount m = model_changed undefined (record { rows = []; model = m })

abbrev pub give : Model → List Row → Editor → Editor
give m rows ed = model_changed ed.model (record { rows = rows; model = m })

abbrev pub handle_input_change : List Row → Editor → Editor
handle_input_change rows ed = give (object (gather rows)) rows ed

abbrev pub add_item : Editor → Editor
add_item ed = record ed { rows = ed.rows ++ empty_row true ∷ [] }

abbrev pub splice_one : ℕ → List Row → List Row
splice_one i [] = []
splice_one zero (r ∷ rs) = rs
splice_one (suc i) (r ∷ rs) = r ∷ splice_one i rs

abbrev pub delete_from : ℕ → List Row → Editor → Editor
delete_from index (r ∷ s ∷ rs) ed = handle_input_change (splice_one index (r ∷ s ∷ rs)) ed
delete_from index rows ed = give null (empty_row true ∷ []) ed

abbrev pub delete_item : ℕ → Editor → Editor
delete_item index ed = delete_from index ed.rows ed

-- The row at an index, changed.
abbrev pub at_index : ℕ → (Row → Row) → List Row → Option (List Row)
at_index i f [] = none
at_index zero f (r ∷ rs) = some (f r ∷ rs)
at_index (suc i) f (r ∷ rs) = Option.map (λ rest. r ∷ rest) (at_index i f rs)

abbrev pub changed : Option (List Row) → Editor → Editor
changed none ed = ed
changed (some rows) ed = handle_input_change rows ed

abbrev pub check_item : ℕ → Editor → Editor
check_item index ed =
    changed (at_index index (λ r. record r { checked = not r.checked }) ed.rows) ed

-- The inputs of a row, bound to it, which call `handleInputChange`.
abbrev pub input_key : ℕ → String → Editor → Editor
input_key index key ed = changed (at_index index (λ r. record r { key = key }) ed.rows) ed

abbrev pub input_value : ℕ → String → Editor → Editor
input_value index value ed = changed (at_index index (λ r. record r { value = value }) ed.rows) ed
