-- ===== src/KeyValues/Run.antt =====
-- Runs of the editor of keys and values (web/src/components/common/KeyValueEditor.vue): what the user
-- does to it, and what the parent then holds.
use tio.Common.{
  ◌≡◌, refl, sym, ap, ◌∙◌, ℕ, true, false, not, List, [], ◌∷◌, ◌++◌, Option, none, some, String,
  ◌==◌, if◌then◌else◌, filter, filter-append,
}
use tio.Common.Dict.{Dict, get}
use tio.Delegate.State.{UserValue}
use tio.KeyValues.{
  Row, Model, Editor, add_pair, add_rows, gather, empty_row, undefined, null, object, mount, give,
  handle_input_change, add_item, delete_item, delete_from, changed, check_item, input_key,
  input_value, process_obj_to_arry, at_index, splice_one,
}
use tio.KeyValues.Laws.{group, values_of, gather-group}
use tio.KeyValues.Kept.{IsKept, gather-IsKept, gather-process_obj_to_arry}

-- What the user does: a new row, a row deleted, checked, or given another key or value.
pub data Action : Type 0 where
  add : Action
  delete : ℕ → Action
  check : ℕ → Action
  set_key : ℕ → String → Action
  set_value : ℕ → String → Action

abbrev pub act : Action → Editor → Editor
act add = add_item
act (delete i) = delete_item i
act (check i) = check_item i
act (set_key i k) = input_key i k
act (set_value i v) = input_value i v

abbrev pub run : List Action → Editor → Editor
run [] ed = ed
run (a ∷ actions) ed = run actions (act a ed)

-- The object in what the parent holds; without one it is empty.
abbrev pub object_of : Model → Dict UserValue
object_of undefined = []
object_of null = []
object_of (object o) = o

-- The parent holds an object that the editor can show without loss.
abbrev pub IsKeptModel : Model → Type 0
IsKeptModel m = IsKept (object_of m)

-- The parent holds what the rows give.
abbrev Agrees : Editor → Type 0
Agrees ed = object_of ed.model ≡ gather ed.rows

gather-process : (m : Model) → IsKeptModel m → object_of m ≡ gather (process_obj_to_arry m)
gather-process undefined h = refl
gather-process null h = refl
gather-process (object o) h = sym (gather-process_obj_to_arry o h)

mount-Agrees : (m : Model) → IsKeptModel m → Agrees (mount m)
mount-Agrees = gather-process

give-Agrees :
    (m : Model) (rows : List Row) (ed : Editor)
    → object_of m ≡ gather rows
    → IsKeptModel m
    → Agrees (give m rows ed)
give-Agrees m rows ed a h =
    elim ed.model as (λ old. Agrees (give m rows (record { rows = ed.rows; model = old }))) [
      | undefined ↦ gather-process m h
      | null ↦ a
      | object o ↦ a
    ]

handle_input_change-Agrees : (rows : List Row) (ed : Editor) → Agrees (handle_input_change rows ed)
handle_input_change-Agrees rows ed =
    give-Agrees (object (gather rows)) rows ed refl (gather-IsKept rows)

changed-Agrees : (rows : Option (List Row)) (ed : Editor) → Agrees ed → Agrees (changed rows ed)
changed-Agrees none ed a = a
changed-Agrees (some rows) ed a = handle_input_change-Agrees rows ed

delete_from-Agrees : (i : ℕ) (rows : List Row) (ed : Editor) → Agrees (delete_from i rows ed)
delete_from-Agrees i [] ed = give-Agrees null (empty_row true ∷ []) ed refl tt
delete_from-Agrees i (r ∷ []) ed = give-Agrees null (empty_row true ∷ []) ed refl tt
delete_from-Agrees i (r ∷ s ∷ rs) ed = handle_input_change-Agrees (splice_one i (r ∷ s ∷ rs)) ed

add_rows-append :
    (rs ss : List Row) (obj : Dict UserValue)
    → add_rows (rs ++ ss) obj ≡ add_rows ss (add_rows rs obj)
add_rows-append [] ss obj = refl
add_rows-append (r ∷ rs) ss obj = add_rows-append rs ss (add_pair r.key r.value obj)

add_item-Agrees : (ed : Editor) → Agrees ed → Agrees (add_item ed)
add_item-Agrees ed a =
    a
    ∙ sym (
        ap (λ rows. add_rows rows []) (filter-append (λ r. r.checked) ed.rows (empty_row true ∷ []))
        ∙ add_rows-append (filter (λ r. r.checked) ed.rows) (empty_row true ∷ []) [])

act-Agrees : (a : Action) (ed : Editor) → Agrees ed → Agrees (act a ed)
act-Agrees add ed h = add_item-Agrees ed h
act-Agrees (delete i) ed h = delete_from-Agrees i ed.rows ed
act-Agrees (check i) ed h =
    changed-Agrees (at_index i (λ r. record r { checked = not r.checked }) ed.rows) ed h
act-Agrees (set_key i k) ed h = changed-Agrees (at_index i (λ r. record r { key = k }) ed.rows) ed h
act-Agrees (set_value i v) ed h =
    changed-Agrees (at_index i (λ r. record r { value = v }) ed.rows) ed h

run-Agrees : (actions : List Action) (ed : Editor) → Agrees ed → Agrees (run actions ed)
run-Agrees [] ed h = h
run-Agrees (a ∷ actions) ed h = run-Agrees actions (act a ed) (act-Agrees a ed h)

-- After any run of what the user can do, from an object that the editor can show without loss, from
-- null or from undefined, the parent holds the rows shown: under every key but the empty one the
-- values of its checked rows, without the empty ones in front, and nothing else.
pub run-group :
    (m : Model) (actions : List Action) (k : String)
    → IsKeptModel m
    → get k (object_of (run actions (mount m)).model)
      ≡ (if k == "" then none else group (values_of k (run actions (mount m)).rows))
run-group m actions k h =
    ap (get k) (run-Agrees actions (mount m) (mount-Agrees m h))
    ∙ gather-group k (run actions (mount m)).rows

-- A value typed into the row of an editor that is given nothing, before its key, is lost: the row
-- becomes empty and unchecked, so that the key typed next gives an empty object.
pub run-undefined :
    (v k : String)
    → run (set_value 0 v ∷ set_key 0 k ∷ []) (mount undefined)
      ≡ record { rows = record { key = k; value = ""; checked = false } ∷ []; model = object [] }
run-undefined v k = refl
