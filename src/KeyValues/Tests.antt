-- ===== src/KeyValues/Tests.antt =====
-- Runs of the definitions, and the properties of the editor of keys and values at concrete objects.
use tio.Common.{◌≡◌, refl, false, List, [], ◌∷◌, some}
use tio.Common.Dict.{Dict, get, put}
use tio.Delegate.State.{UserValue, one, many}
use tio.KeyValues.{Row, gather, process_obj_to_arry, mount, shown_row, object}
use tio.KeyValues.Kept.{gather-process_obj_to_arry}
use tio.KeyValues.Run.{Action, add, delete, check, set_key, set_value, run, object_of, run-group}

abbrev two_keys : Dict UserValue
two_keys = ("a", many ("1" ∷ "2" ∷ "" ∷ [])) ∷ ("b", one "") ∷ []

abbrev some_rows : List Row
some_rows =
    shown_row "a" ""
    ∷ shown_row "a" "1"
    ∷ shown_row "" "x"
    ∷ record { key = "b"; value = "y"; checked = false }
    ∷ shown_row "a" "2"
    ∷ []

gather_rows : gather some_rows ≡ ("a", many ("1" ∷ "2" ∷ [])) ∷ []
unfolding get put
gather_rows = refl

abbrev some_actions : List Action
some_actions = add ∷ set_key 4 "c" ∷ set_value 4 "z" ∷ check 0 ∷ delete 1 ∷ []

gather-process_obj_to_arry_example : gather (process_obj_to_arry (object two_keys)) ≡ two_keys
unfolding get put
gather-process_obj_to_arry_example =
    gather-process_obj_to_arry two_keys (refl, refl, refl, (refl, tt, refl, tt))

run-group_example :
    get "a" (object_of (run some_actions (mount (object two_keys))).model) ≡ some (one "")
unfolding get put
run-group_example =
    run-group (object two_keys) some_actions "a" (refl, refl, refl, (refl, tt, refl, tt))
