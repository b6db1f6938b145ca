-- ===== src/ListView/Tests.antt =====
-- The list of shadows in one run.
use tio.Common.{◌≡◌, refl, true, List, [], ◌∷◌, some, none, String}
use tio.ListView.{State, new_state, trim, starts_in_lower_case}
use tio.ListView.Laws.{Event, IsConsistent, run, run-IsConsistent, searched, answered, failed}

trimmed : trim " \t a b\n" ≡ "a b"
trimmed = refl

selects : starts_in_lower_case "Select * from" "select *" ≡ true
selects = refl

start : State String
start = new_state

abbrev events : List (Event String String)
events = searched (some " SELECT 1") ∷ answered ("t" ∷ []) 1 ∷ failed none ∷ answered [] 0 ∷ []

run-IsConsistent_example : IsConsistent (run (λ s. s) events new_state)
run-IsConsistent_example =
    run-IsConsistent (λ s. s) events new_state (record { of_empty = λ e. refl; of_error = λ e. cc })
