-- ===== src/Shadow/Tests.antt =====
-- Differences of small shadows, evaluated, and the laws at them.
use tio.Common.{String, ◌≡◌, refl, false, Option, none, some, is_some}
use tio.Common.Dict.{get, put}
use tio.Json.{Json, num, str, arr, obj, nil, item, end, field, prop, strict_eq, Fields, fields}
use tio.Json.Decimal.{decimal}
use tio.Shadow.{ok, merge_key, merge_missing, trim, finish, merge_state, diff_state}
use tio.Shadow.Delta.{delta_prop}
use tio.Shadow.Laws.{delta_at}
use tio.Shadow.Total.{diff_state-delta_at, diff_state_total}

shadow : Unit {0}
unfolding diff_state merge_state finish merge_missing merge_key trim prop strict_eq get put decimal
shadow = tt

-- { color: "red", speed: { x: 1, y: 2 } } and { color: "blue", speed: { x: 1, y: 3 }, mode: 7 }
abbrev reported : Fields
reported =
    field "color" (str "red")
      (field "speed" (obj (field "x" (num "1") (field "y" (num "2") end))) end)

abbrev desired : Fields
desired = field "color" (str "blue") (
    field "speed" (obj (field "x" (num "1") (field "y" (num "3") end)))
      (field "mode" (num "7") end))

abbrev delta : Json
delta = obj (
    field "color" (str "blue")
      (field "speed" (obj (field "y" (num "3") end)) (field "mode" (num "7") end)))

merge_tests :
    (merge_state (obj reported) (obj desired) ≡ ok (some delta))
    × (merge_state (arr (item (num "1") (item (num "2") nil))) (arr (item (num "1") nil)) ≡ ok none)
    × (diff_state none ≡ ok (false, none))
unfolding shadow
merge_tests = (refl, refl, refl)

diff_state-delta_at_example :
    (d : Option Json) × (diff_state
        (some (record { desired = some (obj desired); reported = some (obj reported) }))
      ≡ ok (is_some d, d))
    × ((k : String) → delta_prop k d ≡ delta_at (get k (fields reported)) (get k (fields desired)))
unfolding shadow
diff_state-delta_at_example =
    diff_state-delta_at reported desired (refl, (refl, tt)) (refl, (refl, (refl, tt))) refl

diff_state_total_example :
    (d : Option Json) × (merge_state (obj reported) (obj desired) ≡ ok d)
    × (diff_state (some (record { desired = some (obj desired); reported = some (obj reported) }))
        ≡ ok (is_some d, d))
diff_state_total_example = diff_state_total (obj desired) (obj reported) refl refl
