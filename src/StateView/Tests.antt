-- ===== src/StateView/Tests.antt =====
-- Once both parts have been viewed, another view compares them too.
use tio.Common.{◌≡◌, refl, true, none, some}
use tio.Json.{str}
use tio.StateView.{new_view, props_changed}

still_comparing :
    (props_changed
      (λ v. "json")
      true
      (some "reported")
      (some (record { desired = some (str "on"); reported = none }))
      (props_changed
        (λ v. "json")
        true
        (some "both")
        (some (record { desired = some (str "on"); reported = none }))
        new_view))
    ≡ record { comparing = true; content_1 = none; content_2 = some "json" }
still_comparing = refl
