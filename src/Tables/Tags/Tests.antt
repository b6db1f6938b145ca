-- ===== src/Tables/Tags/Tests.antt =====
-- The tags of small shadows.
use tio.Common.{◌≡◌, refl, [], ◌∷◌, some}
use tio.Json.{obj, field, end, str, null}
use tio.Tables.Tags.{data_changed, text}

two :
    data_changed (some (obj (field "room" (str "") (field "old" null end)))) []
    ≡ record { key = "room"; type = "info"; shown = text "-" }
      ∷ record { key = "old"; type = "primary"; shown = text "null" }
      ∷ []
two = refl
