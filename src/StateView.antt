-- ===== src/StateView.antt =====
-- The viewer of a state (web/src/components/common/StateViewer.vue): beside the desired part the
-- reported one, or the other way round. `print` is `JSON.stringify` with two spaces of indentation.
mod Tests
use tio.Common.{Bool, true, false, ◌&&◌, not, Option, none, some, String, ◌==◌, if◌then◌else◌}
use tio.Json.{Json}
use tio.Shadow.{State as Shadow}

-- A content is `none` where undefined is printed.
pub record View : Type 0 where
  pub comparing : Bool
  pub content_1 : Option String
  pub content_2 : Option String

abbrev pub title : (type : String) → String
title type =
    if type == "both"
    then "View State (Both Desired & Reported)"
    else if type == "reported"
    then "View State (Reported)"
    else "View State (Desired)"

abbrev pub new_view : View
new_view = record { comparing = false; content_1 = some ""; content_2 = some "" }

module _ (print : Json → String) where
  abbrev printed : Option Json → Option String
  printed none = none
  printed (some v) = some (print v)

  abbrev pub shown_as : (type : String) → Shadow → View → View
  shown_as type s view =
      if type == "reported"
      then record view { content_1 = printed s.reported; content_2 = printed s.desired }
      else record {
        comparing = if type == "both" then true else view.comparing;
        content_1 = printed s.desired;
        content_2 = printed s.reported;
      }

  -- The watch on the properties.
  abbrev pub props_changed : (visible : Bool) (type : Option String) → Option Shadow → View → View
  props_changed visible none s view = view
  props_changed visible (some type) none view = view
  props_changed visible (some type) (some s) view =
      if visible && not (type == "") then shown_as type s view else view
