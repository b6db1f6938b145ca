-- ===== src/JsonEditor/Tests.antt =====
-- The editor at the value 0, which is lost.
use Prim.Native.String.{String}
use tio.Common.{◌≡◌, refl, false, Option, some, ◌==◌, if◌then◌else◌}
use tio.Json.{Json, num}
use tio.JsonEditor.{Bound, mount, handle_change, as_text, json, empty}
use tio.JsonEditor.Laws.{handle_change_lem}

abbrev print : Json → String
print (num n) = n
print v = "{}"

abbrev parse : String → Option Json
parse s = if s == "{}" then some empty else some (num s)

-- The model is another text than that of the empty object before.
abbrev held : Bound
held = mount parse print print (some "1")

handle_change_lem_example :
    handle_change parse print print (as_text "0") false held
    ≡ some (record {
      model = some "{}";
      editor = record { error = false; object = json empty; content = "{}" };
      has_error = false;
    })
handle_change_lem_example =
    handle_change_lem parse print print (as_text "0") (num "0") held refl refl refl (λ e. refl)
