-- ===== src/Poster/Tests.antt =====
-- The form at the interface for direct methods.
use Prim.Native.String.{String}
use tio.Common.{◌≡◌, refl, List, [], ◌∷◌, none, some}
use tio.Json.{Json}
use tio.Poster.{invoke, handle_submit, new_state, valid}
use tio.Poster.Laws.{Event, given, types_name, IsSentTo, run, run-IsSentTo}

abbrev print : Json → String
print v = "json"

abbrev events : List Event
events = given "client" "invoke" "lamp" none ∷ types_name "on" ∷ []

sent_to :
    (run print print events (new_state print print)).form.url ≡ some "api/v1/things/lamp/methods/on"
sent_to = refl

run-IsSentTo_example :
    let st = run print print events (new_state print print) in
    IsSentTo print print (some invoke) st.form (handle_submit print print valid st).1
run-IsSentTo_example = run-IsSentTo print print events valid
