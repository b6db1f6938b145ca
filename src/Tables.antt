-- ===== src/Tables.antt =====
-- The tables of things and shadows (web/src/components/list/CustomTable.vue and StandardTable.vue). A
-- thing without an identifier has the empty one here, for which the code does nothing either.
pub mod Logs
pub mod Tags
pub mod Laws
mod Tests
use Prim.Native.Char.{Char}
use Prim.Native.String
use tio.Common.{
  Bool, true, false, ◌&&◌, ◌||◌, List, [], ◌∷◌, ◌++◌, map, filter, Option, none, some, String, ◌==◌,
  not, any, ◌+++◌, if◌then◌else◌,
}
use tio.Common.Dict.{Dict}
use tio.Json.{Json, entries, null, bool, num, str, arr, obj}
use tio.Notify.{Notice, notify_done}
use tio.Store.{AppState, ConnectionsCodec}
use tio.Things.{del_thing, set_current_shadow}
use tio.Delegate.{Client}
use tio.UseMqtt.{World, remove_connections_by_client_id}

-- `typeof value`
abbrev pub type_of : Json → String
type_of null = "object"
type_of (bool b) = "boolean"
type_of (num n) = "number"
type_of (str s) = "string"
type_of (arr xs) = "object"
type_of (obj fs) = "object"

-- `text.endsWith(suffix)`
abbrev pub ends_with : (suffix text : String) → Bool
ends_with suffix String.[] = suffix == ""
ends_with suffix (String.◌∷◌ c s) =
    let rest = ends_with suffix s in if String.◌∷◌ c s == suffix then true else rest

-- A character of the class \w, and one in upper case.
abbrev text_of : Char → String
text_of c = String.◌∷◌ c String.[]

abbrev upper_in : (lower upper : String) → Char → String
upper_in (String.◌∷◌ l ls) (String.◌∷◌ u us) c =
    let rest = upper_in ls us c in if text_of l == text_of c then text_of u else rest
upper_in _ _ c = text_of c

abbrev lower_letters : String
lower_letters = "abcdefghijklmnopqrstuvwxyz"

abbrev upper_letters : String
upper_letters = "ABCDEFGHIJKLMNOPQRSTUVWXYZ"

abbrev pub upper : Char → String
upper = upper_in lower_letters upper_letters

abbrev is_in : String → Char → Bool
is_in String.[] c = false
is_in (String.◌∷◌ d s) c = text_of d == text_of c || is_in s c

abbrev pub is_word : Char → Bool
is_word c = is_in lower_letters c || is_in upper_letters c || is_in "0123456789_" c

-- The label of a property: `_` before a character of a word becomes a space, and this character and
-- the first one become capital. `label_after` is what comes after a match or a character.
abbrev pub label_after : String → String
label_after String.[] = ""
label_after (String.◌∷◌ c String.[]) = text_of c
label_after (String.◌∷◌ c (String.◌∷◌ d s)) =
    let one = label_after (String.◌∷◌ d s) in
    let two = label_after s in
    if text_of c == "_" && is_word d then " " +++ (upper d +++ two) else text_of c +++ one

abbrev pub label_of : String → String
label_of String.[] = ""
label_of (String.◌∷◌ c s) =
    if is_word c
    then (if text_of c == "_" then " " else upper c) +++ label_after s
    else label_after (String.◌∷◌ c s)

pub record Column : Type 0 where
  pub prop : String
  pub type : String
  pub label : String

pub record Columns : Type 0 where
  pub with_id : Bool
  pub columns : List Column

abbrev type_for : String → Json → String
type_for prop value =
    if ends_with "_time" prop
      || ends_with "Time" prop
      || (prop == "createdAtd" || prop == "updatedAtd")
    then "time"
    else type_of value

abbrev column_of : String × Json → Column
column_of (prop, value) = record { prop = prop; type = type_for prop value; label = label_of prop }

abbrev is_id : String × Json → Bool
is_id (key, value) = key == "thingId"

abbrev columns_for : Dict Json → Columns
columns_for row = record {
  with_id = any is_id row;
  columns = map column_of (filter (λ e. not (is_id e)) row);
}

-- The watch on the data, whose rows are objects.
unfoldable pub data_changed : Option (List Json) → Columns → Columns
data_changed none st = record st { columns = [] }
data_changed (some []) st = record st { columns = [] }
data_changed (some (row ∷ rows)) st = columns_for (entries row)

-- What the handlers change: the connections, the state of the application, the notices, and the
-- routes that are pushed.
pub record Screen (P T S : Type 0) : Type 0 where
  pub world : World P
  pub app : AppState T S
  pub notices : List Notice
  pub pushed : List String

module _ {P T S : Type 0} where
  -- `shadow` is what the table sets as the current one.
  abbrev pub view_thing : (thing_id : String) (shadow : S) → Screen P T S → Screen P T S
  view_thing thing_id shadow st = if thing_id == "" then st else record st {
    app = set_current_shadow (some shadow) st.app;
    pushed = st.pushed ++ ("/things/" +++ thing_id) ∷ [];
  }

  module _ (codec : ConnectionsCodec) (fresh : Client) where
    abbrev thing_deleted :
        (thing_id : String) → AppState T S × Bool × Bool → Screen P T S → Screen P T S
    thing_deleted thing_id (app, true, started) st = record st {
      app = app;
      world = remove_connections_by_client_id codec fresh thing_id st.world;
      notices = st.notices ++ notify_done ("Delete " +++ thing_id) ∷ [];
    }
    thing_deleted thing_id (app, false, started) st = record st { app = app }

    -- `accepted` says whether the server deletes the thing.
    unfoldable pub delete_thing :
        (thing_id : String) (accepted : Bool) → Screen P T S → Screen P T S
    unfolding del_thing
    delete_thing thing_id accepted st =
        if thing_id == "" then st else thing_deleted thing_id (del_thing accepted st.app) st
