-- ===== src/ConnForm.antt =====
-- The form of a connection (web/src/components/mqtt/MqttConnForm.vue): its state, the watches, the
-- check of the name and the suggested user names. The rest of the library's check of the form is an
-- argument, like the random end of a client's identifier, the port of the server's configuration and
-- the present time.
pub mod Connect
pub mod Trial
pub mod Laws
pub mod Names
pub mod Done
mod Tests
use Prim.Native.Char.{Char, code}
use Prim.Native.String
use tio.Common.{
  ℕ, zero, suc, Bool, true, false, not, ◌&&◌, ◌||◌, List, [], ◌∷◌, Option, none, some, String, ◌==◌,
  ◌+++◌, any, filter, find, map, includes, nat_eq, or_else, if◌then◌else◌,
}
use tio.Config.{Config, get_default_form}
use tio.Layout.{ConnForm}

-- What the code reads of a thing.
pub record Thing : Type 0 where
  pub thing_id : String
  pub auth_value : String

-- The form with the variables of the component.
pub record View : Type 0 where
  pub form : Config
  pub old_name : String
  pub connected_token : String

-- `isForCreate` and `createThingId` as tests
abbrev pub is_set : Option String → Bool
is_set o = not (or_else o "" == "")

-- The validator of names: whether it finds the name taken.
abbrev pub is_duplicate : (is_for_create : Bool) (old_name name : String) → List Config → Bool
is_duplicate is_for_create old_name name connections =
    any
      (λ c.
        if is_for_create && c.name == name
        then true
        else not is_for_create && (not (name == old_name) && c.name == name))
      connections

abbrev is_letter : (upper lower : ℕ) → Char → Bool
is_letter upper lower c = nat_eq (code c) upper || nat_eq (code c) lower

abbrev starts_with_s : String → Bool
starts_with_s String.[] = false
starts_with_s (String.◌∷◌ c s) = is_letter b'S' b's' c

-- `/ws/gi.test(protocol)`
abbrev pub has_ws : String → Bool
has_ws String.[] = false
has_ws (String.◌∷◌ c s) = (is_letter b'W' b'w' c && starts_with_s s) || has_ws s

abbrev pub change_protocol : (protocol : String) (is_ssl : Bool) → Config → Config
change_protocol protocol is_ssl form =
    if protocol == ""
    then form
    else if has_ws protocol
    then record form { protocol = if is_ssl then "wss" else "ws" }
    else form

-- `handleSSL`
abbrev pub handle_ssl : Bool → Config → Config
handle_ssl ssl form =
    let form' = change_protocol form.protocol ssl form in
    if ssl then form' else record form' { cert_type = "" }

-- The watch on `form.userrole`.
unfoldable pub userrole_changed : (create_thing_id : Option String) → Config → Config
userrole_changed create_thing_id form =
    if is_set create_thing_id then form else record form { username = "" }

abbrev pub server_client_id : (username suffix : String) → String
server_client_id username suffix = "$" +++ (username +++ ("_" +++ suffix))

-- The watch on `form.username`.
unfoldable pub username_changed :
    (create_thing_id : Option String) (suffix : String) → Config → Config
username_changed create_thing_id suffix form =
    if is_set create_thing_id
    then form
    else if form.username == ""
    then record form { client_id = "" }
    else if form.userrole == "server"
    then record form { client_id = server_client_id form.username suffix }
    else form

-- The two watches, after the form has changed; the second sees what the first has done.
unfoldable pub role_watched : (create_thing_id : Option String) (old new : Config) → Config
role_watched create_thing_id old new =
    if old.userrole == new.userrole then new else userrole_changed create_thing_id new

unfoldable pub name_watched :
    (create_thing_id : Option String) (suffix : String) (old new : Config) → Config
name_watched create_thing_id suffix old new =
    if old.username == new.username then new else username_changed create_thing_id suffix new

unfoldable pub watched :
    (create_thing_id : Option String) (suffix : String) (old new : Config) → Config
watched create_thing_id suffix old new =
    name_watched create_thing_id suffix old (role_watched create_thing_id old new)

-- `resetClientID`
abbrev pub reset_client_id : (suffix : String) → Config → Config
reset_client_id suffix form = record form {
  client_id =
      if not (form.username == "") && form.userrole == "server"
      then server_client_id form.username suffix
      else "";
}

-- `handleUsernameSelect`
abbrev pub handle_username_select : Thing → Config → Config
handle_username_select thing form = record form {
  client_id = thing.thing_id;
  password = thing.auth_value;
}

-- `s.slice(1)`
abbrev pub slice_one : String → String
slice_one String.[] = ""
slice_one (String.◌∷◌ c s) = s

-- The user name of a configuration as the form shows it.
abbrev pub shown_username : Config → String
shown_username config =
    if config.userrole == "server" then slice_one config.username else config.username

abbrev pub find_thing : String → List Thing → Option Thing
find_thing id = find (λ thing. thing.thing_id == id)

-- The form for a configuration: first its role alone is written, and the watches run.
unfoldable pub edit_form :
    (create_thing_id : Option String) (suffix : String) (port : ℕ) → Config → Config → Config
edit_form create_thing_id suffix port config form =
    let form' = watched create_thing_id suffix form (record form { userrole = config.userrole }) in
    watched create_thing_id suffix form'
      (record config { username = shown_username config; port = port })

abbrev pub thing_form : (id : String) → Thing → Config → Config
thing_form id thing form = record form {
  userrole = "thing";
  name = id +++ " (default)";
  username = id;
  client_id = id;
  password = thing.auth_value;
  mqtt_version = "3.1.1";
}

abbrev reset : View → View
reset v = record v { old_name = ""; connected_token = "" }

abbrev for_thing : (token id : String) → Option Thing → View → View
for_thing token id none v = v
for_thing token id (some thing) v = record v {
  connected_token = token;
  form = thing_form id thing v.form;
}

abbrev with_port : ℕ → View → View
with_port port v = record v { form = record v.form { port = port } }

abbrev shown_for :
    (default_form : Config) (suffix : String) (port : ℕ)
    → List Thing
    → ConnForm
    → Option Config
    → View
    → View
shown_for default_form suffix port things f none v =
    if is_set f.thing_id_for_create
    then with_port port (
        for_thing f.connected_callback_token (or_else f.thing_id_for_create "")
          (find_thing (or_else f.thing_id_for_create "") things) v)
    else record v {
      form =
          watched f.thing_id_for_create suffix v.form
            (record default_form { id = v.form.id; port = port });
    }
shown_for default_form suffix port things f (some config) v = record v {
  old_name = config.name;
  form = edit_form f.thing_id_for_create suffix port config v.form;
}

-- The watch on the form's visibility, when the form of the layout is `f`. `config` is the
-- configuration to edit, where one is to be edited; `default_form` is `getDefaultForm()`, which has
-- no identifier.
abbrev pub visible_changed :
    (default_form : Config) (suffix : String) (port : ℕ)
    → List Thing
    → ConnForm
    → (config : Option Config) → View
    → View
visible_changed default_form suffix port things f config v =
    shown_for default_form suffix port things f config (reset v)

pub record Suggested : Type 0 where
  pub value : String
  pub client_id : String
  pub password : String

abbrev pub suggest : Thing → Suggested
suggest thing = record {
  value = thing.thing_id;
  client_id = thing.thing_id;
  password = thing.auth_value;
}

abbrev pub take : ℕ → List Thing → List Thing
take zero things = []
take (suc n) [] = []
take (suc n) (t ∷ things) = t ∷ take n things

-- `filterUsername`, by what it hands on; `lower` is `toLowerCase`.
abbrev pub filter_username :
    (lower : String → String) (create_thing_id : Option String) (qs : String)
    → List Thing
    → List Suggested
filter_username lower create_thing_id qs things =
    if is_set create_thing_id
    then elim (find_thing (or_else create_thing_id "") things) [
      | none ↦ []
      | some thing ↦ suggest thing ∷ []
    ]
    else map suggest (
        take 1000 (
          if qs == ""
          then things
          else filter (λ thing. includes (lower thing.thing_id) (lower qs)) things))
