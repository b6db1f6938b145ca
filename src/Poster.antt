-- ===== src/Poster.antt =====
-- The form that posts to the interface of shadows (web/src/components/thing/HttpPoster.vue, with the
-- table of web/src/configs/thing.js). `print` is `JSON.stringify` with four spaces of indentation,
-- `print_error` that without them; the answer of the server and the library's check are arguments.
pub mod Laws
mod Tests
use Prim.Native.String.{String}
use tio.Common.{
  Bool, true, false, List, [], ◌∷◌, ◌++◌, Option, none, some, or_else, ◌==◌, ◌+++◌, if◌then◌else◌,
}
use tio.Json.{Json, obj, field, end, str, num}
use tio.Viewer.{ThingEvent, notify_thing_state_change}

-- The codes of `shadowApis`.
pub data Api : Type 0 where
  invoke desire tags : Api

abbrev pub api_of : (code : String) → Option Api
api_of code =
    if code == "invoke"
    then some invoke
    else if code == "desire"
    then some desire
    else if code == "tags"
    then some tags
    else none

abbrev pub method_of : Api → String
method_of invoke = "post"
method_of desire = "put"
method_of tags = "put"

abbrev pub url_of : Api → String
url_of invoke = "/api/v1/things/{id}/methods/{name}"
url_of desire = "/api/v1/things/{id}/shadows/default/state/desired"
url_of tags = "/api/v1/things/{id}/shadows/tags"

-- The form; `name` is the only parameter, which is missing at first.
pub record Form : Type 0 where
  pub method : String
  pub api : String
  pub url : Option String
  pub id : String
  pub name : Option String
  pub headers : List (String × String)
  pub body : String

-- `text || otherwise`
abbrev or_text : String → (otherwise : String) → String
or_text text otherwise = if text == "" then otherwise else text

abbrev pub url_resolver : Api → (id : String) (name : Option String) → String
url_resolver invoke id name =
    "api/v1/things/"
    +++ (or_text id "{id}" +++ ("/methods/" +++ or_text (or_else name "") "{name}"))
url_resolver desire id name =
    "api/v1/things/" +++ (or_text id "{id}" +++ "/shadows/default/state/desired")
url_resolver tags id name = "/api/v1/things/" +++ (or_text id "{id}" +++ "/shadows/tags")

abbrev empty : Json
empty = obj end

abbrev pub payload_resolver : (client_token : String) → Api → Json
payload_resolver client_token invoke =
    obj (field "connTimeout" (num "30") (field "respTimeout" (num "20") (field "data" empty end)))
payload_resolver client_token desire = obj (
    field "clientToken" (str client_token)
      (field "state" (obj (field "desired" empty end)) (field "version" (num "0") end)))
payload_resolver client_token tags = obj (field "tags" empty (field "version" (num "0") end))

abbrev pub params_of : Api → List String
params_of invoke = "name" ∷ []
params_of desire = []
params_of tags = []

abbrev default_res : Json
default_res = obj (field "code" (num "0") (field "message" (str "") (field "data" (str "") end)))

pub record State : Type 0 where
  pub submitting : Bool
  pub api : Option Api
  pub params : List String
  pub form : Form
  pub is_error : Bool
  pub result : String

-- The watch on the form.
abbrev pub resolved : Option Api → Form → Form
resolved none form = record form { url = none }
resolved (some a) form = record form { url = some (url_resolver a form.id form.name) }

abbrev pub form_changed : State → State
form_changed st = record st { form = resolved st.api st.form }

abbrev with_name : List String → Option String → Option String
with_name [] name = name
with_name (key ∷ keys) name = some ""

-- What is asked of the server.
pub record Request : Type 0 where
  pub url : Option String
  pub method : String
  pub headers : List (String × String)
  pub body : String

-- What the library's check of the form comes to.
pub data Validation : Type 0 where
  valid invalid : Validation
  thrown : (error : Json) → Validation

pub data Answer : Type 0 where
  accepted : Json → Answer
  rejected : Json → Answer

module _ (print print_error : Json → String) where
  abbrev pub new_state : State
  new_state = record {
    submitting = false;
    api = none;
    params = [];
    form = record {
      method = "";
      api = "";
      url = some "";
      id = "";
      name = none;
      headers = ("Content-Type", "application/json") ∷ [];
      body = "";
    };
    is_error = false;
    result = print_error default_res;
  }

  -- The form is filled in, and its watch follows.
  abbrev filled : (client_token thing_id : String) → Option Json → Option Api → State → State
  filled client_token thing_id payload none st = record st {
    api = none;
    params = [];
    result = print_error default_res;
  }
  filled client_token thing_id payload (some a) st = record st {
    api = some a;
    params = params_of a;
    form = resolved (some a) (record st.form {
      method = method_of a;
      api = url_of a;
      id = thing_id;
      body = print (or_else payload (payload_resolver client_token a));
      name = with_name (params_of a) st.form.name;
    });
    result = print_error default_res;
  }

  -- The watch on the properties.
  abbrev pub props_changed : (client_token code thing_id : String) → Option Json → State → State
  props_changed client_token code thing_id payload st =
      filled client_token thing_id payload (api_of code) st

  abbrev failed : (error : Json) → State → State
  failed error st = record st {
    submitting = false;
    is_error = true;
    result = print_error (obj (field "error" error end));
  }

  -- `handleSubmit` up to the request.
  abbrev pub handle_submit : Validation → State → State × Option Request
  handle_submit invalid st = (record st { submitting = false }, none)
  handle_submit (thrown error) st = (failed error st, none)
  handle_submit valid st = (
    record st { submitting = true; is_error = false; result = print_error default_res },
    some (record {
      url = st.form.url;
      method = st.form.method;
      headers = st.form.headers;
      body = st.form.body;
    }),
  )

  -- The rest of it; with the event that is sent, it emits done.
  abbrev pub answered :
      (now thing_id : String)
      → Request
      → Answer
      → State
      → State × Option (ThingEvent (Option String × String))
  answered now thing_id sent (accepted res) st = (
    record st { submitting = false; result = print res },
    some (
        notify_thing_state_change now thing_id (some "http-requested")
          (some (sent.url, sent.method))),
  )
  answered now thing_id sent (rejected error) st = (failed error st, none)
