-- ===== src/ListView.antt =====
-- The list of shadows (web/src/components/views/List.vue). A search is a step, and its answer another,
-- which may come after those of later searches. The answer of the server is a page or an error.
pub mod Laws
mod Tests
use Prim.Native.Char.{Char, code}
use Prim.Native.String
use tio.Common.{
  ℕ, ◌+◌, Bool, true, false, not, ◌&&◌, ◌||◌, List, [], ◌∷◌, Option, none, some, String, ◌==◌,
  nat_eq, ltb, leb, or_else, any, is_some, if◌then◌else◌,
}
use tio.Json.{Json, prop, strict_eq, num, str, obj, field, end}
use tio.Session.{truthy}
use tio.SubsForm.{prop?}
use tio.Viewer.{ThingEvent}

-- `params`, which a request is made of.
pub record Params : Type 0 where
  pub page_index : ℕ
  pub page_size : ℕ
  pub query : String

-- `error` is the value that is printed, `none` for the empty text.
pub record State (S : Type 0) : Type 0 where
  pub query : String
  pub querying : Bool
  pub is_select_all : Bool
  pub list : List S
  pub total : ℕ
  pub focused : Bool
  pub empty : Bool
  pub error : Option Json
  pub params : Params

-- `suggestions[0].value` of web/src/configs/query.js
abbrev pub placeholder : String
placeholder = "SELECT * FROM shadow"

abbrev pub default_page_size : ℕ
default_page_size = 20

-- A character that `trim` takes away.
abbrev is_space : Char → Bool
is_space c =
    (leb 9 (code c) && leb (code c) 13)
    || nat_eq (code c) 32
    || nat_eq (code c) 160
    || nat_eq (code c) 5760
    || (leb 8192 (code c) && leb (code c) 8202)
    || nat_eq (code c) 8232
    || nat_eq (code c) 8233
    || nat_eq (code c) 8239
    || nat_eq (code c) 8287
    || nat_eq (code c) 12288
    || nat_eq (code c) 65279

abbrev trim_start : String → String
trim_start String.[] = ""
trim_start (String.◌∷◌ c s) = let rest = trim_start s in if is_space c then rest else String.◌∷◌ c s

abbrev trim_end : String → String
trim_end String.[] = ""
trim_end (String.◌∷◌ c s) =
    let rest = trim_end s in if is_space c && rest == "" then "" else String.◌∷◌ c rest

-- `s.trim()`
abbrev pub trim : String → String
trim s = trim_end (trim_start s)

-- `s.toLowerCase().startsWith(p)`, for a text `p` of which no other letter becomes one in lower case.
abbrev lower : ℕ → ℕ
lower n = if leb b'A' n && leb n b'Z' then n + 32 else n

abbrev pub starts_in_lower_case : String → String → Bool
starts_in_lower_case s String.[] = true
starts_in_lower_case String.[] (String.◌∷◌ c p) = false
starts_in_lower_case (String.◌∷◌ d s) (String.◌∷◌ c p) =
    nat_eq (lower (code d)) (code c) && starts_in_lower_case s p

abbrev or_placeholder : String → String
or_placeholder s = if s == "" then placeholder else s

abbrev is_bad_request : Option Json → Bool
is_bad_request err = elim (prop? "code" err) [ none ↦ false | some v ↦ strict_eq v (num "400") ]

-- `{ error: err || "undefined" }`
abbrev error_of : Option Json → Json
error_of none = obj (field "error" (str "undefined") end)
error_of (some v) = obj (field "error" (if truthy v then v else str "undefined") end)

abbrev bad_request_or : Option Json → Json → Json
bad_request_or none other = other
bad_request_or (some v) other = if is_bad_request (some v) then v else other

module _ {S : Type 0} where
  abbrev pub new_state : State S
  new_state = record {
    query = "SELECT * FROM shadow";
    querying = false;
    is_select_all = true;
    list = [];
    total = 0;
    focused = false;
    empty = false;
    error = none;
    params = record { page_index = 1; page_size = default_page_size; query = placeholder };
  }

  -- `active`
  abbrev pub is_active : State S → Bool
  is_active st = st.focused || ltb 0 st.total

  abbrev pub reset : State S → State S
  reset st = record st { focused = false; list = []; total = 0; empty = false; error = none }

  abbrev pub handle_clear : State S → State S
  handle_clear st = reset (record st { query = placeholder })

  -- The first half of `fetchList`, with the request.
  abbrev pub fetch_list : State S → State S × Params
  fetch_list st = (
    record st { querying = true; is_select_all = starts_in_lower_case st.params.query "select *" },
    st.params,
  )

  -- `editor` is the text of the editor, `none` where it is not there.
  abbrev pub handle_search : (editor : Option String) → State S → State S × Params
  handle_search editor st =
      let value = or_placeholder (trim (elim editor [ none ↦ st.query | some s ↦ trim s ])) in
      fetch_list
        (record st { query = value; params = record st.params { query = value; page_index = 1 } })

  abbrev with_request : State S × Params → State S × Option Params
  with_request (st, request) = (st, some request)

  -- A suggestion starts a search or is only written.
  abbrev pub handle_select :
      (value : String) (auto_trigger : Bool) (editor : Option String)
      → State S
      → State S × Option Params
  handle_select value auto_trigger editor st =
      let st' = record st { query = value } in
      if auto_trigger
      then with_request (handle_search editor st')
      else if ltb 0 st.total
      then (record st' { focused = false }, none)
      else (st', none)

  abbrev pub handle_page_index_change : ℕ → State S → State S × Params
  handle_page_index_change value st =
      fetch_list (record st { params = record st.params { page_index = value } })

  abbrev pub handle_page_size_change : ℕ → State S → State S × Params
  handle_page_size_change value st =
      fetch_list (record st { params = record st.params { page_size = value } })

  -- The second half of `fetchList`, for a page.
  abbrev pub fetched : (content : List S) (total : ℕ) → State S → State S
  fetched content total st = record (reset st) {
    list = content;
    total = total;
    empty = nat_eq total 0;
    querying = false;
  }

  -- The second half of `fetchList`, for what it has thrown.
  abbrev pub fetch_failed : Option Json → State S → State S
  fetch_failed err st = record (reset st) {
    error = some (bad_request_or err (error_of err));
    querying = false;
  }

  abbrev pub refresh : State S → State S × Option Params
  refresh st = if ltb 0 st.total || st.empty then with_request (fetch_list st) else (st, none)

  -- The callback for events of things; `id_of` is the identifier of a shadow.
  abbrev pub on_status_change :
      {A : Type 0} → (id_of : S → String) → ThingEvent A → State S → State S × Option Params
  on_status_change id_of e st =
      if any (λ s. id_of s == e.thing_id) st.list
        && (e.type == "mqtt-connected" || e.type == "mqtt-disconnected")
      then refresh st
      else (st, none)
