-- ===== src/JsonEditor.antt =====
-- The editor of JSON (web/src/components/common/JSONEditor.vue) around the library's editor.
-- `parse`, `print` and `print_two` are `JSON.parse`, `JSON.stringify` and the latter with two spaces
-- of indentation.
pub mod Laws
mod Tests
use Prim.Native.String.{String}
use tio.Common.{Bool, true, false, not, Option, none, some, ◌==◌, nat_eq, if◌then◌else◌}
use tio.Json.{Json, null, bool, num, str, arr, obj, end}

-- What the library's editor is given: a value, or a text that is not JSON.
pub data Object : Type 0 where
  json : Json → Object
  raw : String → Object

-- `error` is whether the library reports errors in what is typed.
pub record State : Type 0 where
  pub error : Bool
  pub object : Object
  pub content : String

-- What the library hands on: a value, or the text that is typed.
pub data Updated : Type 0 where
  as_json : Json → Updated
  as_text : String → Updated

-- What is emitted: whether there is an error, and the new model.
pub record Emitted : Type 0 where
  pub has_error : Bool
  pub model_value : Option String

-- The editor with what its parent holds: the model, `none` where it is no text, and whether there is an
-- error.
pub record Bound : Type 0 where
  pub model : Option String
  pub editor : State
  pub has_error : Bool

abbrev pub same_model : Option String → Option String → Bool
same_model none none = true
same_model (some m) (some n) = m == n
same_model _ _ = false

abbrev pub empty : Json
empty = obj end

abbrev is_truthy : Json → Bool
is_truthy null = false
is_truthy (bool b) = b
is_truthy (num n) = not (n == "0")
is_truthy (str s) = not (s == "")
is_truthy (arr xs) = true
is_truthy (obj fs) = true

-- `v || {}`
abbrev pub or_empty : Json → Json
or_empty v = if is_truthy v then v else empty

module _ (parse : String → Option Json) (print print_two : Json → String) where
  abbrev pub new_state : State
  new_state = record { error = false; object = json empty; content = "{}" }

  abbrev parsed : (model : String) → Option Json → State → State × Bool
  parsed model none st = (record st { object = raw model; content = model }, true)
  parsed model (some v) st = (
    if st.content == print v then st else record st { object = json v; content = print v },
    false,
  )

  -- The watch on the model, `none` where it is no text, with the error that is emitted.
  abbrev pub model_changed : Option String → State → State × Bool
  model_changed none st = (record st { object = json empty; content = print empty }, false)
  model_changed (some model) st = parsed model (parse (if model == "" then "\"\"" else model)) st

  abbrev pub check_data : State → Bool × Option String
  check_data st = if st.error then (false, none) else (true, some st.content)

  abbrev value_of : Updated → Option Json
  value_of (as_json v) = some v
  value_of (as_text s) = parse s

  abbrev changed_to : Option Json → State → Option (State × Emitted)
  changed_to none st = none
  changed_to (some v) st = some (
    record st { error = false; content = print v },
    record { has_error = false; model_value = some (print_two (or_empty v)) },
  )

  -- `none` where it throws, which is not where the library reports no error.
  abbrev pub on_change : Updated → (content_errors : Bool) → State → Option (State × Emitted)
  on_change updated true st =
      some (record st { error = true }, record { has_error = true; model_value = none })
  on_change updated false st = changed_to (value_of updated) st

  -- The parent's model; the watch runs only where it changes.
  abbrev pub set_model : Option String → Bound → Bound
  set_model model b =
      if same_model model b.model
      then b
      else let (editor, has_error) = model_changed model b.editor in
        record { model = model; editor = editor; has_error = has_error }

  -- It runs at the start also.
  abbrev pub mount : Option String → Bound
  mount model =
      let (editor, has_error) = model_changed model new_state in
      record { model = model; editor = editor; has_error = has_error }

  -- The parent takes what is emitted.
  abbrev taken : Option (State × Emitted) → Bound → Option Bound
  taken none b = none
  taken (some (st, emitted)) b =
      let b' = record b { editor = st; has_error = emitted.has_error } in
      some (elim emitted.model_value [ none ↦ b' | some model ↦ set_model (some model) b' ])

  abbrev pub handle_change : Updated → (content_errors : Bool) → Bound → Option Bound
  handle_change updated content_errors b = taken (on_change updated content_errors b.editor) b

  -- Whether `validate` does not throw.
  abbrev pub validate : State → Bool
  validate st = not st.error
