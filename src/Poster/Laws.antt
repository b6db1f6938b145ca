-- ===== src/Poster/Laws.antt =====
-- That what is posted (web/src/components/thing/HttpPoster.vue) goes to the address of its interface.
use Prim.Native.String.{String}
use tio.Common.{◌≡◌, ◌∙◌, refl, List, [], ◌∷◌, Option, none, some}
use tio.Json.{Json}
use tio.Poster.{
  Api, api_of, method_of, url_resolver, Form, State, Request, Answer, Validation, resolved,
  form_changed, new_state, filled, props_changed, handle_submit, answered, accepted, rejected,
  valid, invalid, thrown,
}

-- What happens to the form. A check or an answer comes with what it is.
pub data Event : Type 0 where
  given : (client_token code thing_id : String) → Option Json → Event
  types_id types_name types_body : String → Event
  types_headers : List (String × String) → Event
  submits : Validation → Event
  is_answered : (now thing_id : String) → Request → Answer → Event

abbrev pub IsFor : Option Api → Form → Type 0
IsFor none form = Unit {0}
IsFor (some a) form =
    (form.url ≡ some (url_resolver a form.id form.name)) × (form.method ≡ method_of a)

abbrev HasMethod : Option Api → Form → Type 0
HasMethod none form = Unit {0}
HasMethod (some a) form = form.method ≡ method_of a

resolved-IsFor : (o : Option Api) (form : Form) → HasMethod o form → IsFor o (resolved o form)
resolved-IsFor none form h = tt
resolved-IsFor (some a) form h = (refl, h)

IsFor-HasMethod : (o : Option Api) (form : Form) → IsFor o form → HasMethod o form
IsFor-HasMethod none form h = tt
IsFor-HasMethod (some a) form h = h.1

same_method :
    (o : Option Api) (form form' : Form)
    → form'.method ≡ form.method
    → HasMethod o form
    → HasMethod o form'
same_method none form form' e h = tt
same_method (some a) form form' e h = e ∙ h

module _ (print print_error : Json → String) where
  abbrev pub act : Event → State → State
  act (given client_token code thing_id payload) st =
      props_changed print print_error client_token code thing_id payload st
  act (types_id id) st = form_changed (record st { form = record st.form { id = id } })
  act (types_name name) st = form_changed (record st { form = record st.form { name = some name } })
  act (types_body body) st = form_changed (record st { form = record st.form { body = body } })
  act (types_headers headers) st =
      form_changed (record st { form = record st.form { headers = headers } })
  act (submits check) st = (handle_submit print print_error check st).0
  act (is_answered now thing_id sent answer) st =
      (answered print print_error now thing_id sent answer st).0

  abbrev pub run : List Event → State → State
  run [] st = st
  run (e ∷ es) st = run es (act e st)

  filled-IsFor :
      (client_token thing_id : String) (payload : Option Json) (o : Option Api) (st : State)
      → let st' = filled print print_error client_token thing_id payload o st in
        IsFor st'.api st'.form
  filled-IsFor client_token thing_id payload none st = tt
  filled-IsFor client_token thing_id payload (some a) st = (refl, refl)

  edited :
      (st : State) (form : Form)
      → form.method ≡ st.form.method
      → IsFor st.api st.form
      → IsFor st.api (resolved st.api form)
  edited st form e h =
      resolved-IsFor st.api form
        (same_method st.api st.form form e (IsFor-HasMethod st.api st.form h))

  act-IsFor : (e : Event) (st : State) → IsFor st.api st.form → IsFor (act e st).api (act e st).form
  act-IsFor (given client_token code thing_id payload) st h =
      filled-IsFor client_token thing_id payload (api_of code) st
  act-IsFor (types_id id) st h = edited st _ refl h
  act-IsFor (types_name name) st h = edited st _ refl h
  act-IsFor (types_body body) st h = edited st _ refl h
  act-IsFor (types_headers headers) st h = edited st _ refl h
  act-IsFor (submits valid) st h = h
  act-IsFor (submits invalid) st h = h
  act-IsFor (submits (thrown error)) st h = h
  act-IsFor (is_answered now thing_id sent (accepted res)) st h = h
  act-IsFor (is_answered now thing_id sent (rejected error)) st h = h

  run-IsFor :
      (es : List Event) (st : State) → IsFor st.api st.form → IsFor (run es st).api (run es st).form
  run-IsFor [] st h = h
  run-IsFor (e ∷ es) st h = run-IsFor es (act e st) (act-IsFor e st h)

  -- What a request is made with, for the interface that the form is for.
  abbrev pub IsSentTo : Option Api → Form → Option Request → Type 0
  IsSentTo o form none = Unit {0}
  IsSentTo none form (some sent) = Unit {0}
  IsSentTo (some a) form (some sent) =
      (sent.url ≡ some (url_resolver a form.id form.name)) × (sent.method ≡ method_of a)

  sent-IsSentTo :
      (o : Option Api) (form : Form)
      → IsFor o form
      → IsSentTo o form (
          some (record {
            url = form.url;
            method = form.method;
            headers = form.headers;
            body = form.body;
          }))
  sent-IsSentTo none form h = tt
  sent-IsSentTo (some a) form h = h

  -- Whatever has been given to the form and typed in it, what it sends goes, by the method of its
  -- interface, to the address of this interface for the thing and the name in the form.
  pub run-IsSentTo :
      (es : List Event) (check : Validation)
      → let st = run es (new_state print print_error) in
        IsSentTo st.api st.form (handle_submit print print_error check st).1
  run-IsSentTo es valid =
      let st = run es (new_state print print_error) in
      sent-IsSentTo st.api st.form (run-IsFor es (new_state print print_error) tt)
  run-IsSentTo es invalid = tt
  run-IsSentTo es (thrown error) = tt
