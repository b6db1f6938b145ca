-- ===== src/ConnForm/Trial.antt =====
-- The client that tries a connection (`connect` of web/src/components/mqtt/MqttConnForm.vue). The
-- handlers do not know which client calls them, so that one of an earlier client acts on a later one.
use tio.Common.{
  ◌≡◌, Bool, true, false, ◌||◌, List, [], ◌∷◌, ◌++◌, Option, none, some, String, ◌==◌, ◌+++◌,
  is_some, or_else, if◌then◌else◌, arith,
}
use tio.Notify.{Notice}

-- `client` is `testClient`, by whether it is connected.
pub record Trial : Type 0 where
  pub connecting : Bool
  pub client : Option Bool
  pub notices : List Notice

abbrev pub new_trial : Trial
new_trial = record { connecting = false; client = none; notices = [] }

-- The events of the library: a client has connected, or one of the handlers is called. `failed` has
-- the text of the error, and whether `end` succeeds.
pub data Event : Type 0 where
  asked : Event
  online : Event
  success : (name : String) → Event
  failed : (error : String) (has_ended : Bool) → Event
  closed : Event
  ended : Event

abbrev pub connect : Trial → Trial
connect t =
    if t.connecting || or_else t.client false
    then t
    else record t { connecting = true; client = some false }

abbrev add_notice : Notice → Trial → Trial
add_notice n t = record t { notices = t.notices ++ n ∷ [] }

abbrev pub on_success : (name : String) → Trial → Trial
on_success name t =
    add_notice
      (record {
        title = "Connected";
        message = "Test client <" +++ (name +++ "> connected");
        kind = "success";
      })
      (record t { connecting = false })

abbrev pub on_failed : (error : String) (has_ended : Bool) → Trial → Trial
on_failed error has_ended t =
    let t' = record t { connecting = false } in
    if has_ended
    then add_notice
        (record {
          title = "Failed";
          message = if error == "" then "Cconnect failed" else error;
          kind = "error";
        })
        t'
    else t'

abbrev pub on_close : Trial → Trial
on_close t = record t { connecting = false }

abbrev pub on_end : Trial → Trial
on_end t = record t { connecting = false; client = none }

abbrev pub handle : Event → Trial → Trial
handle asked t = connect t
handle online t = record t { client = elim t.client [ none ↦ none | some b ↦ some true ] }
handle (success name) t = on_success name t
handle (failed error has_ended) t = on_failed error has_ended t
handle closed t = on_close t
handle ended t = on_end t

abbrev pub run : List Event → Trial → Trial
run [] t = t
run (e ∷ es) t = run es (handle e t)

-- A trial under way has a client.
abbrev pub HasClient : Trial → Type 0
HasClient t = t.connecting ≡ true → is_some t.client ≡ true

handle-HasClient : (e : Event) (t : Trial) → HasClient t → HasClient (handle e t)
handle-HasClient asked t h = ground (arith, h)
handle-HasClient online t h = λ c. ground (arith, h c)
handle-HasClient (success name) t h = λ c. cc
handle-HasClient (failed error true) t h = λ c. cc
handle-HasClient (failed error false) t h = λ c. cc
handle-HasClient closed t h = λ c. cc
handle-HasClient ended t h = λ c. cc

-- Whatever the library's events and the user do, and in whichever order, a trial under way has a
-- client.
pub run-HasClient : (es : List Event) (t : Trial) → HasClient t → HasClient (run es t)
run-HasClient [] t h = h
run-HasClient (e ∷ es) t h = run-HasClient es (handle e t) (handle-HasClient e t h)
