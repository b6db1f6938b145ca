-- ===== src/SetReported.antt =====
-- How a thing's reported state is set (web/src/components/thing/ShadowData.vue): over a connection of
-- the thing that is connected, or else one that is connected or created first, if the user agrees.
-- The text of the message is the JSON value that is printed; what is generated enters as an argument.
pub mod Connects
mod Tests
use tio.Common.{
  Bool, true, false, not, ◌&&◌, List, [], ◌∷◌, Option, none, some, String, ◌==◌, ◌+++◌, find,
  if◌then◌else◌,
}
use tio.Json.{Json, obj, field, end, str, num}
use tio.Config.{Config}
use tio.Shadow.{State as Shadow, Outcome, type_error, ok, diff_state}
use tio.Viewer.{Viewer, no_object, view_object}
use tio.Layout.{Page, show_mqtt_conn_form}
use tio.Delegate.{Client}
use tio.Delegate.State.{About, connected_with, disconnected, of_topic}
use tio.UseMqtt.{World, connect, select_connection, get_conn_configs_by_client_id}
use tio.ClientsOfThing.{is_connected}

-- What the form that publishes is given.
pub record Publish : Type 0 where
  pub is_shown : Bool
  pub conn_conf : Option Config
  pub title : String
  pub topic : String
  pub payload : Option Json
  pub paytype : String

abbrev pub no_publish : Publish
no_publish = record {
  is_shown = false;
  conn_conf = none;
  title = "";
  topic = "";
  payload = none;
  paytype = "";
}

-- What the user is asked, and what the code does if he agrees.
pub data Question : Type 0 where
  create_client : Question
  connect_client : Config → Question
  no_delta : Question

pub record State (P : Type 0) : Type 0 where
  pub world : World P
  pub page : Page
  pub ccbt : String
  pub selected_state : Option Shadow
  pub viewer : Viewer Json
  pub publish : Publish
  pub question : Option Question

abbrev pub empty_report : (client_token : String) → Json
empty_report client_token = obj (
    field "state" (obj (field "reported" (obj end) end))
      (field "clientToken" (str client_token) (field "version" (num "0") end)))

module _ {P : Type 0} where
  -- `shadow` is the state of the current shadow.
  abbrev pub handle_compare_state : Option Shadow → State P → State P
  handle_compare_state shadow st = record st {
    selected_state = shadow;
    viewer = record st.viewer { object_to_be_view = none; title_of_viewer = "both" };
  }

  abbrev show_delta : Bool × Option Json → State P → State P
  show_delta (true, delta) st = record st { viewer = view_object delta "Delta" true st.viewer }
  show_delta (false, delta) st = record st { question = some no_delta }

  abbrev checked : Outcome (Bool × Option Json) → State P → Option (State P)
  checked type_error st = none
  checked (ok delta) st = some (show_delta delta st)

  -- `none` where `diffState` throws.
  abbrev pub handle_check_delta : Option Shadow → State P → Option (State P)
  handle_check_delta shadow st = checked (diff_state shadow) (record st { selected_state = none })

  abbrev pub handle_close_viewers : State P → State P
  handle_close_viewers st = record st { selected_state = none; viewer = no_object }

  abbrev pub handle_close_mqtt_publish : State P → State P
  handle_close_mqtt_publish st = record st { publish = no_publish }

  abbrev pub handle_done_mqtt_publish : (err : Option String) → State P → State P
  handle_done_mqtt_publish none st = handle_close_mqtt_publish st
  handle_done_mqtt_publish (some err) st = if err == "" then handle_close_mqtt_publish st else st

  module _ (fresh : Client) (thing_id : String) where
    abbrev pub show_set_reported_form : (client_token : String) → Config → State P → State P
    show_set_reported_form client_token config st = record st {
      ccbt = "";
      world = select_connection fresh config st.world;
      publish = record {
        is_shown = true;
        conn_conf = some config;
        title = "Set Reported";
        topic = "$iothub/things/" +++ (thing_id +++ "/shadows/name/default/update");
        payload = some (empty_report client_token);
        paytype = "JSON";
      };
    }

    abbrev pub ask : Question → State P → State P
    ask q st = record st { question = some q }

    abbrev set_reported_with : (client_token : String) → List Config → State P → State P
    set_reported_with client_token [] st = ask create_client st
    set_reported_with client_token (c ∷ conns) st =
        elim (find (λ config. is_connected config st.world) (c ∷ conns)) [
          | some config ↦ show_set_reported_form client_token config st
          | none ↦ ask (connect_client c) st
        ]

    abbrev pub handle_set_reported : (client_token : String) → State P → State P
    handle_set_reported client_token st =
        set_reported_with client_token (get_conn_configs_by_client_id thing_id st.world) st

    -- The user agrees.
    abbrev pub confirmed : (token : String) → Question → State P → State P
    confirmed token create_client st =
        let (page, ccbt) = show_mqtt_conn_form token none (some thing_id) st.page in
        record st { page = page; ccbt = ccbt; question = none }
    confirmed token (connect_client config) st = record st {
      ccbt = token;
      world = connect fresh config token (select_connection fresh config st.world);
      question = none;
    }
    confirmed token no_delta st = record st { question = none }

    abbrev pub cancelled : State P → State P
    cancelled st = record st { question = none }

    -- The callback for events of things.
    abbrev pub on_status_change :
        (client_token event_thing_id type : String) → About → State P → State P
    on_status_change client_token event_thing_id type (connected_with config token) st =
        if event_thing_id == thing_id && (not (token == "") && token == st.ccbt)
        then (if type == "mqtt-connected"
            then show_set_reported_form client_token config st
            else st)
        else st
    on_status_change client_token event_thing_id type disconnected st = st
    on_status_change client_token event_thing_id type (of_topic topic) st = st
