-- ===== src/SubsList/Tests.antt =====
-- The list of subscriptions at one connection.
use tio.Common.{
  filter, not, ◌≡◌, refl, true, false, List, [], ◌∷◌, none, some, String, if◌then◌else◌, Bool-cases,
  inl, inr, ◌==◌,
}
use tio.Json.{Json, num, obj, end, field}
use tio.Config.{Config, get_default_form}
use tio.Subs.{SubConfig}
use tio.Store.{ConnectionsCodec, store_connections}
use tio.Delegate.{Client}
use tio.Layout.{hidden_subs_form}
use tio.UseMqtt.{get_conn_config}
use tio.UseMqtt.Calls.{selected_conn}
use tio.SubsForm.{Form, init_model, form_changed, data_of}
use tio.SubsList.{Row, State}
use tio.SubsList.Actions.{handle_delete, submit_form}
use tio.SubsList.Edit.{given, form_changed-given}
use tio.SubsList.Stored.{handle_delete-config}
use tio.SubsList.Distinct.{IsDistinct, submit_form-IsDistinct}

abbrev sub : String → String → SubConfig Json
sub id topic = record {
  id = id;
  name = "n";
  keep = false;
  topic = topic;
  opts = obj (field "qos" (num "1") end);
}

abbrev two_subs : List (SubConfig Json)
two_subs = sub "1" "a" ∷ sub "2" "b" ∷ []

abbrev config : Config
config = record (get_default_form "localhost" "http:" "now") {
  id = "c";
  subscriptions = some two_subs;
}

abbrev offline : Client
offline = record {
  connected = false;
  connecting = false;
  reconnecting = false;
  disconnecting = false;
}

abbrev state : State String
state = record {
  world = record {
    mqtt = record {
      connection_configs = config ∷ [];
      current_conn_id = some "c";
      delegate_shared_states = [];
      connecting = false;
      retry_times = 0;
      auto_resub = true;
    };
    storage = [];
    delegates = [];
    log = [];
  };
  form = hidden_subs_form;
  subscriptions = [];
  loading = false;
  notices = [];
}

abbrev codec : ConnectionsCodec
codec = record { stringify = λ cs. "[..]"; parse = λ s. none }

abbrev row : Row
row = record { sub = sub "1" "a"; subscribed = false }

abbrev form : Form
form = record init_model { id = "1"; topic = "c"; qos = some (num "1"); nl = some (num "0") }

abbrev subscribed_row : Row
subscribed_row = record { sub = sub "2" "b"; subscribed = true }

form_changed-given_example :
    form_changed true (data_of (given form)) init_model
    ≡ some (record form { nl = some (num "1"); rap = some (num "1"); rh = some (num "1") })
form_changed-given_example = form_changed-given form init_model (num "1") refl

handle_delete-config_example :
    let w = (handle_delete codec offline "new" row state).world in
    ((j : String)
      → get_conn_config j w ≡ (
          if "c" == j
          then some
              (record config { subscriptions = some (filter (λ s. not (s.id == "1")) two_subs) })
          else get_conn_config j state.world))
    × (w.storage ≡ store_connections codec w.mqtt.connection_configs [])
unfolding selected_conn
handle_delete-config_example =
    handle_delete-config offline codec "new" row config two_subs state refl refl (refl, (refl, tt))
      refl

state-IsDistinct : IsDistinct state.world
state-IsDistinct = record {
  subs = λ j. elim (Bool-cases ("c" == j)) [
    | inl e ↦ rw e (record { topics = (refl, (refl, tt)); ids = (refl, (refl, tt)) })
    | inr e ↦ rw e (record { topics = tt; ids = tt })
  ];
}

submit_form-IsDistinct_example : IsDistinct (submit_form offline "mqtt" none form state).world
unfolding selected_conn
submit_form-IsDistinct_example =
    submit_form-IsDistinct offline "mqtt" none form state state-IsDistinct
