-- ===== src/SetReported/Tests.antt =====
-- Setting a reported state over a thing's connection that is connected first.
use tio.Common.{true, false, [], ◌∷◌, none, some, String}
use tio.Config.{Config, get_default_form}
use tio.Store.{Shared}
use tio.Layout.{load}
use tio.Viewer.{no_object}
use tio.Delegate.{Client, Shown, Delegate, new_delegate}
use tio.UseMqtt.{World}
use tio.SetReported.{State, no_publish}

abbrev online : Client
online = record {
  connected = true;
  connecting = false;
  reconnecting = false;
  disconnecting = false;
}

abbrev conn : Config
conn = record (get_default_form "localhost" "https:" "now") {
  id = "c1";
  client_id = "lamp";
  userrole = "thing";
  username = "lamp";
}

abbrev delegate : Delegate String
delegate = new_delegate conn

abbrev shared : Shared (Shown String)
shared = record {
  id = "c1";
  connected = false;
  shown = some (record {
    client = record online { connected = false };
    subs = [];
    messages = [];
    unread_message_count = 0;
    received_msg_type = "";
  });
}

abbrev world : World String
world = record {
  mqtt = record {
    connection_configs = conn ∷ [];
    current_conn_id = none;
    delegate_shared_states = ("c1", shared) ∷ [];
    connecting = false;
    retry_times = 0;
    auto_resub = true;
  };
  storage = [];
  delegates = ("c1", delegate) ∷ [];
  log = [];
}

abbrev start : State String
start = record {
  world = world;
  page = load [];
  ccbt = "";
  selected_state = none;
  viewer = no_object;
  publish = no_publish;
  question = none;
}
