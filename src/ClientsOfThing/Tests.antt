-- ===== src/ClientsOfThing/Tests.antt =====
-- The view of the connections of one thing, which has one that is connected.
use tio.Common.{◌≡◌, refl, true, false, [], ◌∷◌, none, some, String}
use tio.Config.{Config, get_default_form}
use tio.Store.{Shared}
use tio.Common.Dict.{get}
use tio.Layout.{load}
use tio.Delegate.{Client, Shown}
use tio.UseMqtt.{World, get_conn_configs_by_client_id}
use tio.ClientsOfThing.{State, update_clients}
use tio.ClientsOfThing.Laws.{IsShownBy, update_clients-IsShownBy}

abbrev online : Client
online = record {
  connected = true;
  connecting = false;
  reconnecting = false;
  disconnecting = false;
}

abbrev conn : Config
conn = record (get_default_form "localhost" "https:" "now") { id = "c1"; client_id = "lamp" }

abbrev shared : Shared (Shown String)
shared = record {
  id = "c1";
  connected = true;
  shown = some (record {
    client = record online { connected = true };
    subs = [];
    messages = [];
    unread_message_count = 0;
    received_msg_type = "";
  });
}

abbrev world : World String
world = record {
  mqtt = record {
    connection_configs = conn ∷ [];
    current_conn_id = none;
    delegate_shared_states = ("c1", shared) ∷ [];
    connecting = false;
    retry_times = 0;
    auto_resub = true;
  };
  storage = [];
  delegates = [];
  log = [];
}

abbrev start : State String
start = record {
  world = world;
  page = load [];
  clients = [];
  active_name = "";
  ccbt = "";
  notices = [];
}

opened : (update_clients "lamp" start).active_name ≡ "c1"
unfolding get
opened = refl

update_clients-IsShownBy_example :
    IsShownBy
      (get_conn_configs_by_client_id "lamp" world)
      world
      ""
      ((update_clients "lamp" start).clients, (update_clients "lamp" start).active_name)
update_clients-IsShownBy_example = update_clients-IsShownBy "lamp" start
