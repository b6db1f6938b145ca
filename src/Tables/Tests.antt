-- ===== src/Tables/Tests.antt =====
-- The tables at small data.
use tio.Common.{ℕ, ◌≤◌, ◌≡◌, refl, true, false, List, [], ◌∷◌, none, some, String, length, arith}
use tio.Json.{obj, field, end, num, str}
use tio.Config.{Config, get_default_form}
use tio.Delegate.{Client}
use tio.Store.{ConnectionsCodec, initial_app}
use tio.Tables.{Screen, data_changed, delete_thing}
use tio.Tables.Logs.{logs}
use tio.Tables.Laws.{IsLeft, delete_thing-connections, pages, pages-all}

columns :
    data_changed
      (some (obj (field "thingId" (str "lamp") (field "last_seen_time" (num "1") end)) ∷ []))
      (record { with_id = false; columns = [] })
    ≡ record {
      with_id = true;
      columns = record { prop = "last_seen_time"; type = "time"; label = "Last Seen Time" } ∷ [];
    }
unfolding data_changed
columns = refl

abbrev two_logs : List String
two_logs = "a" ∷ "b" ∷ []

pages-all_example : (pages 1 two_logs ≡ two_logs) × ((p : ℕ) → length (logs p two_logs) ≤ 50)
pages-all_example = pages-all 1 two_logs (omega arith)

abbrev online : Client
online = record {
  connected = true;
  connecting = false;
  reconnecting = false;
  disconnecting = false;
}

abbrev conn : String → String → Config
conn id client_id = record (get_default_form "localhost" "https:" "now") {
  id = id;
  client_id = client_id;
}

abbrev codec : ConnectionsCodec
codec = record { stringify = λ cs. "[..]"; parse = λ s. none }

abbrev screen : Screen String String String
screen = record {
  world = record {
    mqtt = record {
      connection_configs = conn "c1" "lamp" ∷ conn "c2" "door" ∷ [];
      current_conn_id = none;
      delegate_shared_states = [];
      connecting = false;
      retry_times = 0;
      auto_resub = true;
    };
    storage = [];
    delegates = [];
    log = [];
  };
  app = initial_app;
  notices = [];
  pushed = [];
}

delete_thing-connections_example :
    IsLeft "lamp" true screen (delete_thing codec online "lamp" true screen)
delete_thing-connections_example =
    delete_thing-connections codec online "lamp" true screen refl (refl, (refl, tt))
