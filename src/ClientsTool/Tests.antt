-- ===== src/ClientsTool/Tests.antt =====
-- The options of a connection that is connected.
use tio.Common.{◌≡◌, refl, true, false, [], ◌∷◌, some, String}
use tio.Common.Dict.{get}
use tio.Config.{get_default_form}
use tio.Delegate.{Client}
use tio.UseMqtt.{World}
use tio.ClientsTool.{delete, edit, disconn_key, opts}

abbrev online : Client
online = record {
  connected = true;
  connecting = false;
  reconnecting = false;
  disconnecting = false;
}

abbrev world : World String
world = record {
  mqtt = record {
    connection_configs = record (get_default_form "localhost" "https:" "now") { id = "c1" } ∷ [];
    current_conn_id = some "c1";
    delegate_shared_states =
        (
          "c1",
          record {
            id = "c1";
            connected = true;
            shown = some (record {
              client = online;
              subs = [];
              messages = [];
              unread_message_count = 0;
              received_msg_type = "";
            });
          },
        )
        ∷ [];
    connecting = false;
    retry_times = 0;
    auto_resub = true;
  };
  storage = [];
  delegates = [];
  log = [];
}

options :
    opts world
    ≡ record { key = delete; disabled = true }
      ∷ record { key = edit; disabled = true }
      ∷ record { key = disconn_key; disabled = false }
      ∷ []
unfolding get
options = refl
