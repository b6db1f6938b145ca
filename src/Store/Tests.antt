-- ===== src/Store/Tests.antt =====
-- A reload of the page, for a codec of one list.
use tio.Common.{true, [], ◌∷◌, List, none, some, String}
use tio.Config.{Config, get_default_form}
use tio.Store.{ConnectionsCodec, MqttState}

abbrev two_configs : List Config
two_configs =
    let form = get_default_form "localhost" "http:" "now" in
    record form { id = "c1" } ∷ record form { id = "c2" } ∷ []

abbrev fixed : ConnectionsCodec
fixed = record { stringify = λ cs. "[..]"; parse = λ s. some two_configs }

abbrev empty : MqttState String
empty = record {
  connection_configs = [];
  current_conn_id = none;
  delegate_shared_states = [];
  connecting = true;
  retry_times = 2;
  auto_resub = true;
}
