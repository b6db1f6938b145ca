-- ===== src/MessagesView/Tests.antt =====
-- The list of messages at one connection with three messages.
use tio.Common.{
  ◌≡◌, refl, Bool, true, false, List, [], ◌∷◌, Option, none, some, String, filter, arith, eq_iff,
  starts_with, includes, split,
}
use tio.Config.{get_default_form}
use tio.Delegate.{Shown, Message}
use tio.UseMqtt.{World}
use tio.UseMqtt.Calls.{selected_conn}
use tio.MessagesView.{Panel, messages, new_panel, teleport_detail, on_mounted}
use tio.MessagesView.Laws.{messages-is_wanted}

abbrev message : Bool → String → Message String
message out topic = record {
  id = none;
  out = out;
  create_at = "now";
  topic = topic;
  payload = "{}";
  opts = record { qos = 0; retain = false; properties = none };
}

abbrev three : List (Message String)
three = message true "a/b" ∷ message false "a/b" ∷ message false "a/c" ∷ []

abbrev shown : Shown String
shown = record {
  client = record {
    connected = true;
    connecting = false;
    reconnecting = false;
    disconnecting = false;
  };
  subs = [];
  messages = three;
  unread_message_count = 0;
  received_msg_type = "JSON";
}

abbrev world : World String
world = record {
  mqtt = record {
    connection_configs = record (get_default_form "localhost" "http:" "now") { id = "c" } ∷ [];
    current_conn_id = some "c";
    delegate_shared_states = ("c", record { id = "c"; connected = true; shown = some shown }) ∷ [];
    connecting = false;
    retry_times = 0;
    auto_resub = true;
  };
  storage = [];
  delegates = [];
  log = [];
}

abbrev panel : Panel
panel = on_mounted (some "c") (new_panel "visible")

mounted : panel ≡ record { teleport = teleport_detail; type = "all"; global_visibility = "hidden" }
mounted = refl

shown_all : messages "" panel world ≡ three
unfolding selected_conn tio.Common.Dict.get
shown_all = refl

shown_wildcard : messages "a/+" panel world ≡ []
unfolding selected_conn tio.Common.Dict.get tio.Topic.match_topic_method tio.Topic.match_from split
    includes starts_with
shown_wildcard = refl

messages-is_wanted_example : messages "a/b" panel world ≡ message false "a/b" ∷ []
unfolding selected_conn includes split starts_with tio.Common.Dict.get
messages-is_wanted_example = messages-is_wanted "a/b" panel world (
    ground (
      arith,
      eq_iff "a" "#",
      eq_iff "a" "+",
      eq_iff "b" "#",
      eq_iff "b" "+",
      eq_iff "c" "#",
      eq_iff "c" "+",
    ))
