-- ===== src/MessagesView.antt =====
-- The messages of a connection as the console shows them (web/src/components/mqtt/MqttMessage.vue):
-- the filter over the store's messages, and the panel's place. The list's scrolling is left out.
pub mod Laws
mod Tests
use tio.Common.{
  Bool, true, false, not, ◌&&◌, List, [], Option, none, some, String, ◌==◌, filter, or_else,
  if◌then◌else◌,
}
use tio.Topic.{match_topic_method}
use tio.Store.{Shared}
use tio.Delegate.{Client, Shown, Message}
use tio.UseMqtt.{World, clear_messages}
use tio.UseMqtt.Calls.{selected_conn}

-- `teleport`, `filters.type` and the style of the panel of the whole page.
pub record Panel : Type 0 where
  pub teleport : String
  pub type : String
  pub global_visibility : String

-- `teleports` of web/src/reactives/useLayout.js
abbrev pub teleport_global : String
teleport_global = "#global-message-panel"

abbrev pub teleport_detail : String
teleport_detail = "#mqtt-client-message-panel"

abbrev pub is_global : Panel → Bool
is_global p = p.teleport == teleport_global

module _ {P : Type 0} where
  -- The test of the filter.
  abbrev pub is_shown : (type filter_topic : String) → Message P → Bool
  is_shown type filter_topic m =
      if type == "in" && m.out
      then false
      else if type == "out" && not m.out
      then false
      else if filter_topic == ""
      then true
      else if m.out
      then false
      else match_topic_method m.topic filter_topic

  abbrev messages_of : Option (Shared (Shown P)) → List (Message P)
  messages_of none = []
  messages_of (some s) = elim s.shown [ none ↦ [] | some d ↦ d.messages ]

  abbrev pub all_messages : World P → List (Message P)
  all_messages w = elim (selected_conn w) [ none ↦ [] | some c ↦ messages_of c.1 ]

  abbrev pub messages : (filter_topic : String) → Panel → World P → List (Message P)
  messages filter_topic p w = filter (is_shown p.type filter_topic) (all_messages w)

  -- Without a connection that is listed there is no configuration, and the call throws.
  abbrev pub handle_clear_messages :
      (fresh : Client) (tool : String) (thing : Option String) → World P → Option (World P)
  handle_clear_messages fresh tool thing w = elim (selected_conn w) [
    | none ↦ none
    | some c ↦ elim c.0 [
      | none ↦ none
      | some config ↦ some (clear_messages fresh tool thing config w)
    ]
  ]

-- `currentConnId.value` as a test
abbrev pub is_set : Option String → Bool
is_set current = not (or_else current "" == "")

abbrev pub switch_teleport : (to_global : Bool) (current : Option String) → Panel → Panel
switch_teleport to_global current p =
    if to_global
    then record p { global_visibility = "visible"; teleport = teleport_global }
    else record p {
      global_visibility = "hidden";
      teleport = if is_set current then teleport_detail else teleport_global;
    }

abbrev pub new_panel : (global_visibility : String) → Panel
new_panel v = record { teleport = teleport_global; type = "all"; global_visibility = v }

abbrev pub on_mounted : Option String → Panel → Panel
on_mounted = switch_teleport false

-- The watch on `currentConnId`.
abbrev pub current_conn_changed : Option String → Panel → Panel
current_conn_changed = switch_teleport false

-- The watch on `selectedConn`, which is deep: a message that comes in runs it too.
abbrev pub selected_conn_changed : Panel → Panel
selected_conn_changed p = record p { type = "all" }
