-- ===== src/ThingView/Tests.antt =====
-- The view of one thing at one message.
use tio.Common.{◌≡◌, refl, true, false, none, String, any, starts_with}
use tio.Config.{get_default_form}
use tio.Delegate.{Delegate, Message, View, new_delegate, push}
use tio.Delegate.State.{of_topic}
use tio.ThingView.{is_update}
use tio.ThingView.Laws.{updates, push-updates}

ignored : is_update "lamp" "*" "message-in" (of_topic "$iothub/things/lamp/a") ≡ false
ignored = refl

abbrev server : Delegate String
server = record (new_delegate (get_default_form "localhost" "http:" "now")) { role = "server" }

abbrev view : View
view = record { active_tool_key = ""; current_conn_id = none; current_thing_id = none }

abbrev message : Message String
message = record {
  id = none;
  out = true;
  create_at = "now";
  topic = "$iothub/things/lamp/a";
  payload = "";
  opts = record { qos = 0; retain = false; properties = none };
}

push-updates_example : any (updates "lamp") (push view message server).1 ≡ true
unfolding starts_with new_delegate
push-updates_example = push-updates "lamp" view message server refl refl (λ e. cc)
