-- ===== src/Delegate/Tests.antt =====
-- The laws of delegates at small inputs.
use tio.Common.{◌≡◌, ◌↔◌, refl, true, false, [], ◌∷◌, none, some, String, arith}
use tio.Common.Dict.{Dict, get, put}
use tio.Json.{Json}
use tio.Config.{Config, get_default_form}
use tio.Client.{Codec, Payload}
use tio.Subs.{SubConfig, is_subscribed, subscribe_all, warn, convert_subs_config_sub_map}
use tio.Notify.{notify_warn}
use tio.Delegate.{Client, UserValue, one, PubOpts, Delegate, publish, View, new_delegate}
use tio.Delegate.Publish.{pub_message, clean_opts}
use tio.Delegate.Publish.Laws.{IsPublishable, pub_message_lem}
use tio.Delegate.Subscribe.{onsubmap}
use tio.Delegate.Subscribe.Laws.{subscribe_all-onsubmap}
use tio.Delegate.Events.{Event, handle, created, next}
use tio.Delegate.Events.Laws.{
  IsSound, Reach-IsSound, onmessage_received, count_ends, reconnects, reconnects_bounded,
}

abbrev texts : Codec
texts = record { Bytes = String; from = λ e s. s; to_string = λ e s. s; is_json = λ s. true }

abbrev online : Client
online = record {
  connected = true;
  connecting = false;
  reconnecting = false;
  disconnecting = false;
}

abbrev form : Config
form = record (get_default_form "localhost" "https:" "now") {
  id = "c1";
  userrole = "thing";
  username = "t1";
}

abbrev view : View
view = record { active_tool_key = "mqtt"; current_conn_id = some "c1"; current_thing_id = none }

abbrev plain_opts : PubOpts
plain_opts = record { qos = 0; retain = false; properties = none }

abbrev idle : Delegate (Payload String)
idle = record {
  id = "c1";
  role = "thing";
  thing_id = "t1";
  client = some online;
  retry_times = 2;
  subs = ("a", true) ∷ [];
  messages = [];
  unread_message_count = 0;
  received_msg_type = "Plaintext";
  token = "";
}

abbrev sub_a : SubConfig Json
sub_a = record { id = "1"; name = "a"; keep = true; topic = "a"; opts = Json.num "1" }

abbrev sub_b : SubConfig Json
sub_b = record { id = "2"; name = "b"; keep = true; topic = "b"; opts = Json.num "2" }

pub_message_lem_example :
    ((pub_message texts "a/b" none (Payload.text "hi") plain_opts idle).0 ≡ idle)
    × (((pub_message texts "a/b" none (Payload.text "hi") plain_opts idle).1
          ≡ publish "a/b" (Payload.text "hi") (clean_opts plain_opts) ∷ [])
        ↔ IsPublishable "a/b" plain_opts idle)
pub_message_lem_example = pub_message_lem texts "a/b" none (Payload.text "hi") plain_opts idle

abbrev user_values : Dict UserValue
user_values = ("k", one "") ∷ ("l", one "v") ∷ []

subscribe_all-onsubmap_example :
    subscribe_all
      (some (sub_a ∷ sub_b ∷ []))
      (onsubmap (("b", Json.num "2") ∷ []) false none idle).0.subs
    ≡ warn (notify_warn "All configured subscriptions have already been subscribed.")
unfolding subscribe_all is_subscribed convert_subs_config_sub_map get put
subscribe_all-onsubmap_example =
    subscribe_all-onsubmap (sub_a ∷ sub_b ∷ []) idle false (("b", Json.num "2") ∷ []) (sub_b ∷ [])
      refl

abbrev received : Event String
received = Event.message_event "m1" "now" "a" (Payload.bytes "hi") plain_opts

Reach-IsSound_example : IsSound form (handle texts online view received (new_delegate form)).0
Reach-IsSound_example = Reach-IsSound texts online form (next view received created)

onmessage_received_example :
    (handle texts online view received (new_delegate form)).0.messages
    ≡ record {
      id = some "m1";
      out = false;
      create_at = "now";
      topic = "a";
      payload = Payload.text "hi";
      opts = plain_opts;
    }
      ∷ []
unfolding new_delegate
onmessage_received_example =
    onmessage_received texts online form view "m1" "now" "a" "hi" plain_opts created

reconnects_bounded_example :
    ((reconnects online 3 idle).0.retry_times ≡ 3) × (count_ends (reconnects online 3 idle).1 ≡ 2)
reconnects_bounded_example = reconnects_bounded online online 3 idle refl (omega arith)
