-- ===== src/PubTopics/Tests.antt =====
-- The tables are those that the subscription lists hold.
use tio.Common.{◌≡◌, refl, map, All, true, false, none, some, String}
use tio.Config.{get_default_form}
use tio.Client.{Codec, Payload}
use tio.Delegate.{Client, PubOpts, Delegate, new_delegate}
use tio.PubTopics.Laws.{IsRefused, handle_select-pub_message}
use tio.Subs.{topics, init}
use tio.PubTopics.{thing_pub_topics, server_pub_topics, suggestions, handle_select}

same_for_things : map (λ t. t.suggestion) thing_pub_topics ≡ topics.thing_pub
unfolding init
same_for_things = refl

same_for_servers : map (λ t. t.suggestion) server_pub_topics ≡ topics.server_pub
unfolding init
same_for_servers = refl

abbrev texts : Codec
texts = record { Bytes = String; from = λ e s. s; to_string = λ e s. s; is_json = λ s. true }

abbrev online : Client
online = record {
  connected = true;
  connecting = false;
  reconnecting = false;
  disconnecting = false;
}

abbrev plain_opts : PubOpts
plain_opts = record { qos = 0; retain = false; properties = none }

abbrev idle : Delegate (Payload String)
idle = record (new_delegate (get_default_form "localhost" "https:" "now")) { client = some online }

handle_select-pub_message_example :
    All
      (λ t.
        IsRefused texts plain_opts
          (Payload.text "hi")
          idle
          (handle_select 2 "client" none t).topic
          t)
      (suggestions none)
unfolding new_delegate
handle_select-pub_message_example =
    handle_select-pub_message texts plain_opts (Payload.text "hi") idle 2 "client" none refl refl
