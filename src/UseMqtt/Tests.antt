-- ===== src/UseMqtt/Tests.antt =====
-- The laws of the composable at two connections.
use tio.Common.{◌≡◌, refl, true, false, [], ◌∷◌, none, some, String}
use tio.Common.Dict.{put, get}
use tio.Json.{Json}
use tio.Config.{Config, get_default_form}
use tio.Subs.{SubConfig}
use tio.Store.{initial_state, ConnectionsCodec, store_connections}
use tio.Delegate.{View, Client}
use tio.UseMqtt.{
  create_delegates, create_delegate, delete_delegate_by_id, run_method, run_effects, World,
  merge_topics, remove_connection, remove_connections_by_client_id,
}
use tio.Client.{Codec, Payload}
use tio.Delegate.{PubOpts, new_delegate}
use tio.UseMqtt.Calls.Laws.{HasReached, subscribe-HasReached}
use tio.UseMqtt.Calls.{subscribe}
use tio.Notify.{notify_fail}
use tio.Delegate.{notify}
use tio.Delegate.Subscribe.{Topics}
use tio.UseMqtt.Life.{Life, HasBeen, writes, restored, sets_config, act, loaded, next, happens}
use tio.UseMqtt.Life.Stored.{IsLeftOrStored, act-IsLeftOrStored}
use tio.UseMqtt.Life.Laws.{Life-IsSound}
use tio.Delegate.Events.{Event, handle}
use tio.Delegate.Events.Laws.{IsSound}
use tio.UseMqtt.Remove.{without, remove_connection-listed}
use tio.UseMqtt.RemoveAll.{remove_connections_by_client_id_lem}
use tio.UseMqtt.Subscribing.{DistinctTopics, merge_topics-DistinctTopics}

abbrev online : Client
online = record {
  connected = true;
  connecting = false;
  reconnecting = false;
  disconnecting = false;
}

abbrev conn : String → String → Config
conn id client_id = record (get_default_form "localhost" "https:" "now") {
  id = id;
  client_id = client_id;
}

abbrev codec : ConnectionsCodec
codec = record { stringify = λ cs. "[..]"; parse = λ s. none }

abbrev world : World String
world = record {
  mqtt = record {
    connection_configs = conn "c1" "x" ∷ conn "c2" "y" ∷ [];
    current_conn_id = some "c2";
    delegate_shared_states = [];
    connecting = false;
    retry_times = 0;
    auto_resub = true;
  };
  storage = [];
  delegates = [];
  log = [];
}

remove_connection-listed_example :
    let w' = remove_connection codec online "c1" world in
    (w'.mqtt.connection_configs ≡ without "c1" world.mqtt.connection_configs)
    × (w'.mqtt.current_conn_id ≡ some "c2")
    × (w'.storage ≡ store_connections codec (conn "c2" "y" ∷ []) [])
    × (get "c1" w'.mqtt.delegate_shared_states ≡ none)
remove_connection-listed_example =
    remove_connection-listed codec online "c1" world (refl, (refl, tt)) refl

remove_connections_by_client_id_lem_example :
    (remove_connections_by_client_id codec online "x" world).mqtt.connection_configs
    ≡ conn "c2" "y" ∷ []
remove_connections_by_client_id_lem_example =
    remove_connections_by_client_id_lem codec online "x" world (refl, (refl, tt))

abbrev sub_to : String → SubConfig Json
sub_to topic = record { id = topic; name = topic; keep = true; topic = topic; opts = Json.num "1" }

merge_topics-DistinctTopics_example : DistinctTopics (
    merge_topics
      (λ n. "new")
      0
      (("b", Json.num "2") ∷ ("b", Json.num "0") ∷ [])
      (sub_to "b" ∷ [])
      (sub_to "a" ∷ []))
merge_topics-DistinctTopics_example =
    merge_topics-DistinctTopics (λ n. "new") 0 (("b", Json.num "2") ∷ ("b", Json.num "0") ∷ [])
      (sub_to "b" ∷ []) (sub_to "a" ∷ []) (refl, tt)

abbrev texts : Codec
texts = record { Bytes = String; from = λ e s. s; to_string = λ e s. s; is_json = λ s. true }

abbrev registered : World (Payload String)
registered = record {
  mqtt = record {
    connection_configs = conn "c1" "x" ∷ [];
    current_conn_id = none;
    delegate_shared_states = [];
    connecting = false;
    retry_times = 0;
    auto_resub = true;
  };
  storage = [];
  delegates = ("c1", record (new_delegate (conn "c1" "x")) { client = some online }) ∷ [];
  log = [];
}

abbrev opts : PubOpts
opts = record { qos = 0; retain = false; properties = none }

subscribe-HasReached_example :
    HasReached online
      (conn "c1" "x")
      world
      (notify (notify_fail "Client not connected"))
      (subscribe online (conn "c1" "x") (Topics.one "a") none world)
unfolding new_delegate get
subscribe-HasReached_example =
    subscribe-HasReached online (conn "c1" "x") world (Topics.one "a") none

abbrev page_view : View
page_view = record { active_tool_key = "mqtt"; current_conn_id = none; current_thing_id = none }

abbrev one_stored : ConnectionsCodec
one_stored = record { stringify = λ cs. "[..]"; parse = λ s. some (conn "c1" "x" ∷ []) }

abbrev changed_life : Life texts one_stored online (
    act texts one_stored online (happens "c1" page_view (Event.client_changes online)) (
      create_delegates online
        (restored texts one_stored online []).mqtt.connection_configs
        (restored texts one_stored online [])))
changed_life = next (happens "c1" page_view (Event.client_changes online)) (loaded [])

Life-IsSound_example :
    (c : Config) × (c.id ≡ "c1")
    × HasBeen texts one_stored online changed_life c
    × IsSound c
        (record (new_delegate {P = Payload String} (conn "c1" "x")) { client = some online })
unfolding initial_state act run_method create_delegates create_delegate delete_delegate_by_id handle
    run_effects get put
Life-IsSound_example =
    Life-IsSound texts one_stored online "c1"
      (record (new_delegate (conn "c1" "x")) { client = some online }) changed_life refl

-- What a component has written is stored by the next call that sets the configurations.
abbrev written_page : World (Payload String)
written_page = act texts codec online (writes (conn "c1" "w")) registered

act-IsLeftOrStored_example :
    IsLeftOrStored codec written_page
      (act texts codec online (sets_config "new" "" (conn "" "z")) written_page)
act-IsLeftOrStored_example =
    act-IsLeftOrStored texts codec online (sets_config "new" "" (conn "" "z")) written_page refl
