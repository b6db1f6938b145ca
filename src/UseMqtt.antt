-- ===== src/UseMqtt.antt =====
-- The composable `useMqtt` (web/src/reactives/useMqtt.js) and the registry of delegates at the end of
-- web/src/utils/MqttDelegate.js, over the state of the whole: the store's module, the browser's
-- storage, the registered delegates, and the effects that go to the library or to the screen, in
-- their order.
pub mod Configs
pub mod Frame
pub mod Remove
pub mod RemoveAll
pub mod Subscribing
pub mod Calls
pub mod Life
mod Tests
unfoldable pub use Configs.*
use tio.Common.{
  ℕ, suc, Bool, true, false, not, [], ◌∷◌, ◌++◌, List, Option, none, some, String, ◌==◌, filter,
  find, or_else, if◌then◌else◌,
}
use tio.Common.Dict.{Dict, get, put, del, keys}
use tio.Json.{Json}
use tio.Config.{Config, PushProps}
use tio.Subs.{SubConfig}
use tio.Store.{
  Storage, ConnectionsCodec, Shared, MqttState, update_conn_configs, update_delegate_states,
  delete_delegate_states,
}
use tio.Delegate.{
  Client, Shown, Delegate, Effect, update_states, set_connecting, delete_delegate, View, Step,
  new_delegate, cancel, connect as connect_client, destroy, clear, read, update_store,
  remove_topic as remove_topic_of,
}

pub record World (P : Type 0) : Type 0 where
  pub mqtt : MqttState (Shown P)
  pub storage : Storage
  pub delegates : Dict (Delegate P)
  pub log : List (Effect P)

module _ {P : Type 0} where
  -- An effect on the store or the registry takes place; any other is recorded.
  unfoldable pub run_effect : Effect P → World P → World P
  run_effect (update_states id none) w = record w {
    mqtt = update_delegate_states (record { id = id; connected = false; shown = none }) w.mqtt;
  }
  run_effect (update_states id (some s)) w = record w {
    mqtt =
        update_delegate_states (record { id = id; connected = s.client.connected; shown = some s })
          w.mqtt;
  }
  run_effect (set_connecting n) w = record w {
    mqtt = record w.mqtt { connecting = true; retry_times = n };
  }
  run_effect (delete_delegate id) w = record w { delegates = del id w.delegates }
  run_effect e w = record w { log = w.log ++ e ∷ [] }

  unfoldable pub run_effects : List (Effect P) → World P → World P
  unfolding run_effect
  run_effects [] w = w
  run_effects (e ∷ es) w = run_effects es (run_effect e w)

  abbrev pub view : (tool : String) (thing : Option String) → World P → View
  view tool thing w = record {
    active_tool_key = tool;
    current_conn_id = w.mqtt.current_conn_id;
    current_thing_id = thing;
  }

  -- A method of the delegate registered under an identifier.
  unfoldable pub run_method : String → (Delegate P → Step P) → World P → World P
  unfolding run_effects
  run_method id method w = elim (get id w.delegates) [
    | none ↦ w
    | some d ↦
        let (d', effects) = method d in
        run_effects effects (record w { delegates = put id d' w.delegates })
  ]

  abbrev pub get_conn_config : String → World P → Option Config
  get_conn_config id w = find (has_id id) w.mqtt.connection_configs

  abbrev pub get_conn_configs_by_client_id : String → World P → List Config
  get_conn_configs_by_client_id client_id w =
      filter (λ c. c.client_id == client_id) w.mqtt.connection_configs

  abbrev pub set_current : Option String → World P → World P
  set_current id w = record w { mqtt = record w.mqtt { current_conn_id = id } }

  -- `delegate.read()` and `delegate.updateStore()`.
  abbrev pub read_and_show : Delegate P → Step P
  read_and_show d = let d' = read d in (d', update_store d' ∷ [])

module _ {P : Type 0} (codec : ConnectionsCodec) where
  unfoldable pub update_configs : List Config → World P → World P
  update_configs configs w =
      let (mqtt, storage) = update_conn_configs codec configs w.mqtt w.storage in
      record w { mqtt = mqtt; storage = storage }

module _ {P : Type 0} (fresh : Client) where
  -- MqttDelegate.js: the registry.
  unfoldable pub delete_delegate_by_id : String → World P → World P
  unfolding run_method
  delete_delegate_by_id id w = elim (get id w.delegates) [
    | none ↦ w
    | some d ↦
        let w' = run_method id (destroy fresh) w in record w' { delegates = del id w'.delegates }
  ]

  unfoldable pub create_delegate : Config → World P → World P
  unfolding delete_delegate_by_id
  create_delegate config w =
      let w' = delete_delegate_by_id config.id w in
      record w' { delegates = put config.id (new_delegate config) w'.delegates }

  -- `getDelegateById(config.id, config)`: afterwards the delegate is registered.
  unfoldable pub ensure_delegate : Config → World P → World P
  unfolding create_delegate
  ensure_delegate config w = elim (get config.id w.delegates) [
    | some d ↦ w
    | none ↦ create_delegate config w
  ]

  -- What the module does when it is loaded, for the configurations of the store.
  unfoldable pub create_delegates : List Config → World P → World P
  unfolding create_delegate
  create_delegates [] w = w
  create_delegates (c ∷ cs) w = create_delegates cs (create_delegate c w)

  unfoldable pub with_delegate : Config → (Delegate P → Step P) → World P → World P
  unfolding ensure_delegate
  with_delegate config method w = run_method config.id method (ensure_delegate config w)

  unfoldable pub disconn : Config → World P → World P
  unfolding with_delegate
  disconn config w = if w.mqtt.connecting then w else with_delegate config (cancel fresh) w

  unfoldable pub connect : Config → (token : String) → World P → World P
  unfolding with_delegate
  connect config token w =
      if w.mqtt.connecting then w else with_delegate config (connect_client fresh config token) w

  unfoldable pub select_connection : Config → World P → World P
  unfolding with_delegate
  select_connection config w = set_current (some config.id) (with_delegate config read_and_show w)

  abbrev pub select_first : List Config → World P → World P
  select_first [] w = set_current none w
  select_first (c ∷ cs) w = select_connection c w

  unfoldable pub clear_messages :
      (tool : String) (thing : Option String) → Config → World P → World P
  unfolding with_delegate
  clear_messages tool thing config w = with_delegate config (clear (view tool thing w)) w

  unfoldable pub remove_topic :
      (tool : String) (thing : Option String) → Config → (topic : String) → World P → World P
  unfolding run_method
  remove_topic tool thing config topic w =
      run_method config.id (remove_topic_of (view tool thing w) topic) w

module _ {P : Type 0} (codec : ConnectionsCodec) (fresh : Client) where
  -- `new_id` is the identifier that a configuration without one gets.
  unfoldable pub set_conn_config : (new_id id : String) → Config → World P → World P × Config
  unfolding update_configs disconn replace_config
  set_conn_config new_id id config w =
      if id == ""
      then (
        update_configs codec (w.mqtt.connection_configs ++ record config { id = new_id } ∷ [])
            (disconn fresh (record config { id = new_id }) w),
        record config { id = new_id },
      )
      else (update_configs codec (replace_config id config w.mqtt.connection_configs) w, config)

  unfoldable pub remove_connection : String → World P → World P
  unfolding splice update_configs select_connection
  remove_connection id w =
      let configs = splice id w.mqtt.connection_configs in
      let w₁ = update_configs codec configs (select_first fresh configs w) in
      let w₂ = record w₁ { mqtt = delete_delegate_states id w₁.mqtt } in
      run_method id (destroy fresh) w₂

  unfoldable pub remove_all : List Config → World P → World P
  unfolding remove_connection
  remove_all [] w = w
  remove_all (c ∷ cs) w = remove_all cs (remove_connection c.id w)

  unfoldable pub remove_connections_by_client_id : String → World P → World P
  unfolding remove_all
  remove_connections_by_client_id client_id w =
      remove_all (get_conn_configs_by_client_id client_id w) w

  -- What `publish` does once the message is sent.
  unfoldable pub published_config : (new_id : String) → PushProps → Config → World P → World P
  unfolding set_conn_config
  published_config new_id props config w =
      (set_conn_config new_id config.id (record config { push_props = some props }) w).0

  -- What `subscribe` does once the client has subscribed to the topics.
  unfoldable pub subscribed_config :
      (new_id : String) (fresh_id : ℕ → String)
      → Dict Json
      → List (SubConfig Json)
      → Config
      → World P
      → World P
  unfolding set_conn_config merge_topics
  subscribed_config new_id fresh_id topics configs config w =
      let subs = merge_topics fresh_id 0 topics configs (or_else config.subscriptions []) in
      (set_conn_config new_id config.id (record config { subscriptions = some subs }) w).0
