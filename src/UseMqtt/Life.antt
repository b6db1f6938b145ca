-- ===== src/UseMqtt/Life.antt =====
-- The life of the page's connections: every call of the composable (web/src/reactives/useMqtt.js) and
-- everything that happens to a registered delegate (web/src/utils/MqttDelegate.js), in whatever order
-- they come, from the load of the page.
pub mod Registry
pub mod Stored
pub mod Laws
use mathlib.Core.List.{Memᴰ}
use tio.Common.{ℕ, ◌≡◌, ◌⊎◌, [], List, Option, some, or_else, String}
use tio.Common.Dict.{Dict}
use tio.Json.{Json}
use tio.Config.{Config, PushProps}
use tio.Subs.{SubConfig}
use tio.Client.{Codec, Payload}
use tio.Store.{Storage, ConnectionsCodec, initial_state}
use tio.Delegate.{Client, Shown, PubOpts, View}
use tio.Delegate.Subscribe.{Topics}
use tio.Delegate.Events.{Event, handle}
use tio.UseMqtt.{
  World, run_method, create_delegates, disconn, connect, select_connection, clear_messages,
  remove_topic, set_conn_config, remove_connection, remove_connections_by_client_id,
  published_config, subscribed_config, replace_config, merge_topics,
}
use tio.UseMqtt.Calls.{publish, subscribe, unsubscribe}

pub data Action (B : Type 0) : Type 0 where
  disconns selects : Config → Action B
  connects : Config → (token : String) → Action B
  clears : (tool : String) (thing : Option String) → Config → Action B
  removes_topic : (tool : String) (thing : Option String) → Config → (topic : String) → Action B
  sets_config : (new_id id : String) → Config → Action B
  removes removes_client : String → Action B
  publishes : Config → (topic : String) (paytype : Option String) → Payload B → PubOpts → Action B
  published : (new_id : String) → PushProps → Config → Action B
  subscribes : Config → Topics → Option Json → Action B
  subscribed :
      (new_id : String) (fresh_id : ℕ → String)
      → Dict Json
      → List (SubConfig Json)
      → Config
      → Action B
  unsubscribes : Config → List String → Action B
  -- A component writes into a configuration that the store has, and hands it to no function.
  writes : Config → Action B
  -- a method or an answer of the client, at the delegate with this identifier
  happens : (id : String) → View → Event B → Action B

module _ (codec : Codec) (stored : ConnectionsCodec) (fresh : Client) where
  unfoldable pub act :
      Action codec.Bytes → World (Payload codec.Bytes) → World (Payload codec.Bytes)
  act (disconns c) w = disconn fresh c w
  act (selects c) w = select_connection fresh c w
  act (connects c token) w = connect fresh c token w
  act (clears tool thing c) w = clear_messages fresh tool thing c w
  act (removes_topic tool thing c topic) w = remove_topic fresh tool thing c topic w
  act (sets_config new_id id c) w = (set_conn_config stored fresh new_id id c w).0
  act (removes id) w = remove_connection stored fresh id w
  act (removes_client client_id) w = remove_connections_by_client_id stored fresh client_id w
  act (publishes c topic paytype payload opts) w =
      publish codec fresh c topic paytype payload opts w
  act (published new_id props c) w = published_config stored fresh new_id props c w
  act (subscribes c topics opts) w = subscribe fresh c topics opts w
  act (subscribed new_id fresh_id topics configs c) w =
      subscribed_config stored fresh new_id fresh_id topics configs c w
  act (unsubscribes c topics) w = unsubscribe fresh c topics w
  act (writes c) w = record w {
    mqtt = record w.mqtt { connection_configs = replace_config c.id c w.mqtt.connection_configs };
  }
  act (happens id v e) w = run_method id (handle codec fresh v e) w

  -- The page with the store that it restores from the browser's storage.
  abbrev pub restored : Storage → World (Payload codec.Bytes)
  restored storage = record {
    mqtt = initial_state stored storage;
    storage = storage;
    delegates = [];
    log = [];
  }

  -- A configuration that a call may make a delegate for: the one that it is handed, with the new
  -- identifier where it has none.
  abbrev pub IsHanded : Action codec.Bytes → Config → Type 0
  IsHanded (disconns c) k = k ≡ c
  IsHanded (selects c) k = k ≡ c
  IsHanded (connects c token) k = k ≡ c
  IsHanded (clears tool thing c) k = k ≡ c
  IsHanded (sets_config new_id id c) k = k ≡ record c { id = new_id }
  IsHanded (publishes c topic paytype payload opts) k = k ≡ c
  IsHanded (published new_id props c) k = k ≡ record c { push_props = some props; id = new_id }
  IsHanded (subscribes c topics opts) k = k ≡ c
  IsHanded (subscribed new_id fresh_id topics configs c) k = k ≡ record c {
    subscriptions = some (merge_topics fresh_id 0 topics configs (or_else c.subscriptions []));
    id = new_id;
  }
  IsHanded (unsubscribes c topics) k = k ≡ c
  IsHanded _ k = ⊥

  pub data Life : World (Payload codec.Bytes) → Type 0 where
    loaded :
        (storage : Storage)
        → Life
            (create_delegates fresh (restored storage).mqtt.connection_configs (restored storage))
    next : {w : World (Payload codec.Bytes)} (a : Action codec.Bytes) → Life w → Life (act a w)

  -- A configuration that has been there: in the store when the page was loaded or when something
  -- happened, or handed to a call.
  abbrev pub HasBeen : {w : World (Payload codec.Bytes)} → Life w → Config → Type 0
  HasBeen (loaded storage) c = Memᴰ c (restored storage).mqtt.connection_configs
  HasBeen (next {w} a l) c = Memᴰ c w.mqtt.connection_configs ⊎ (IsHanded a c ⊎ HasBeen l c)
