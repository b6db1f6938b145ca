-- ===== src/UseMqtt/Remove.antt =====
-- Removing connections (`removeConnection` and `removeConnectionsByClientId` of
-- web/src/reactives/useMqtt.js).
use tio.Common.{
  ◌≡◌, ◌∙◌, refl, ap, true, false, not, [], ◌∷◌, List, none, String, ◌==◌, filter, eq_iff, eq_refl,
  arith,
}
use tio.Common.Dict.{get, get-del}
use tio.Config.{Config}
use tio.Store.{
  ConnectionsCodec, MqttState, store_connections, update_conn_configs, delete_delegate_states,
  first_id,
}
use tio.Delegate.{Client, disconnect, destroy, Shown}
use tio.UseMqtt.{
  World, drop_last, remove_first, is_listed, splice, run_method, read_and_show, update_configs,
  select_connection, select_first, remove_connection,
}
use tio.UseMqtt.Frame.{run_method-Keeps, with_delegate-Keeps}

-- No two configurations have the same identifier.
abbrev pub DistinctIds : List Config → Type 0
DistinctIds [] = Unit
DistinctIds (c ∷ cs) = (is_listed c.id cs ≡ false) × DistinctIds cs

-- All but those with the identifier.
abbrev pub without : String → List Config → List Config
without id = filter (λ c. not (c.id == id))

without_unlisted : (id : String) (cs : List Config) → is_listed id cs ≡ false → without id cs ≡ cs
without_unlisted id [] h = refl
without_unlisted id (c ∷ cs) h = ground (arith, without_unlisted id cs)

remove_first-eq-without :
    (id : String) (cs : List Config) → DistinctIds cs → remove_first id cs ≡ without id cs
unfolding remove_first
remove_first-eq-without id [] h = refl
remove_first-eq-without id (c ∷ cs) (n, h) =
    ground (arith, eq_iff c.id id, remove_first-eq-without id cs h, without_unlisted id cs)

module _ {P : Type 0} (codec : ConnectionsCodec) (fresh : Client) (id : String) (w : World P) where
  -- What is left of the configurations.
  abbrev left : List Config
  left = splice id w.mqtt.connection_configs

  abbrev selected : World P
  selected = select_first fresh left w

  selected_lem :
      (cs : List Config)
      → ((select_first fresh cs w).mqtt.current_conn_id ≡ first_id cs)
        × ((select_first fresh cs w).storage ≡ w.storage)
  unfolding select_connection
  selected_lem [] = (refl, refl)
  selected_lem (c ∷ cs) = (refl, (with_delegate-Keeps fresh c read_and_show w).2)

  destroy-mqtt : (u : World P) → (run_method id (destroy fresh) u).mqtt ≡ u.mqtt
  unfolding run_method disconnect
  destroy-mqtt u = ground arith

  -- The state before the delegate is destroyed.
  abbrev before : World P
  before =
      let u = update_configs codec left selected in
      record u { mqtt = delete_delegate_states id u.mqtt }

  before_lem :
      (before.mqtt.connection_configs ≡ left)
      × (before.mqtt.current_conn_id ≡ first_id left)
      × (before.storage ≡ store_connections codec left w.storage)
      × (get id before.mqtt.delegate_shared_states ≡ none)
  unfolding update_configs update_conn_configs delete_delegate_states
  before_lem =
      let (current, storage) = selected_lem left in
      (
        refl,
        current,
        ap (store_connections codec left) storage,
        get-del id id selected.mqtt.delegate_shared_states ∙ ground (arith, eq_refl id),
      )

  pub removed_lem :
      ((remove_connection codec fresh id w).mqtt.connection_configs ≡ left)
      × ((remove_connection codec fresh id w).mqtt.current_conn_id ≡ first_id left)
      × ((remove_connection codec fresh id w).storage ≡ store_connections codec left w.storage)
      × (get id (remove_connection codec fresh id w).mqtt.delegate_shared_states ≡ none)
  unfolding remove_connection
  removed_lem =
      let m = destroy-mqtt before in
      let (configs, current, storage, shared) = before_lem in
      (
        ap (λ (q : MqttState (Shown P)). q.connection_configs) m ∙ configs,
        ap (λ (q : MqttState (Shown P)). q.current_conn_id) m ∙ current,
        (run_method-Keeps id (destroy fresh) before).2 ∙ storage,
        ap (λ (q : MqttState (Shown P)). get id q.delegate_shared_states) m ∙ shared,
      )

  -- Removing a listed connection, where no two have the same identifier: exactly its configuration goes,
  -- the first of those left becomes the current one (or none does), the browser's storage holds those
  -- left, and the store shows nothing of the connection.
  pub remove_connection-listed :
      DistinctIds w.mqtt.connection_configs
      → is_listed id w.mqtt.connection_configs ≡ true
      → let cs = without id w.mqtt.connection_configs in
        let w' = remove_connection codec fresh id w in
        (w'.mqtt.connection_configs ≡ cs)
        × (w'.mqtt.current_conn_id ≡ first_id cs)
        × (w'.storage ≡ store_connections codec cs w.storage)
        × (get id w'.mqtt.delegate_shared_states ≡ none)
  unfolding splice
  remove_connection-listed h listed =
      let e : left ≡ without id w.mqtt.connection_configs =
        rw listed (remove_first-eq-without id w.mqtt.connection_configs h) in
      let (configs, current, storage, shared) = removed_lem in
      (
        configs ∙ e,
        current ∙ ap first_id e,
        storage ∙ ap (λ cs. store_connections codec cs w.storage) e,
        shared,
      )

  -- Removing an identifier that no configuration has drops the last configuration.
  pub remove_connection-unlisted :
      is_listed id w.mqtt.connection_configs ≡ false
      → (remove_connection codec fresh id w).mqtt.connection_configs
        ≡ drop_last w.mqtt.connection_configs
  unfolding splice
  remove_connection-unlisted h = removed_lem.0 ∙ rw h refl
