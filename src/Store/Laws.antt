-- ===== src/Store/Laws.antt =====
-- What a reload of the page finds in the browser's storage (web/src/store/mqtt.ts).
use tio.Common.{
  ◌≡◌, ◌∙◌, refl, ap, ◌≢◌, false, [], ◌∷◌, List, none, some, String, ◌==◌, any, if◌then◌else◌,
  eq_iff, eq_refl, arith,
}
use tio.Common.Dict.{Dict, get, put, get-put}
use tio.Config.{Config}
use tio.Store.{
  Storage, ConnectionsCodec, connections_key, store_connections, restore_connections, Shared,
  MqttState, not_connected, initial_shared, first_id, initial_state, update_conn_configs,
}

pub restore-store :
    (codec : ConnectionsCodec) (cs : List Config) (s : Storage)
    → codec.parse (codec.stringify cs) ≡ some cs
    → codec.stringify cs ≢ ""
    → restore_connections codec (store_connections codec cs s) ≡ cs
restore-store codec cs s back ne = ground (
  arith,
  get-put connections_key connections_key (codec.stringify cs) s,
  eq_refl connections_key,
  eq_iff (codec.stringify cs) "",
)

module _ {ℓ} {A : Type ℓ} where
  get-initial_shared :
      (cs : List Config) (m : Dict (Shared A)) (id : String)
      → get id (initial_shared m cs)
        ≡ (if any (λ c. c.id == id) cs then some (not_connected id) else get id m)
  unfolding initial_shared
  get-initial_shared [] m id = refl
  get-initial_shared (c ∷ cs) m id = ground (
    arith,
    get-initial_shared cs (put c.id (not_connected c.id) m) id,
    get-put c.id id (not_connected {A = A} c.id) m,
    eq_iff c.id id,
  )

  -- After the configurations have been set and the page is loaded again, the store holds the same
  -- configurations, the first of them is the current one, and exactly the configured connections are
  -- shown, none of them connected: provided that the codec gives these configurations back, and not
  -- the empty text for them.
  pub initial_state-update_conn_configs :
      (codec : ConnectionsCodec) (cs : List Config) (st : MqttState A) (s : Storage)
      → codec.parse (codec.stringify cs) ≡ some cs
      → codec.stringify cs ≢ ""
      → let loaded = initial_state {A = A} codec (update_conn_configs codec cs st s).1 in
        (loaded.connection_configs ≡ cs)
        × (loaded.current_conn_id ≡ first_id cs)
        × (loaded.connecting ≡ false)
        × ((id : String)
            → get id loaded.delegate_shared_states
              ≡ (if any (λ c. c.id == id) cs then some (not_connected id) else none))
  unfolding initial_state update_conn_configs get
  initial_state-update_conn_configs codec cs st s back ne =
      let e = restore-store codec cs s back ne in
      (
        e,
        ap first_id e,
        refl,
        λ id. ap (λ l. get id (initial_shared {A = A} [] l)) e ∙ get-initial_shared cs [] id,
      )
