-- ===== src/UseMqtt/Life/Stored.antt =====
-- That calls store the connections of the store (web/src/reactives/useMqtt.js,
-- web/src/store/mqtt.ts).
use tio.Common.{
  ◌≡◌, arith, eq_refl, ◌⊎◌, ◌∙◌, refl, sym, ap, Bool, true, false, [], ◌∷◌, ◌++◌, List, some,
  or_else, String, ◌==◌, if◌then◌else◌, Bool-cases, inl, inr,
}
use tio.Common.Dict.{get, get-put}
use tio.Config.{Config}
use tio.Client.{Codec, Payload}
use tio.Store.{connections_key, ConnectionsCodec, update_conn_configs, delete_delegate_states}
use tio.Delegate.Publish.{pub_message}
use tio.Delegate.Subscribe.{sub, unsub}
use tio.Delegate.Events.{handle}
use tio.Delegate.{
  clear, remove_topic as remove_topic_of, Client, Delegate, Step, cancel, destroy,
  connect as connect_client,
}
use tio.UseMqtt.{
  World, merge_topics, with_delegate, disconn, connect, select_connection, select_first,
  clear_messages, remove_topic, set_conn_config, remove_connection, remove_all,
  remove_connections_by_client_id, published_config, subscribed_config, update_configs, splice,
  replace_config, run_method, view, get_conn_configs_by_client_id, read_and_show,
}
use tio.UseMqtt.Frame.{Keeps, with_delegate-Keeps, run_method-Keeps}
use tio.UseMqtt.Calls.{publish, subscribe, unsubscribe, opts_for}
use tio.UseMqtt.Life.{
  Action, disconns, selects, connects, clears, removes_topic, sets_config, removes, removes_client,
  publishes, published, subscribes, subscribed, unsubscribes, writes, happens, act,
}

-- The text in the browser's storage is the one that is printed from the store's connections.
abbrev pub IsStored : {P : Type 0} → ConnectionsCodec → World P → Type 0
IsStored stored w =
    get connections_key w.storage ≡ some (stored.stringify w.mqtt.connection_configs)

-- What becomes of the connections and the storage: both are left alone, or the storage has the
-- connections that the store has then.
abbrev pub IsLeftOrStored : {P : Type 0} → ConnectionsCodec → World P → World P → Type 0
IsLeftOrStored stored w w' =
    ((w'.mqtt.connection_configs ≡ w.mqtt.connection_configs) × (w'.storage ≡ w.storage))
    ⊎ IsStored stored w'

module _ {P : Type 0} (stored : ConnectionsCodec) (fresh : Client) where
  Keeps-IsLeftOrStored : (w w' : World P) → Keeps w w' → IsLeftOrStored stored w w'
  Keeps-IsLeftOrStored w w' (configs, _, storage) = inl (configs, storage)

  Keeps-IsStored : (w w' : World P) → Keeps w w' → IsStored stored w → IsStored stored w'
  Keeps-IsStored w w' (configs, _, storage) h =
      ap (get connections_key) storage ∙ h ∙ ap (λ cs. some (stored.stringify cs)) (sym configs)

  update_configs-IsStored :
      (cs : List Config) (w : World P) → IsStored stored (update_configs stored cs w)
  unfolding update_configs update_conn_configs
  update_configs-IsStored cs w = ground (
    arith,
    get-put connections_key connections_key (stored.stringify cs) w.storage,
    eq_refl connections_key,
  )

  method-IsLeftOrStored :
      (c : Config) (method : Delegate P → Step P) (w : World P)
      → IsLeftOrStored stored w (with_delegate fresh c method w)
  method-IsLeftOrStored c method w =
      Keeps-IsLeftOrStored w (with_delegate fresh c method w) (with_delegate-Keeps fresh c method w)

  run-IsLeftOrStored :
      (id : String) (method : Delegate P → Step P) (w : World P)
      → IsLeftOrStored stored w (run_method id method w)
  run-IsLeftOrStored id method w =
      Keeps-IsLeftOrStored w (run_method id method w) (run_method-Keeps id method w)

  either-IsLeftOrStored :
      (b : Bool) (u v w : World P)
      → IsLeftOrStored stored u v
      → IsLeftOrStored stored u w
      → IsLeftOrStored stored u (if b then v else w)
  either-IsLeftOrStored true u v w h h' = h
  either-IsLeftOrStored false u v w h h' = h'

  set_conn_config-IsStored :
      (new_id id : String) (c : Config) (w : World P)
      → IsStored stored (set_conn_config stored fresh new_id id c w).0
  unfolding set_conn_config
  set_conn_config-IsStored new_id id c w = elim (Bool-cases (id == "")) [
    | inl e ↦
        rw (set_conn_config, e)
          (update_configs-IsStored (w.mqtt.connection_configs ++ record c { id = new_id } ∷ [])
            (disconn fresh (record c { id = new_id }) w))
    | inr e ↦
        rw (set_conn_config, e)
          (update_configs-IsStored (replace_config id c w.mqtt.connection_configs) w)
  ]

  remove_connection-IsStored :
      (id : String) (w : World P) → IsStored stored (remove_connection stored fresh id w)
  unfolding remove_connection delete_delegate_states
  remove_connection-IsStored id w =
      let configs = splice id w.mqtt.connection_configs in
      let w₁ = update_configs stored configs (select_first fresh configs w) in
      let w₂ : World P = record w₁ { mqtt = delete_delegate_states id w₁.mqtt } in
      Keeps-IsStored w₂ (run_method id (destroy fresh) w₂) (run_method-Keeps id (destroy fresh) w₂)
        (update_configs-IsStored configs (select_first fresh configs w))

  remove_all-IsStored :
      (cs : List Config) (w : World P)
      → IsStored stored w
      → IsStored stored (remove_all stored fresh cs w)
  unfolding remove_all
  remove_all-IsStored [] w h = h
  remove_all-IsStored (c ∷ cs) w h =
      remove_all-IsStored cs (remove_connection stored fresh c.id w)
        (remove_connection-IsStored c.id w)

  remove_all-IsLeftOrStored :
      (cs : List Config) (w : World P) → IsLeftOrStored stored w (remove_all stored fresh cs w)
  unfolding remove_all
  remove_all-IsLeftOrStored [] w = inl (refl, refl)
  remove_all-IsLeftOrStored (c ∷ cs) w = inr (
      remove_all-IsStored cs (remove_connection stored fresh c.id w)
        (remove_connection-IsStored c.id w))

-- A call of the composable, or what happens to a delegate; not what a component writes by itself.
abbrev pub is_call : {B : Type 0} → Action B → Bool
is_call (writes c) = false
is_call _ = true

module _ (codec : Codec) (stored : ConnectionsCodec) (fresh : Client) where
  -- In whatever state the page is, whatever components have written into the store's configurations by
  -- themselves: a call of the composable, or what happens to a delegate, leaves the configurations and
  -- the browser's storage alone, or leaves in the storage the text that is printed from all the
  -- configurations that the store has then. Only what a component writes by itself is not stored.
  pub act-IsLeftOrStored :
      (a : Action codec.Bytes) (w : World (Payload codec.Bytes))
      → is_call a ≡ true
      → IsLeftOrStored stored w (act codec stored fresh a w)
  unfolding act clear_messages remove_topic remove_connections_by_client_id published_config
      subscribed_config publish subscribe unsubscribe disconn connect select_connection
  act-IsLeftOrStored (disconns c) w e =
      either-IsLeftOrStored stored fresh w.mqtt.connecting w w
        (with_delegate fresh c (cancel fresh) w) (inl (refl, refl))
        (method-IsLeftOrStored stored fresh c (cancel fresh) w)
  act-IsLeftOrStored (selects c) w e = method-IsLeftOrStored stored fresh c read_and_show w
  act-IsLeftOrStored (connects c token) w e =
      either-IsLeftOrStored stored fresh w.mqtt.connecting w w
        (with_delegate fresh c (connect_client fresh c token) w) (inl (refl, refl))
        (method-IsLeftOrStored stored fresh c (connect_client fresh c token) w)
  act-IsLeftOrStored (clears tool thing c) w e =
      method-IsLeftOrStored stored fresh c (clear (view tool thing w)) w
  act-IsLeftOrStored (removes_topic tool thing c topic) w e =
      run-IsLeftOrStored stored fresh c.id (remove_topic_of (view tool thing w) topic) w
  act-IsLeftOrStored (sets_config new_id id c) w e =
      inr (set_conn_config-IsStored stored fresh new_id id c w)
  act-IsLeftOrStored (removes id) w e = inr (remove_connection-IsStored stored fresh id w)
  act-IsLeftOrStored (removes_client client_id) w e =
      remove_all-IsLeftOrStored stored fresh (get_conn_configs_by_client_id client_id w) w
  act-IsLeftOrStored (publishes c topic paytype payload opts) w e =
      method-IsLeftOrStored stored fresh c (pub_message codec topic paytype payload opts) w
  act-IsLeftOrStored (published new_id props c) w e =
      inr
        (set_conn_config-IsStored stored fresh new_id c.id (record c { push_props = some props }) w)
  act-IsLeftOrStored (subscribes c topics opts) w e =
      method-IsLeftOrStored stored fresh c (sub topics (opts_for topics opts)) w
  act-IsLeftOrStored (subscribed new_id fresh_id topics configs c) w e = inr (
      set_conn_config-IsStored stored fresh new_id c.id
        (record c {
          subscriptions =
              some (merge_topics fresh_id 0 topics configs (or_else c.subscriptions []));
        })
        w)
  act-IsLeftOrStored (unsubscribes c []) w e = inl (refl, refl)
  act-IsLeftOrStored (unsubscribes c (t ∷ topics)) w e =
      method-IsLeftOrStored stored fresh c (unsub (t ∷ topics)) w
  act-IsLeftOrStored (writes c) w e = cc
  act-IsLeftOrStored (happens id v e') w e =
      run-IsLeftOrStored stored fresh id (handle codec fresh v e') w
