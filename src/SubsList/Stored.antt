-- ===== src/SubsList/Stored.antt =====
-- What the list of subscriptions (web/src/components/mqtt/Subcriptions.vue) leaves in the store and in
-- the browser's storage.
use tio.Common.{
  ◌≡◌, ◌≢◌, refl, ap, ◌∙◌, Bool, true, false, ◌&&◌, List, [], ◌∷◌, Option, none, some, String, ◌==◌,
  not, filter, find, any, if◌then◌else◌, eq_iff, arith,
}
use tio.Json.{Json}
use tio.Config.{Config}
use tio.Subs.{SubConfig}
use tio.Store.{ConnectionsCodec, store_connections}
use tio.Delegate.{Client}
use tio.UseMqtt.{World, has_id, replace_config, is_listed, get_conn_config, set_conn_config}
use tio.UseMqtt.Frame.{Keeps, with_delegate-Keeps}
use tio.UseMqtt.Calls.{selected_conn, unsubscribe}
use tio.UseMqtt.Subscribing.{find-replace_config, set_conn_config-known}
use tio.SubsList.Laws.{DistinctIds, remove_sub-filter}
use tio.SubsList.{Row, State, has_sub_id, is_id, form_id, without_sub}
use tio.SubsList.Actions.{
  conn_config, unsubscribe_from, client_connected, hide_form, hide_form_of, show_subs, show_rows,
  update_subscriptions, before_delete, delete_from, delete_with, delete_of, handle_delete, written,
}

find-is_listed :
    (id : String) (c : Config) (cs : List Config)
    → find (has_id id) cs ≡ some c
    → (is_listed id cs ≡ true) × (c.id ≡ id)
find-is_listed id c [] h = cc
find-is_listed id c (d ∷ cs) h = ground (arith, find-is_listed id c cs, eq_iff d.id id)

is_listed-replace_config :
    (id : String) (c : Config) (cs : List Config)
    → c.id ≡ id
    → is_listed id (replace_config id c cs) ≡ is_listed id cs
unfolding replace_config
is_listed-replace_config id c [] e = refl
is_listed-replace_config id c (d ∷ cs) e =
    ground (arith, is_listed-replace_config id c cs e, eq_iff c.id id)

module _ {P : Type 0} where
  show_subs-world :
      (o : Option (List (SubConfig Json))) (st : State P) → (show_subs o st).world ≡ st.world
  show_subs-world none st = refl
  show_subs-world (some subs) st = refl

  show_rows-world : (o : Option Config) (st : State P) → (show_rows o st).world ≡ st.world
  show_rows-world none st = refl
  show_rows-world (some c) st = show_subs-world c.subscriptions st

  update_subscriptions-world : (st : State P) → (update_subscriptions st).world ≡ st.world
  unfolding update_subscriptions
  update_subscriptions-world st = show_rows-world (conn_config st.world) st

  if-Keeps :
      (b : Bool) (w : World P) (x y : State P)
      → Keeps w x.world
      → Keeps w y.world
      → Keeps w (if b then x else y).world
  if-Keeps true w x y h k = h
  if-Keeps false w x y h k = k

  hide_form_of-Keeps : (id : String) (st : State P) → Keeps st.world (hide_form_of id st).world
  hide_form_of-Keeps id st =
      if-Keeps (is_id id (form_id st.form)) st.world (hide_form st) st (refl, refl, refl)
        (refl, refl, refl)

  -- The configuration that is shown is listed under its identifier, which is not empty.
  pub conn_config-listed :
      (w : World P) (c : Config)
      → conn_config w ≡ some c
      → (is_listed c.id w.mqtt.connection_configs ≡ true)
        × (c.id ≢ "")
        × (get_conn_config c.id w ≡ some c)
  unfolding selected_conn
  conn_config-listed w c h =
      (elim w.mqtt.current_conn_id
          as (λ current.
            conn_config (record w { mqtt = record w.mqtt { current_conn_id = current } }) ≡ some c
            → (is_listed c.id w.mqtt.connection_configs ≡ true)
              × (c.id ≢ "")
              × (get_conn_config c.id w ≡ some c)) [
                | none ↦ λ e. cc
                | some id ↦
                    λ e. ground (arith, find-is_listed id c w.mqtt.connection_configs, eq_iff id "")
              ])
        h

  module _ (fresh : Client) where
    unsubscribe_from-Keeps :
        (c : Config) (topic : String) (w : World P)
        → Keeps w (unsubscribe_from fresh (some c) topic w)
    unfolding unsubscribe
    unsubscribe_from-Keeps c topic w = with_delegate-Keeps fresh c _ w

    before_delete-Keeps :
        (row : Row) (config : Config) (st : State P)
        → Keeps st.world (before_delete fresh row (some config) st).world
    unfolding before_delete
    before_delete-Keeps row config st =
        if-Keeps (client_connected st.world && row.subscribed) st.world _ _
          (unsubscribe_from-Keeps config row.sub.topic st.world) (hide_form_of-Keeps row.sub.id st)

    -- A configuration that is written into the store and then set.
    written-set :
        (codec : ConnectionsCodec) (new_id : String) (c : Config) (w : World P)
        → is_listed c.id w.mqtt.connection_configs ≡ true
        → c.id ≢ ""
        → let w' = (set_conn_config codec fresh new_id c.id c (written c w)).0 in
          ((j : String)
            → get_conn_config j w' ≡ (if c.id == j then some c else get_conn_config j w))
          × (w'.storage ≡ store_connections codec w'.mqtt.connection_configs w.storage)
    written-set codec new_id c w l n =
        let known = set_conn_config-known codec fresh new_id c (written c w) c.id n refl in
        let listed = is_listed-replace_config c.id c w.mqtt.connection_configs refl ∙ l in
        (
          λ j.
              known.0 j
              ∙ ground (arith, listed, find-replace_config c.id j c w.mqtt.connection_configs refl),
          known.1,
        )

    module _ (codec : ConnectionsCodec) (new_id : String) (row : Row) (config : Config)
        (subs : List (SubConfig Json)) where
      delete_from-config :
          (st : State P)
          → any (has_sub_id row.sub.id) subs ≡ true
          → is_listed config.id st.world.mqtt.connection_configs ≡ true
          → config.id ≢ ""
          → let w = (delete_from codec fresh new_id row config subs st).world in
            ((j : String)
              → get_conn_config j w ≡ (
                  if config.id == j
                  then some (without_sub row.sub.id config subs)
                  else get_conn_config j st.world))
            × (w.storage ≡ store_connections codec w.mqtt.connection_configs st.world.storage)
      unfolding delete_from
      delete_from-config st a l n =
          rw (a, update_subscriptions-world)
            (written-set codec new_id (without_sub row.sub.id config subs) st.world l n)

      handle_delete-from :
          (st : State P)
          → conn_config st.world ≡ some config
          → config.subscriptions ≡ some subs
          → handle_delete codec fresh new_id row st
            ≡ delete_from codec fresh new_id row config subs
                (before_delete fresh row (some config) st)
      unfolding handle_delete
      handle_delete-from st c s =
          ap (λ o. delete_of codec fresh new_id row o (before_delete fresh row o st)) c
          ∙ ap
              (λ o.
                delete_with codec fresh new_id row config o
                  (before_delete fresh row (some config) st))
              s

      handle_delete-removed :
          (st : State P)
          → conn_config st.world ≡ some config
          → config.subscriptions ≡ some subs
          → any (has_sub_id row.sub.id) subs ≡ true
          → let w = (handle_delete codec fresh new_id row st).world in
            ((j : String)
              → get_conn_config j w ≡ (
                  if config.id == j
                  then some (without_sub row.sub.id config subs)
                  else get_conn_config j st.world))
            × (w.storage ≡ store_connections codec w.mqtt.connection_configs st.world.storage)
      handle_delete-removed st c s a =
          let listed = conn_config-listed st.world config c in
          let kept = before_delete-Keeps row config st in
          let deleted =
            delete_from-config (before_delete fresh row (some config) st) a
              (ap (is_listed config.id) kept.0 ∙ listed.0) listed.1 in
          rw (handle_delete-from st c s) (
            λ j.
                deleted.0 j
                ∙ ap
                    (λ cs.
                      if config.id == j
                      then some (without_sub row.sub.id config subs)
                      else find (has_id j) cs)
                    kept.0,
            deleted.1 ∙ ap (store_connections codec _) kept.2,
          )

      -- Where a configuration is shown whose subscriptions have distinct identifiers, and the row's is
      -- one of them, deleting the row leaves exactly the others in this configuration, in their order;
      -- any other configuration stays, and the browser's storage has the configurations of the store.
      pub handle_delete-config :
          (st : State P)
          → conn_config st.world ≡ some config
          → config.subscriptions ≡ some subs
          → DistinctIds subs
          → any (has_sub_id row.sub.id) subs ≡ true
          → let w = (handle_delete codec fresh new_id row st).world in
            ((j : String)
              → get_conn_config j w ≡ (
                  if config.id == j
                  then some (record config {
                    subscriptions = some (filter (λ s. not (s.id == row.sub.id)) subs);
                  })
                  else get_conn_config j st.world))
            × (w.storage ≡ store_connections codec w.mqtt.connection_configs st.world.storage)
      handle_delete-config st c s d a =
          let removed = handle_delete-removed st c s a in
          (
            λ j.
                removed.0 j
                ∙ ap
                    (λ l.
                      if config.id == j
                      then some (record config { subscriptions = some l })
                      else get_conn_config j st.world)
                    (remove_sub-filter row.sub.id subs d),
            removed.1,
          )
