-- ===== src/SubsList/Actions.antt =====
-- What the list of subscriptions (web/src/components/mqtt/Subcriptions.vue) does.
use tio.Common.{
  ℕ, Bool, true, false, ◌&&◌, List, [], ◌∷◌, ◌++◌, Option, none, some, String, ◌==◌, map, find, any,
  if◌then◌else◌,
}
use tio.Common.Dict.{Dict}
use tio.Json.{Json}
use tio.Config.{Config}
use tio.Subs.{SubConfig}
use tio.Notify.{Notice, notify_fail, notify_done}
use tio.Store.{ConnectionsCodec, Shared}
use tio.Layout.{hidden_subs_form}
use tio.Delegate.{Client, Shown}
use tio.Delegate.Subscribe.{Topics}
use tio.UseMqtt.{World, replace_config, set_conn_config, subscribed_config, remove_topic}
use tio.UseMqtt.Calls.{selected_conn, subscribe, unsubscribe}
use tio.SubsForm.{Form}
use tio.SubsList.{
  Row, State, conflict, row_of, sort_rows, has_sub_id, opts_of, is_conflict, form_id, is_id,
  without_sub, edited,
}

module _ {P : Type 0} where
  -- `props.conn.config`
  abbrev pub conn_config : World P → Option Config
  conn_config w = elim (selected_conn w) [ none ↦ none | some c ↦ c.0 ]

  abbrev shown_of : Option (Shared (Shown P)) → Option (Shown P)
  shown_of none = none
  shown_of (some s) = s.shown

  abbrev conn_shown : World P → Option (Shown P)
  conn_shown w = elim (selected_conn w) [ none ↦ none | some c ↦ shown_of c.1 ]

  -- `props.conn.subs || {}`
  abbrev pub conn_subs : World P → Dict Bool
  conn_subs w = elim (conn_shown w) [ none ↦ [] | some d ↦ d.subs ]

  -- `props.conn.client?.connected`
  abbrev pub client_connected : World P → Bool
  client_connected w = elim (conn_shown w) [ none ↦ false | some d ↦ d.client.connected ]

  -- By the configuration's subscriptions.
  abbrev pub show_subs : Option (List (SubConfig Json)) → State P → State P
  show_subs none st = st
  show_subs (some subs) st = record st {
    subscriptions = sort_rows (map (row_of (conn_subs st.world)) subs);
  }

  abbrev pub show_rows : Option Config → State P → State P
  show_rows none st = record st { subscriptions = [] }
  show_rows (some c) st = show_subs c.subscriptions st

  -- Also the watch on `conn`.
  unfoldable pub update_subscriptions : State P → State P
  update_subscriptions st = show_rows (conn_config st.world) st

  abbrev pub notice : Notice → State P → State P
  notice n st = record st { notices = st.notices ++ n ∷ [] }

  abbrev pub hide_form : State P → State P
  hide_form st = record st { form = hidden_subs_form }

  -- The form is hidden if it is that of the subscription.
  abbrev pub hide_form_of : String → State P → State P
  hide_form_of id st = if is_id id (form_id st.form) then hide_form st else st

  abbrev pub start_loading : State P → State P
  start_loading st = record st { loading = true }

  -- The part that the callbacks share.
  abbrev pub answered : (failure success : String) → Option String → State P → State P
  answered failure success (some err) st =
      notice (notify_fail failure) (record st { loading = false })
  answered failure success none st =
      update_subscriptions (notice (notify_done success) (record st { loading = false }))

  abbrev pub show_form : Option Config → Row → State P → State P
  show_form config row st = record st {
    form = record { visible = true; conn_config = config; subscription = some row.sub };
  }

  abbrev pub handle_edit : Row → State P → State P
  handle_edit row st =
      if client_connected st.world then show_form (conn_config st.world) row st else st

  -- What is written into the configuration of the store.
  abbrev pub written : Config → World P → World P
  written config w = record w {
    mqtt = record w.mqtt {
      connection_configs = replace_config config.id config w.mqtt.connection_configs;
    };
  }

  module _ (fresh : Client) where
    abbrev pub unsubscribe_from : Option Config → String → World P → World P
    unsubscribe_from none topic w = w
    unsubscribe_from (some c) topic w = unsubscribe fresh c (topic ∷ []) w

    abbrev pub handle_unsubscribe : Row → State P → State P
    handle_unsubscribe row st =
        let st' = start_loading st in
        if row.subscribed
        then record st' { world = unsubscribe_from (conn_config st.world) row.sub.topic st.world }
        else st'

    abbrev pub unsubscribe_answered : Option String → State P → State P
    unsubscribe_answered = answered "Unsubscribe operation Failed" "Topic Unsubscribed"

    abbrev pub subscribe_to : Option Config → String → Json → World P → World P
    subscribe_to none topic opts w = w
    subscribe_to (some c) topic opts w = subscribe fresh c (Topics.one topic) (some opts) w

    abbrev pub handle_subscribe : Row → State P → State P
    handle_subscribe row st =
        if row.subscribed
        then st
        else let st' = start_loading (hide_form_of row.sub.id st) in
          record st' {
            world = subscribe_to (conn_config st.world) row.sub.topic row.sub.opts st.world;
          }

    -- What `handleDelete` does before it looks for the subscription.
    unfoldable pub before_delete : Row → Option Config → State P → State P
    before_delete row config st =
        let st' = hide_form_of row.sub.id st in
        if client_connected st.world && row.subscribed
        then record st' { world = unsubscribe_from config row.sub.topic st.world }
        else st'

  module _ (codec : ConnectionsCodec) (fresh : Client) (new_id : String) where
    -- The callbacks of the three calls of `subscribe`; the composable's own runs first. `configs` are
    -- the subscriptions asked for, and `config` the configuration that was given.
    abbrev pub subscribe_answered :
        (success : String) (fresh_id : ℕ → String) (topic : String) (opts : Json)
        (configs : List (SubConfig Json))
        → Config
        → (err : Option String) → State P
        → State P
    subscribe_answered success fresh_id topic opts configs config (some err) st =
        answered "Subscribe operation Failed" success (some err) st
    subscribe_answered success fresh_id topic opts configs config none st =
        answered "Subscribe operation Failed" success none (record st {
          world =
              subscribed_config codec fresh new_id fresh_id ((topic, opts) ∷ []) configs config
                st.world;
        })

    unfoldable pub delete_from : Row → Config → List (SubConfig Json) → State P → State P
    delete_from row config subs st =
        if any (has_sub_id row.sub.id) subs
        then update_subscriptions (
            notice (notify_done "Delete Subscription") (record st {
              world =
                  (set_conn_config codec fresh new_id config.id (without_sub row.sub.id config subs)
                    (written (without_sub row.sub.id config subs) st.world)).0;
            }))
        else st

    abbrev pub delete_with : Row → Config → Option (List (SubConfig Json)) → State P → State P
    delete_with row config none st = st
    delete_with row config (some subs) st = delete_from row config subs st

    abbrev pub delete_of : Row → Option Config → State P → State P
    delete_of row none st = st
    delete_of row (some config) st = delete_with row config config.subscriptions st

    -- `removeTopic(sub.topic)` is given a text in the place of the configuration, whose `id` is
    -- undefined: no delegate is found, and nothing happens.
    unfoldable pub handle_delete : Row → State P → State P
    handle_delete row st =
        let config = conn_config st.world in
        delete_of row config (before_delete fresh row config st)

  module _ (fresh : Client) (tool : String) (thing : Option String) where
    abbrev pub remove_if_other : Form → Config → (old_topic : String) → World P → World P
    remove_if_other f config old_topic w =
        if f.topic == old_topic then w else remove_topic fresh tool thing config old_topic w

    -- A subscription that is there is written, and subscribed to under its new topic.
    unfoldable pub submit_edit : Form → Config → List (SubConfig Json) → World P → World P
    submit_edit f config subs w = elim (find (has_sub_id f.id) subs) [
      | none ↦ w
      | some s ↦
          let config' = edited f config subs in
          remove_if_other f config' s.topic
            (subscribe fresh config' (Topics.one f.topic) (some (opts_of f)) (written config' w))
    ]

    unfoldable pub submit : Form → Config → List (SubConfig Json) → State P → State P
    unfolding submit_edit
    submit f config subs st =
        if is_conflict f subs
        then notice conflict st
        else let st' = start_loading (hide_form st) in
          record st' {
            world =
                if f.id == ""
                then subscribe fresh config (Topics.one f.topic) (some (opts_of f)) st.world
                else submit_edit f config subs st.world;
          }

    abbrev pub submit_with : Form → Config → Option (List (SubConfig Json)) → State P → State P
    submit_with f config none st = st
    submit_with f config (some subs) st = submit f config subs st

    abbrev pub submit_to : Form → Option Config → State P → State P
    submit_to f none st = st
    submit_to f (some config) st = submit_with f config config.subscriptions st

    -- `submitForm`
    unfoldable pub submit_form : Form → State P → State P
    submit_form f st = submit_to f (conn_config st.world) st
