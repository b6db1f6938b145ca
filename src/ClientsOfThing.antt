-- ===== src/ClientsOfThing.antt =====
-- The connections of one thing (web/src/components/thing/MqttClientsOfThing.vue), over the state of
-- all connections and the layout's page. The token of a connection that is waited for is `ccbt`.
pub mod Laws
mod Tests
use tio.Common.{
  ℕ, Bool, true, false, not, ◌&&◌, List, [], ◌∷◌, ◌++◌, Option, none, some, String, ◌==◌, filter,
  or_else, if◌then◌else◌,
}
use tio.Common.Dict.{Dict, get}
use tio.Json.{Json}
use tio.Config.{Config}
use tio.Subs.{
  SubConfig, SubscribeAll, UnsubscribeAll, subscribe_all, unsubscribe_all,
  convert_subs_config_sub_map,
}
use tio.Subs
use tio.Notify.{Notice}
use tio.Store.{Shared}
use tio.Layout.{Page, switch_active_tool, show_mqtt_conn_form, show_mqtt_subs_form}
use tio.Delegate.{Client, Shown, Message}
use tio.Delegate.State.{About, connected_with, disconnected, of_topic}
use tio.Delegate.Subscribe.{Topics}
use tio.UseMqtt.{World, connect, disconn, select_connection, get_conn_configs_by_client_id}
use tio.UseMqtt.Calls.{subscribe, unsubscribe}

-- A connection as the view shows it.
pub record Row (P : Type 0) : Type 0 where
  pub config : Config
  pub connected : Bool
  pub subs : Dict Bool
  pub subscriptions : List (SubConfig Json)
  pub messages : List (Message P)
  pub unread_message_count : ℕ

pub record State (P : Type 0) : Type 0 where
  pub world : World P
  pub page : Page
  pub clients : List (Row P)
  pub active_name : String
  pub ccbt : String
  pub notices : List Notice

-- The subscriptions that are kept, by their topics.
abbrev pub kept_sub_map : List (SubConfig Json) → Dict Json
kept_sub_map subs = convert_subs_config_sub_map (filter (λ s. s.keep) subs)

module _ {P : Type 0} where
  abbrev pub shown_of : Option (Shared (Shown P)) → Option (Shown P)
  shown_of none = none
  shown_of (some s) = s.shown

  -- `delegateSharedStates.value[config.id]`, as far as it is shown
  abbrev pub shown_for : Config → World P → Option (Shown P)
  shown_for config w = shown_of (get config.id w.mqtt.delegate_shared_states)

  abbrev pub is_connected : Config → World P → Bool
  is_connected config w = elim (shown_for config w) [ none ↦ false | some d ↦ d.client.connected ]

  abbrev row_of : Config → Option (Shown P) → Row P
  row_of config none = record {
    config = config;
    connected = false;
    subs = [];
    subscriptions = or_else config.subscriptions [];
    messages = [];
    unread_message_count = 0;
  }
  row_of config (some d) = record {
    config = config;
    connected = d.client.connected;
    subs = d.subs;
    subscriptions = or_else config.subscriptions [];
    messages = d.messages;
    unread_message_count = d.unread_message_count;
  }

  -- The rows of the watch, and the name of the panel that is open: the first connection found
  -- connected, if none is.
  abbrev pub rows_for : List Config → World P → (active_name : String) → List (Row P) × String
  rows_for [] w active = ([], active)
  rows_for (c ∷ cs) w active =
      let opened = if active == "" && is_connected c w then c.id else active in
      let (rows, last) = rows_for cs w opened in (row_of c (shown_for c w) ∷ rows, last)

  abbrev pub update_clients : (selected : String) → State P → State P
  update_clients selected st =
      let (rows, active) =
        rows_for (get_conn_configs_by_client_id selected st.world) st.world st.active_name in
      record st { clients = rows; active_name = active }

  abbrev with_world : World P → State P → State P
  with_world w st = record st { world = w }

  abbrev warned : Notice → State P → State P
  warned n st = record st { notices = st.notices ++ n ∷ [] }

  module _ (fresh : Client) where
    abbrev pub handle_disconnect_mqtt_client : Config → State P → State P
    handle_disconnect_mqtt_client config st = with_world (disconn fresh config st.world) st

    abbrev pub handle_connect_mqtt_client : (token : String) → Config → State P → State P
    handle_connect_mqtt_client token config st = record st {
      ccbt = token;
      world = connect fresh config token st.world;
    }

    abbrev do_subscribe : Config → SubscribeAll Json → State P → State P
    do_subscribe config (Subs.subscribe m configs) st =
        with_world (subscribe fresh config (Topics.map m) none st.world) st
    do_subscribe config (Subs.warn n) st = warned n st

    abbrev pub handle_subscribe_all : Config → Option (Dict Bool) → State P → State P
    handle_subscribe_all config subs st =
        do_subscribe config (subscribe_all config.subscriptions (or_else subs [])) st

    abbrev do_unsubscribe : Config → UnsubscribeAll → State P → State P
    do_unsubscribe config (UnsubscribeAll.unsubscribe topics) st =
        with_world (unsubscribe fresh config topics st.world) st
    do_unsubscribe config (UnsubscribeAll.warn n) st = warned n st

    abbrev pub handle_unsubscribe_all : Config → Option (Dict Bool) → State P → State P
    handle_unsubscribe_all config subs st =
        do_unsubscribe config (unsubscribe_all (some (or_else subs []))) st

    -- The form is given no subscription, not even null.
    abbrev pub handle_show_subscriptions : Config → State P → State P
    handle_show_subscriptions config st =
        if is_connected config st.world
        then record st { page = show_mqtt_subs_form config none st.page }
        else st

    abbrev pub handle_show_tool_panel : Config → State P → State P
    handle_show_tool_panel config st = record st {
      page =
          if st.page.layout.active_tool_key == "mqtt"
          then st.page
          else switch_active_tool "mqtt" st.page;
      world = select_connection fresh config st.world;
    }

    abbrev pub handle_create_mqtt_client : (token selected : String) → State P → State P
    handle_create_mqtt_client token selected st =
        let (page, ccbt) = show_mqtt_conn_form token none (some selected) st.page in
        record st { page = page; ccbt = ccbt }

    -- Without subscriptions, not even an empty list, it throws.
    abbrev subscribe_kept : Config → Option (List (SubConfig Json)) → World P → World P
    subscribe_kept config none w = w
    subscribe_kept config (some subs) w =
        subscribe fresh config (Topics.map (kept_sub_map subs)) none w

    abbrev pub connected_as_asked : Config → State P → State P
    connected_as_asked config st = record st {
      ccbt = "";
      world = subscribe_kept config config.subscriptions st.world;
    }

    -- The callback for events of things: the connection that is waited for subscribes to what it
    -- keeps.
    abbrev pub on_status_change :
        (selected event_thing_id type : String) → About → State P → State P
    on_status_change selected event_thing_id type (connected_with config token) st =
        if event_thing_id == selected
          && (not (token == "") && (token == st.ccbt && type == "mqtt-connected"))
        then connected_as_asked config st
        else st
    on_status_change selected event_thing_id type disconnected st = st
    on_status_change selected event_thing_id type (of_topic topic) st = st
