-- ===== src/ClientsTool.antt =====
-- The tool of MQTT connections (web/src/components/tools/MqttClients.vue) and its view of one
-- connection (web/src/components/mqtt/MqttClientDetail.vue), over the state of all connections and the
-- layout's page. `handleCreateOrEditDone` stands with the form of connections.
mod Tests
use tio.Common.{
  ℕ, Bool, true, false, List, [], ◌∷◌, ◌++◌, Option, none, some, String, ◌==◌, ◌+++◌, or_else,
  if◌then◌else◌,
}
use tio.Common.Dict.{Dict, get}
use tio.Json.{Json}
use tio.Json.Decimal.{decimal}
use tio.Config.{Config}
use tio.Subs.{SubscribeAll, UnsubscribeAll, subscribe_all, unsubscribe_all}
use tio.Subs
use tio.Notify.{Notice}
use tio.Store.{ConnectionsCodec}
use tio.Layout.{Page, show_mqtt_conn_form, show_mqtt_subs_form, hide_mqtt_conn_form}
use tio.Delegate.{Client, Shown}
use tio.Delegate.Subscribe.{Topics}
use tio.ClientsOfThing.{shown_of}
use tio.UseMqtt.{World, connect, disconn, remove_connection, get_conn_config}
use tio.UseMqtt.Calls.{subscribe, unsubscribe}

-- `selectedConn` where it is not null: its configuration, undefined where it is not listed, and what
-- is shown of its delegate.
pub record Selected (P : Type 0) : Type 0 where
  pub config : Option Config
  pub shown : Option (Shown P)

-- The options of a connection.
pub data Key : Type 0 where
  delete edit disconn_key connect_key : Key

pub record Opt : Type 0 where
  pub key : Key
  pub disabled : Bool

pub record Screen (P : Type 0) : Type 0 where
  pub world : World P
  pub page : Page
  pub notices : List Notice

-- What is shown of the selected connection.
pub record BaseInfo : Type 0 where
  pub userrole : String
  pub name : String
  pub client_id : String
  pub clean : Bool
  pub mqtt_version : String
  pub keepalive : ℕ
  pub username : String
  pub password : String
  pub broker : String

abbrev info_of : Config → BaseInfo
info_of c = record {
  userrole = c.userrole;
  name = c.name;
  client_id = c.client_id;
  clean = c.clean;
  mqtt_version = c.mqtt_version;
  keepalive = c.keepalive;
  username = c.username;
  password = c.password;
  broker = c.protocol +++ ("://" +++ (c.host +++ (":" +++ decimal c.port)));
}

module _ {P : Type 0} where
  abbrev selected_with : (id : String) → World P → Option (Selected P)
  selected_with id w =
      if id == ""
      then none
      else some (record {
        config = get_conn_config id w;
        shown = shown_of (get id w.mqtt.delegate_shared_states);
      })

  abbrev pub selected_conn : World P → Option (Selected P)
  selected_conn w = elim w.mqtt.current_conn_id [ none ↦ none | some id ↦ selected_with id w ]

  abbrev connected_of : Option (Shown P) → Bool
  connected_of none = false
  connected_of (some d) = d.client.connected

  abbrev pub is_connected_now : Option (Selected P) → Bool
  is_connected_now none = false
  is_connected_now (some s) = connected_of s.shown

  -- `isCurrentConnected`
  abbrev pub is_current_connected : World P → Bool
  is_current_connected w = is_connected_now (selected_conn w)

  abbrev pub opts : World P → List Opt
  opts w =
      let connected = is_current_connected w in
      record { key = delete; disabled = connected }
      ∷ record { key = edit; disabled = connected }
      ∷ record { key = if connected then disconn_key else connect_key; disabled = false }
      ∷ []

  abbrev pub config_of : Option (Selected P) → Option Config
  config_of none = none
  config_of (some s) = s.config

  abbrev subs_of : Option (Selected P) → Dict Bool
  subs_of none = []
  subs_of (some s) = elim s.shown [ none ↦ [] | some d ↦ d.subs ]

  abbrev with_world : World P → Screen P → Screen P
  with_world w st = record st { world = w }

  abbrev warned : Notice → Screen P → Screen P
  warned n st = record st { notices = st.notices ++ n ∷ [] }

  -- The broker's address and what else is shown; `none` for the empty object. A connection that is
  -- not listed has none of these.
  abbrev pub base_info : World P → Option BaseInfo
  base_info w = elim (config_of (selected_conn w)) [ none ↦ none | some c ↦ some (info_of c) ]

  -- `handleCreateSubscription`
  abbrev create_for : Option Config → Screen P → Screen P
  create_for none st = st
  create_for (some config) st = record st { page = show_mqtt_subs_form config none st.page }

  abbrev pub handle_create_subscription : Screen P → Screen P
  handle_create_subscription st =
      if is_current_connected st.world
      then create_for (config_of (selected_conn st.world)) st
      else st

  module _ (codec : ConnectionsCodec) (fresh : Client) where
    -- Without a configuration it throws.
    abbrev with_config : (Config → World P → World P) → Screen P → Screen P
    with_config f st = elim (config_of (selected_conn st.world)) [
      | none ↦ st
      | some config ↦ with_world (f config st.world) st
    ]

    -- A key of the current connection `id`, without which no option is shown. The connection is made
    -- without a token.
    abbrev pub handle_opt : (id : String) → Key → Screen P → Screen P
    handle_opt id connect_key st = with_config (λ config w. connect fresh config "" w) st
    handle_opt id disconn_key st = with_config (disconn fresh) st
    handle_opt id edit st = record st { page = (show_mqtt_conn_form "" (some id) none st.page).0 }
    handle_opt id delete st = with_world (remove_connection codec fresh id st.world) st

    abbrev pub handle_create_or_edit_cancel : Screen P → Screen P
    handle_create_or_edit_cancel st = record st { page = hide_mqtt_conn_form st.page }

    abbrev do_subscribe : Config → SubscribeAll Json → Screen P → Screen P
    do_subscribe config (Subs.subscribe m configs) st =
        with_world (subscribe fresh config (Topics.map m) none st.world) st
    do_subscribe config (Subs.warn n) st = warned n st

    abbrev do_unsubscribe : Config → UnsubscribeAll → Screen P → Screen P
    do_unsubscribe config (UnsubscribeAll.unsubscribe topics) st =
        with_world (unsubscribe fresh config topics st.world) st
    do_unsubscribe config (UnsubscribeAll.warn n) st = warned n st

    abbrev pub handle_subscribe_all : Screen P → Screen P
    handle_subscribe_all st =
        let selected = selected_conn st.world in
        elim (config_of selected) [
          | none ↦ st
          | some config ↦
              do_subscribe config (subscribe_all config.subscriptions (subs_of selected)) st
        ]

    abbrev pub handle_unsubscribe_all : Screen P → Screen P
    handle_unsubscribe_all st =
        let selected = selected_conn st.world in
        elim (config_of selected) [
          | none ↦ st
          | some config ↦ do_unsubscribe config (unsubscribe_all (some (subs_of selected))) st
        ]
