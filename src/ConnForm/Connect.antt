-- ===== src/ConnForm/Connect.antt =====
-- What the form of a connection hands on (`handleConnect`, web/src/components/mqtt/MqttConnForm.vue),
-- and what the view of the clients does with it (`handleCreateOrEditDone`,
-- web/src/components/tools/MqttClients.vue). `emptyToNull` writes into the form's own properties.
use tio.Json.Decimal.{decimal}
use tio.Common.{ℕ, Bool, List, [], ◌∷◌, Option, none, some, String, ◌==◌, ◌+++◌, map, if◌then◌else◌}
use tio.Json.{Json, null, num, obj, field, end}
use tio.Config.{Config, Properties}
use tio.Subs.{SubConfig, QosOpts, get_suggested_topics_for_thing}
use tio.Store.{ConnectionsCodec}
use tio.Layout.{Page, hide_mqtt_conn_form}
use tio.Delegate.{Client}
use tio.UseMqtt.{World, set_conn_config, select_connection, connect}
use tio.UseMqtt.Calls.{selected_conn}

abbrev null_if_empty : Option Json → Option Json
null_if_empty (some (Json.str s)) = if s == "" then some null else some (Json.str s)
null_if_empty v = v

abbrev pub empty_to_null : Properties → Properties
empty_to_null [] = []
empty_to_null ((k, v) ∷ m) = (k, null_if_empty v) ∷ empty_to_null m

-- The copy of the form that is handed on.
abbrev pub data_with : Properties → Config → Config
data_with properties form = record form {
  properties = some (empty_to_null properties);
  username = if form.userrole == "server" then "$" +++ form.username else form.username;
}

-- What `handleConnect` does with a form that is valid.
pub data Outcome : Type 0 where
  test_of : Config → Outcome
  created : Config → Outcome
  updated : String → Config → Outcome
  no_identifier : Outcome
  thrown : Outcome

abbrev outcome_of : (test is_for_create : Bool) (now : String) → Config → Outcome
outcome_of test is_for_create now config =
    if test
    then test_of config
    else if is_for_create
    then created (record config { create_at = now; update_at = now })
    else if config.id == ""
    then no_identifier
    else updated config.id (record config { update_at = now })

abbrev pub with_properties :
    (test is_for_create : Bool) (now : String) → Config → Option Properties → Outcome
with_properties test is_for_create now form none = thrown
with_properties test is_for_create now form (some m) =
    outcome_of test is_for_create now (data_with m form)

abbrev pub handle_connect : (test is_for_create : Bool) (now : String) → Config → Outcome
handle_connect test is_for_create now form =
    with_properties test is_for_create now form form.properties

-- The form after that.
abbrev pub form_connected : Config → Config
form_connected form = elim form.properties [
  | none ↦ form
  | some m ↦ record form { properties = some (empty_to_null m) }
]

module _ {P : Type 0} (codec : ConnectionsCodec) (fresh : Client) (new_id : String) where
  -- The store after that, and the configuration that is emitted; null is `none`.
  unfoldable pub set_outcome : Outcome → World P → World P × Option Config
  set_outcome (test_of config) w = (w, none)
  set_outcome (created config) w =
      let (w', c) = set_conn_config codec fresh new_id "" config w in (w', some c)
  set_outcome (updated id config) w =
      let (w', c) = set_conn_config codec fresh new_id id config w in (w', some c)
  set_outcome no_identifier w = (w, none)
  set_outcome thrown w = (w, none)

-- The options of suggestions as they are once they have been printed and read again.
abbrev pub as_json : SubConfig QosOpts → SubConfig Json
as_json s = record {
  id = s.id;
  name = s.name;
  keep = s.keep;
  topic = s.topic;
  opts = obj (field "qos" (num (decimal s.opts.qos)) end);
}

abbrev pub suggested_subs : (fresh_id : ℕ → String) → Config → List (SubConfig Json)
suggested_subs fresh_id config =
    map as_json (get_suggested_topics_for_thing fresh_id config.username)

-- `handleCreateOrEditDone` writes suggested subscriptions into a thing's configuration, which
-- stands in the store. Its test of `isForCreate`, a ref, always holds.
abbrev pub with_suggested : (fresh_id : ℕ → String) → Config → Config
with_suggested fresh_id config = record config {
  subscriptions = some (suggested_subs fresh_id config);
}

module _ {P : Type 0} (codec : ConnectionsCodec) (fresh : Client) (new_id : String)
    (fresh_id : ℕ → String) where
  unfoldable pub suggest_if_thing : Config → World P → World P
  suggest_if_thing config w =
      if config.userrole == "thing"
      then (set_conn_config codec fresh new_id config.id (with_suggested fresh_id config) w).0
      else w

  abbrev pub connect_selected : (token : String) → Option Config → World P → World P
  connect_selected token none w = w
  connect_selected token (some config) w = connect fresh config token w

  abbrev pub selected_config : World P → Option Config
  selected_config w = elim (selected_conn w) [ none ↦ none | some c ↦ c.0 ]

  unfoldable pub connect_current : (token : String) → World P → World P
  connect_current token w = connect_selected token (selected_config w) w

  -- Without a configuration it throws at once.
  unfoldable pub handle_create_or_edit_done :
      Option Config → (token : String) → World P × Page → World P × Page
  unfolding suggest_if_thing connect_current
  handle_create_or_edit_done none token (w, page) = (w, page)
  handle_create_or_edit_done (some config) token (w, page) = (
    connect_current token (suggest_if_thing config (select_connection fresh config w)),
    hide_mqtt_conn_form page,
  )
