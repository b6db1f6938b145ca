-- ===== src/PublishView.antt =====
-- The form that publishes messages (web/src/components/mqtt/MqttPublish.vue) and that of their MQTT 5
-- properties (web/src/components/mqtt/MetaForm.vue), with `getInitMeatModel` of web/src/utils/mqtt.js.
-- A value that is undefined is `none`; user properties that are `none` are undefined or null, which
-- the code treats alike. An exception is `none` in a result.
pub mod Laws
mod Tests
use tio.Common.{
  ℕ, Bool, true, false, not, ◌&&◌, ◌||◌, List, [], ◌∷◌, Option, none, some, String, ◌==◌, any,
  is_some, or_else, if◌then◌else◌,
}
use tio.Common.Dict.{Dict, get}
use tio.Json.{Json, null, bool, num, str, arr, obj, Fields, end, field}
use tio.Config.{Config, PushProps, Will, Properties}
use tio.Session.{truthy}

pub record MetaModel : Type 0 where
  pub user_properties : Option Properties
  pub content_type : Option Json
  pub payload_format_indicator : Option Json
  pub message_expiry_interval : Option Json
  pub topic_alias : Option Json
  pub response_topic : Option Json
  pub correlation_data : Option Json
  pub subscription_identifier : Option Json

abbrev pub get_init_meat_model : MetaModel
get_init_meat_model = record {
  user_properties = some [];
  content_type = none;
  payload_format_indicator = some (bool false);
  message_expiry_interval = none;
  topic_alias = none;
  response_topic = none;
  correlation_data = none;
  subscription_identifier = none;
}

pub record Panel : Type 0 where
  pub payload_lang : String
  pub payload_type : String
  pub qos : ℕ
  pub retain : Bool
  pub topic : String
  pub payload : String
  pub mqtt5_props : MetaModel
  pub mqtt5_props_enable : Bool
  pub has_mqtt5_props : Bool
  pub is_meta_form_shown : Bool
  pub is_tpls_list_shown : Bool

abbrev pub new_panel : Panel
new_panel = record {
  payload_lang = "json";
  payload_type = "JSON";
  qos = 0;
  retain = false;
  topic = "";
  payload = "";
  mqtt5_props = get_init_meat_model;
  mqtt5_props_enable = false;
  has_mqtt5_props = false;
  is_meta_form_shown = false;
  is_tpls_list_shown = false;
}

-- What `calcHasProps` asks of a value, `isNotEmptyObject` included.
abbrev pub has_value : Option Json → Bool
has_value none = false
has_value (some null) = false
has_value (some (bool b)) = b
has_value (some (num n)) = true
has_value (some (str s)) = not (s == "")
has_value (some (arr xs)) = true
has_value (some (obj end)) = false
has_value (some (obj (field k v fs))) = true

-- `calcHasProps` of a dictionary; of undefined or null it throws.
abbrev pub calc_has_props : Properties → Bool
calc_has_props = any (λ e. has_value e.1)

-- `isNotEmptyObject` of user properties: `JSON.stringify` leaves out what is undefined.
abbrev pub is_not_empty_object : Option Properties → Bool
is_not_empty_object none = false
is_not_empty_object (some m) = any (λ e. is_some e.1) m

-- `calcHasProps` of a model, whose values are those of its fields.
abbrev pub has_props : MetaModel → Bool
has_props m =
    is_not_empty_object m.user_properties
    || has_value m.content_type
    || has_value m.payload_format_indicator
    || has_value m.message_expiry_interval
    || has_value m.topic_alias
    || has_value m.response_topic
    || has_value m.correlation_data
    || has_value m.subscription_identifier

-- `value || other`
abbrev pub value_or : Option Json → Option Json → Option Json
value_or none other = other
value_or (some v) other = if truthy v then some v else other

abbrev pub kept_user_properties : Properties → Properties
kept_user_properties m = if calc_has_props m then m else []

abbrev pub saved : Properties → MetaModel → MetaModel
saved user_properties m = record {
  user_properties = some (kept_user_properties user_properties);
  content_type = value_or m.content_type none;
  payload_format_indicator = value_or m.payload_format_indicator (some (bool false));
  message_expiry_interval = value_or m.message_expiry_interval none;
  topic_alias = none;
  response_topic = value_or m.response_topic none;
  correlation_data = value_or m.correlation_data none;
  subscription_identifier = none;
}

abbrev pub with_props : MetaModel → Panel → Panel
with_props m p = record p { mqtt5_props = m; has_mqtt5_props = has_props m }

abbrev pub handle_save_meta : MetaModel → Panel → Option Panel
handle_save_meta new_props p = elim new_props.user_properties [
  | none ↦ none
  | some m ↦ some (with_props (saved m new_props) (record p { is_meta_form_shown = false }))
]

-- The form of the properties, as it is shown for a model: `{ ...form.userProperties }` of null is
-- empty.
abbrev pub meta_form_shown : MetaModel → MetaModel
meta_form_shown model = record model { user_properties = some (or_else model.user_properties []) }

abbrev pub toggle_meta_form_visable : Panel → Panel
toggle_meta_form_visable p = record p { is_meta_form_shown = not p.is_meta_form_shown }

abbrev pub toggle_tpls_card_visable : Panel → Panel
toggle_tpls_card_visable p = record p { is_tpls_list_shown = not p.is_tpls_list_shown }

abbrev pub lang_of : String → String
lang_of paytype = if paytype == "JSON" then "json" else "plaintext"

-- The watch on `payloadType`, after a handler.
abbrev pub payload_type_watched : (old : String) → Panel → Panel
payload_type_watched old p =
    if p.payload_type == old then p else record p { payload_lang = lang_of p.payload_type }

-- The choice of a payload's type.
abbrev pub choose_payload_type : String → Panel → Panel
choose_payload_type paytype p =
    payload_type_watched p.payload_type (record p { payload_type = paytype })

abbrev pub handle_select_topic :
    (topic : String) (paytype : Option String) (payload : String) → Panel → Panel
handle_select_topic topic paytype payload p =
    let p' = record p { topic = topic; payload = payload } in
    if or_else paytype "" == ""
    then p'
    else payload_type_watched p.payload_type (record p' {
      payload_type = or_else paytype "";
      payload_lang = lang_of (or_else paytype "");
    })

-- The watch on the component's topic.
abbrev pub topic_changed : Option String → Panel → Panel
topic_changed topic p = record p { topic = or_else topic "" }

-- `payload || other`
abbrev text_or : Option String → String → String
text_or payload other = if or_else payload "" == "" then other else or_else payload ""

-- The watch on the component's payload and its type.
abbrev pub payload_changed : (paytype payload : Option String) → Panel → Panel
payload_changed paytype payload p = payload_type_watched p.payload_type (
    if or_else paytype "" == ""
    then record p { payload_type = "JSON"; payload = text_or payload "{}" }
    else record p {
      payload_type = or_else paytype "";
      payload_lang = lang_of (or_else paytype "");
      payload = text_or payload (if or_else paytype "" == "JSON" then "{}" else "");
    })

-- `will.properties?.[k]`
abbrev will_prop : String → Will → Option Json
will_prop k will = elim will.properties [
  | none ↦ none
  | some m ↦ elim (get k m) [ none ↦ none | some v ↦ v ]
]

abbrev pub props_of_config : Config → Will → MetaModel
props_of_config config will = record {
  user_properties = some (or_else config.properties []);
  content_type = value_or (will_prop "contentType" will) none;
  payload_format_indicator = value_or (will_prop "payloadFormatIndicator" will) (some (bool false));
  message_expiry_interval = value_or (will_prop "messageExpiryInterval" will) none;
  topic_alias = none;
  response_topic = value_or (will_prop "responseTopic" will) none;
  correlation_data = value_or (will_prop "correlationData" will) none;
  subscription_identifier = none;
}

abbrev pushed_qos : Option PushProps → ℕ
pushed_qos none = 0
pushed_qos (some props) = props.qos

abbrev pushed_retain : Option PushProps → Bool
pushed_retain none = false
pushed_retain (some props) = props.retain

abbrev pub load_props : Option Will → Config → Panel → Panel
load_props none config p = p
load_props (some will) config p = with_props (props_of_config config will) p

-- The watch on the component's configuration; a configuration without a will throws, after the first
-- changes.
abbrev pub load_config : Config → Panel → Panel
load_config config p =
    let p' = record p {
      qos = if config.userrole == "server" then pushed_qos config.push_props else 0;
      retain = pushed_retain config.push_props;
    } in
    if config.mqtt_version == "5.0"
    then load_props config.will config (record p' { mqtt5_props_enable = true })
    else record p' {
      mqtt5_props_enable = false;
      has_mqtt5_props = false;
      mqtt5_props = get_init_meat_model;
    }

abbrev same_id : Config → Option Config → Bool
same_id config none = false
same_id config (some old) = config.id == old.id

abbrev pub conn_config_changed : (config old : Option Config) → Panel → Panel
conn_config_changed none old p = p
conn_config_changed (some config) old p = if same_id config old then p else load_config config p

-- What `publish` of the composable is called with.
pub record Request : Type 0 where
  pub config : Config
  pub topic : String
  pub payload : String
  pub qos : ℕ
  pub retain : Bool
  pub paytype : String
  pub properties : Option MetaModel

-- `none` is an exception, and `some none` no call.
abbrev pub send : Option Config → Panel → Option (Option Request)
send none p = none
send (some config) p =
    if config.id == ""
    then some none
    else some (
        some (record {
          config = config;
          topic = p.topic;
          payload = p.payload;
          qos = p.qos;
          retain = p.retain;
          paytype = p.payload_type;
          properties = if p.has_mqtt5_props then some p.mqtt5_props else none;
        }))
