-- ===== src/Client.antt =====
-- The options and the address with which an MQTT client is created (web/src/utils/mqtt.js). The
-- client itself is the library's.
pub mod Laws
mod Tests
use tio.Common.{
  ℕ, ◌*◌, Bool, true, false, not, ◌&&◌, ◌||◌, [], ◌∷◌, Option, none, some, String, ◌==◌, ◌+++◌,
  nat_eq, or_else, starts_with, if◌then◌else◌,
}
use tio.Common.Dict.{Dict}
use tio.Json.{Json, is_null}
use tio.Json.Decimal.{decimal}
use tio.Config.{Properties, Will, Config}

pub record SslFile : Type 0 where
  pub ca : Option String
  pub cert : Option String
  pub key : Option String

abbrev some_if_not_empty : String → Option String
some_if_not_empty s = if s == "" then none else some s

unfoldable pub get_ssl_file : (ca cert key : String) → SslFile
get_ssl_file ca cert key = record {
  ca = some_if_not_empty ca;
  cert = some_if_not_empty cert;
  key = some_if_not_empty key;
}

-- The entries whose value is neither null nor undefined.
defined_entries : Properties → Dict Json
defined_entries [] = []
defined_entries ((k, none) ∷ m) = defined_entries m
defined_entries ((k, some v) ∷ m) =
    let rest = defined_entries m in if is_null v then rest else (k, v) ∷ rest

unfoldable pub set_mqtt5_properties : Option Properties → Option (Dict Json)
unfolding defined_entries
set_mqtt5_properties none = none
set_mqtt5_properties (some option) = some (defined_entries option)

unfoldable pub set_will_mqtt5_properties : Option Properties → Option (Dict Json)
unfolding defined_entries
set_will_mqtt5_properties none = none
set_will_mqtt5_properties (some option) = some (defined_entries option)

abbrev pub convert_seconds_to_ms : ℕ → ℕ
convert_seconds_to_ms seconds = seconds * 1000

-- `mqttVersionDict[mqttVersion]`
abbrev pub protocol_version : String → Option ℕ
protocol_version v = if v == "3.1.1" then some 4 else if v == "5.0" then some 5 else none

abbrev pub is_v5 : Option ℕ → Bool
is_v5 none = false
is_v5 (some v) = nat_eq v 5

-- `properties && Object.keys(properties).length > 0`
abbrev pub if_not_empty : Option (Dict Json) → Option (Dict Json)
if_not_empty (some (e ∷ m)) = some (e ∷ m)
if_not_empty _ = none

pub record WillOptions : Type 0 where
  pub topic : String
  pub payload : String
  pub qos : ℕ
  pub retain : Bool
  pub properties : Option (Dict Json)

pub record ClientOptions : Type 0 where
  pub client_id : String
  pub keepalive : ℕ
  pub clean : Bool
  pub reconnect_period : ℕ
  pub version : Option ℕ
  pub connect_timeout : ℕ
  pub username : Option String
  pub password : Option String
  pub properties : Option (Dict Json)
  pub reject_unauthorized : Option Bool
  pub ssl : SslFile
  pub will : Option WillOptions
  pub resubscribe : Bool

abbrev no_ssl : SslFile
no_ssl = record { ca = none; cert = none; key = none }

abbrev will_options : Bool → Option Will → Option WillOptions
will_options v5 none = none
will_options v5 (some w) =
    if w.last_will_topic == ""
    then none
    else some (record {
      topic = w.last_will_topic;
      payload = w.last_will_payload;
      qos = w.last_will_qos;
      retain = w.last_will_retain;
      properties = if v5 then if_not_empty (set_will_mqtt5_properties w.properties) else none;
    })

-- `now` is the text of the present time, and `auto_resub` the store's getter.
unfoldable pub get_client_options : (now : String) (auto_resub : Bool) → Config → ClientOptions
unfolding get_ssl_file set_mqtt5_properties set_will_mqtt5_properties
get_client_options now auto_resub c =
    let version = protocol_version c.mqtt_version in
    record {
      client_id = if c.client_id_with_time then c.client_id +++ ("_" +++ now) else c.client_id;
      keepalive = c.keepalive;
      clean = c.clean;
      reconnect_period = if c.reconnect then c.reconnect_period else 0;
      version = version;
      connect_timeout = convert_seconds_to_ms c.connect_timeout;
      username = some_if_not_empty c.username;
      password = some_if_not_empty c.password;
      properties = if is_v5 version then if_not_empty (set_mqtt5_properties c.properties) else none;
      reject_unauthorized = if c.ssl then some (or_else c.reject_unauthorized true) else none;
      ssl = if c.ssl && c.cert_type == "self" then get_ssl_file c.ca c.cert c.key else no_ssl;
      will = will_options (is_v5 version) c.will;
      resubscribe = auto_resub;
    }

-- Configurations from before the field `protocol` lack it.
unfoldable pub get_mqtt_protocol : Config → String
get_mqtt_protocol c = if c.protocol == "" then if c.ssl then "wss" else "ws" else c.protocol

abbrev pub is_web_socket : String → Bool
is_web_socket protocol = protocol == "ws" || protocol == "wss"

abbrev with_slash : String → String
with_slash path = (if starts_with path "/" then "" else "/") +++ path

unfoldable pub get_url : Config → String
unfolding get_mqtt_protocol
get_url c =
    let protocol = get_mqtt_protocol c in
    let url = protocol +++ ("://" +++ (c.host +++ (":" +++ decimal c.port))) in
    if is_web_socket protocol then url +++ with_slash c.path else url

-- What `createClient` hands to the library's `connect`.
unfoldable pub create_client : (now : String) (auto_resub : Bool) → Config → String × ClientOptions
unfolding get_client_options get_url
create_client now auto_resub c = (get_url c, get_client_options now auto_resub c)

-- The broker's ports in the server's configuration; a missing port and port 0 are falsy.
pub record Broker : Type 0 where
  pub public_wss_port : Option ℕ
  pub wss_port : Option ℕ
  pub public_ws_port : Option ℕ
  pub ws_port : Option ℕ

abbrev truthy_port : Option ℕ → Bool
truthy_port none = false
truthy_port (some p) = not (nat_eq p 0)

-- `none` where the source's value is undefined. The broker is read only if the connector is embedded.
unfoldable pub get_default_mqtt_port :
    (is_https : Bool) → (connector : Option String) → Broker → Option ℕ
get_default_mqtt_port is_https none brk = some 8083
get_default_mqtt_port is_https (some connector) brk =
    if connector == "embed"
    then if is_https
      then if truthy_port brk.public_wss_port then brk.public_wss_port else brk.wss_port
      else if truthy_port brk.public_ws_port
      then brk.public_ws_port
      else brk.ws_port
    else some 8083

-- A payload is a text or a buffer. The buffers, their codecs and the test that a text is JSON are
-- the platform's.
pub record Codec : Type 1 where
  pub Bytes : Type 0
  pub from : String → String → Bytes
  pub to_string : Option String → Bytes → String
  pub is_json : String → Bool

pub data Payload (B : Type 0) : Type 0 where
  text : String → Payload B
  bytes : B → Payload B

-- `none` stands for the exception of `this.$message`, which the module has not.
abbrev pub check_json : Bool → {A : Type 0} → A → Option A
check_json true a = some a
check_json false a = none

abbrev encoding : String → Option String
encoding type =
    if type == "Base64" then some "base64" else if type == "Hex" then some "hex" else none

module _ (codec : Codec) where
  open codec use {Bytes, from, to_string, is_json}

  gen_publish_payload : String → String → Option (Payload Bytes)
  gen_publish_payload type value = elim (encoding type) [
    | some e ↦ some (bytes (from value e))
    | none ↦ if type == "JSON" then check_json (is_json value) (text value) else some (text value)
  ]

  gen_receive_payload : String → Bytes → Option (Payload Bytes)
  gen_receive_payload type value = elim (encoding type) [
    | some e ↦ some (text (to_string (some e) value))
    | none ↦
        let s = to_string none value in
        if type == "JSON" then check_json (is_json s) (text s) else some (text s)
  ]

  -- `way` is `none` where the caller leaves it out.
  unfoldable pub convert_payload_by_type :
      Payload Bytes → String → Option String → Option (Payload Bytes)
  unfolding gen_publish_payload gen_receive_payload
  convert_payload_by_type value type none = some value
  convert_payload_by_type (text s) type (some way) =
      if way == "publish" then gen_publish_payload type s else some (text s)
  convert_payload_by_type (bytes b) type (some way) =
      if way == "receive" then gen_receive_payload type b else some (bytes b)
