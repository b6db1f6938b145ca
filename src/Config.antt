-- ===== src/Config.antt =====
-- The configuration of a connection: the form of web/src/utils/mqtt.js (`getDefaultForm`), with the
-- identifier that `setConnConfig` gives it. A missing `id` or `protocol` is the empty text, which
-- the code treats alike; the values of MQTT 5 properties are JSON, and `none` stands for undefined.
use tio.Common.{
  ℕ, Bool, true, false, [], ◌∷◌, List, Option, none, some, String, ◌==◌, if◌then◌else◌,
}
use tio.Common.Dict.{Dict}
use tio.Json.{Json}
use tio.Subs.{SubConfig}

abbrev pub Properties : Type 0
Properties = Dict (Option Json)

pub record PushProps : Type 0 where
  pub qos : ℕ
  pub retain : Bool

pub record Will : Type 0 where
  pub last_will_topic : String
  pub last_will_payload : String
  pub last_will_qos : ℕ
  pub last_will_retain : Bool
  pub properties : Option Properties

pub record Config : Type 0 where
  pub id : String
  pub userrole : String
  pub client_id : String
  pub create_at : String
  pub update_at : String
  pub name : String
  pub clean : Bool
  pub protocol : String
  pub host : String
  pub keepalive : ℕ
  pub connect_timeout : ℕ
  pub reconnect : Bool
  pub reconnect_period : ℕ
  pub username : String
  pub password : String
  pub path : String
  pub port : ℕ
  pub ssl : Bool
  pub cert_type : String
  pub reject_unauthorized : Option Bool
  pub ca : String
  pub cert : String
  pub key : String
  pub mqtt_version : String
  pub subscriptions : Option (List (SubConfig Json))
  pub push_props : Option PushProps
  pub will : Option Will
  pub properties : Option Properties
  pub client_id_with_time : Bool

-- `window.location` and the time enter as arguments.
abbrev pub get_default_form : (hostname protocol now : String) → Config
get_default_form hostname protocol now = record {
  id = "";
  userrole = "server";
  client_id = "";
  create_at = now;
  update_at = now;
  name = "";
  clean = true;
  protocol = if protocol == "https:" then "wss" else "ws";
  host = hostname;
  keepalive = 60;
  connect_timeout = 10;
  reconnect = true;
  reconnect_period = 4000;
  username = "";
  password = "";
  path = "/";
  port = 8083;
  ssl = false;
  cert_type = "";
  reject_unauthorized = some true;
  ca = "";
  cert = "";
  key = "";
  mqtt_version = "5.0";
  subscriptions = some [];
  push_props = none;
  will = some (record {
    last_will_topic = "";
    last_will_payload = "";
    last_will_qos = 0;
    last_will_retain = false;
    properties = some (
        ("payloadFormatIndicator", none)
        ∷ ("willDelayInterval", none)
        ∷ ("messageExpiryInterval", none)
        ∷ ("contentType", some (Json.str ""))
        ∷ ("responseTopic", some (Json.str ""))
        ∷ ("correlationData", none)
        ∷ ("userProperties", none)
        ∷ []);
  });
  properties = some (
      ("sessionExpiryInterval", none)
      ∷ ("receiveMaximum", none)
      ∷ ("maximumPacketSize", none)
      ∷ ("topicAliasMaximum", none)
      ∷ ("requestResponseInformation", none)
      ∷ ("requestProblemInformation", none)
      ∷ ("userProperties", none)
      ∷ ("authenticationMethod", none)
      ∷ ("authenticationData", none)
      ∷ []);
  client_id_with_time = false;
}
