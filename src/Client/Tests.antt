-- ===== src/Client/Tests.antt =====
-- The options and the address of a default connection.
use tio.Common.{◌≡◌, refl, true, [], ◌∷◌, none, some, starts_with}
use tio.Json.{Json}
use tio.Json.Decimal.{decimal}
use tio.Config.{Config, Properties, get_default_form}
use tio.Client.{get_client_options, get_url, get_default_mqtt_port, get_mqtt_protocol}
use tio.Client.Laws.{IsAccepted, get_client_options-IsAccepted}

abbrev expiry : Properties
expiry = ("sessionExpiryInterval", some (Json.num "60")) ∷ ("receiveMaximum", none) ∷ []

abbrev form : Config
form = record (get_default_form "localhost" "https:" "now") {
  properties = some expiry;
  path = "mqtt";
}

url : get_url form ≡ "wss://localhost:8083/mqtt"
unfolding get_url get_mqtt_protocol starts_with decimal
url = refl

port :
    get_default_mqtt_port true (some "embed") (record {
      public_wss_port = some 0;
      wss_port = some 8443;
      public_ws_port = none;
      ws_port = some 8083;
    })
    ≡ some 8443
unfolding get_default_mqtt_port
port = refl

get_client_options-IsAccepted_example : IsAccepted (get_client_options "0" true form)
get_client_options-IsAccepted_example = get_client_options-IsAccepted "0" true form
