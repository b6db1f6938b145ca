-- ===== src/ConnForm/Tests.antt =====
-- The form of a connection at small inputs.
use mathlib.Core.Option
use tio.Common.{
  ◌≡◌, refl, ap, sym, ℕ, true, false, List, [], ◌∷◌, Option, none, some, String, is_some,
}
use tio.Config.{Config, Properties, get_default_form}
use tio.Store.{ConnectionsCodec}
use tio.Delegate.{Client}
use tio.UseMqtt.{World}
use tio.ConnForm.{edit_form, handle_ssl, is_duplicate, filter_username, suggest, Thing}
use tio.ConnForm.Connect.{updated, handle_connect, set_outcome}
use tio.ConnForm.Laws.{handle_connect-edit_form}
use tio.ConnForm.Names.{DistinctNames, handle_connect-DistinctNames}
use tio.ConnForm.Trial.{Event, asked, online, success, closed, ended}

abbrev no_properties : Properties
no_properties = []

abbrev default_form : Config
default_form = get_default_form "localhost" "http:" "now"

abbrev server : Config
server = record default_form {
  id = "c";
  name = "one";
  username = "$user";
  client_id = "mine";
  properties = some no_properties;
}

abbrev lamp : Config
lamp = record default_form { id = "d"; name = "two"; userrole = "thing"; username = "lamp" }

abbrev fresh : Client
fresh = record {
  connected = false;
  connecting = false;
  reconnecting = false;
  disconnecting = false;
}

abbrev codec : ConnectionsCodec
codec = record { stringify = λ cs. "[..]"; parse = λ s. none }

abbrev world : World String
world = record {
  mqtt = record {
    connection_configs = server ∷ lamp ∷ [];
    current_conn_id = none;
    delegate_shared_states = [];
    connecting = false;
    retry_times = 0;
    auto_resub = true;
  };
  storage = [];
  delegates = [];
  log = [];
}

taken : is_duplicate false "one" "two" (server ∷ lamp ∷ []) ≡ true
taken = refl

unchanged : is_duplicate false "one" "one" (server ∷ lamp ∷ []) ≡ false
unchanged = refl

secure : (handle_ssl true server).protocol ≡ "wss"
secure = refl

abbrev thing : Thing
thing = record { thing_id = "lamp"; auth_value = "secret" }

suggested : filter_username (λ s. s) none "am" (thing ∷ []) ≡ suggest thing ∷ []
unfolding tio.Common.includes tio.Common.starts_with
suggested = refl

handle_connect-edit_form_example :
    handle_connect false false "then" (edit_form none "1" 8083 server default_form)
    ≡ updated "c" (record server { update_at = "then"; client_id = "$user_1" })
handle_connect-edit_form_example =
    handle_connect-edit_form "1" "then" 8083 server default_form no_properties refl refl refl refl

abbrev renamed : Config
renamed = record server { name = "three" }

handle_connect-DistinctNames_example :
    DistinctNames
      (set_outcome codec fresh "e"
        (handle_connect false false "now" renamed)
        world).0.mqtt.connection_configs
handle_connect-DistinctNames_example =
    handle_connect-DistinctNames codec fresh "e" "one" world false "now" renamed
      (λ f d e. ap (λ c. c.name) (sym (Option.some-injective server d e))) refl (refl, (refl, tt))

abbrev events : List Event
events = asked ∷ online ∷ success "n" ∷ ended ∷ closed ∷ asked ∷ []
