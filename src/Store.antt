-- ===== src/Store.antt =====
-- The store's modules (web/src/store): their states, mutations and actions. Each mutation `setState`
-- assigns the fields of its payload and is written as a record update. The browser's storage is the
-- dictionary of texts `Storage`; `JSON.stringify` and `JSON.parse` of the connections are a codec.
pub mod Laws
mod Tests
use tio.Common.{
  ℕ, suc, Bool, true, false, [], ◌∷◌, List, Option, none, some, String, ◌==◌, find, or_else,
  if◌then◌else◌,
}
use tio.Common.Dict.{Dict, get, put, del}
use tio.Config.{Config}
use tio.Json.{Json}
use tio.Subs.{SubConfig}

abbrev pub Storage : Type 0
Storage = Dict String

-- `localStorage.getItem(key) || d`, where an empty text counts as missing
abbrev pub get_item : String → String → Storage → String
get_item key d s = let v = or_else (get key s) "" in if v == "" then d else v

-- mqtt.ts -----------------------------------------------------------------------------------------

pub record ConnectionsCodec : Type 0 where
  pub stringify : List Config → String
  pub parse : String → Option (List Config)

abbrev pub connections_key : String
connections_key = "$tiopg/mqtt/connections"

-- `storeConnections`, for an array.
abbrev pub store_connections : ConnectionsCodec → List Config → Storage → Storage
store_connections codec connections s = put connections_key (codec.stringify connections) s

-- `restoreConnections`; the text of an empty array stands for a missing entry.
abbrev pub restore_connections : ConnectionsCodec → Storage → List Config
restore_connections codec s = or_else (codec.parse (get_item connections_key "[]" s)) []

-- What the store shows of the state of a connection's client. `A` is the type of what a delegate
-- shows besides: its subscriptions and messages.
pub record Shared {ℓ} (A : Type ℓ) : Type ℓ where
  pub id : String
  pub connected : Bool
  pub shown : Option A

pub record MqttState {ℓ} (A : Type ℓ) : Type ℓ where
  pub connection_configs : List Config
  pub current_conn_id : Option String
  pub delegate_shared_states : Dict (Shared A)
  pub connecting : Bool
  pub retry_times : ℕ
  pub auto_resub : Bool

abbrev pub first_id : List Config → Option String
first_id [] = none
first_id (c ∷ cs) = some c.id

module _ {ℓ} {A : Type ℓ} where
  abbrev pub not_connected : String → Shared A
  not_connected id = record { id = id; connected = false; shown = none }

  pub initial_shared : Dict (Shared A) → List Config → Dict (Shared A)
  initial_shared m [] = m
  initial_shared m (c ∷ cs) = initial_shared (put c.id (not_connected c.id) m) cs

  unfoldable pub initial_state : ConnectionsCodec → Storage → MqttState A
  unfolding initial_shared
  initial_state codec s =
      let configs = restore_connections codec s in
      record {
        connection_configs = configs;
        current_conn_id = first_id configs;
        delegate_shared_states = initial_shared [] configs;
        connecting = false;
        retry_times = 0;
        auto_resub = true;
      }

  -- The action `updateConnConfigs`; the browser's storage changes with the state.
  unfoldable pub update_conn_configs :
      ConnectionsCodec → List Config → MqttState A → Storage → MqttState A × Storage
  update_conn_configs codec configs st s =
      (record st { connection_configs = configs }, store_connections codec configs s)

  -- The action `updateDelegateStates`, for a payload and for one with `forDelete`.
  unfoldable pub update_delegate_states : Shared A → MqttState A → MqttState A
  update_delegate_states payload st = record st {
    delegate_shared_states = put payload.id payload st.delegate_shared_states;
    connecting = false;
    retry_times = 0;
  }

  unfoldable pub delete_delegate_states : String → MqttState A → MqttState A
  delete_delegate_states id st = record st {
    delegate_shared_states = del id st.delegate_shared_states;
    connecting = false;
    retry_times = 0;
  }

-- app.ts ------------------------------------------------------------------------------------------

-- `error` is a code and a message.
pub record HttpRequestLog : Type 0 where
  pub error : Option (String × String)
  pub time : String
  pub method : String
  pub url : String
  pub req_data : Option Json
  pub res_data : Json

-- `Thing` and `Shadow` are the types of what the server sends.
pub record AppState (Thing Shadow : Type 0) : Type 0 where
  pub tio_config : Option Json
  pub things : List Thing
  pub shadow_list_update_tag : ℕ
  pub current_shadow : Option Shadow
  pub http_request_logs : List HttpRequestLog

module _ {Thing Shadow : Type 0} where
  abbrev pub initial_app : AppState Thing Shadow
  initial_app = record {
    tio_config = none;
    things = [];
    shadow_list_update_tag = 0;
    current_shadow = none;
    http_request_logs = [];
  }

  -- The newest request stands first.
  abbrev pub add_req_log : HttpRequestLog → AppState Thing Shadow → AppState Thing Shadow
  add_req_log l st = record st { http_request_logs = l ∷ st.http_request_logs }

  abbrev pub set_tio_config : Json → AppState Thing Shadow → AppState Thing Shadow
  set_tio_config config st = record st { tio_config = some config }

-- user.ts -----------------------------------------------------------------------------------------

abbrev pub auth_key : String
auth_key = "$tiopg/user/auth"

pub record UserState : Type 0 where
  pub auth : String

abbrev pub initial_user : Storage → UserState
initial_user s = record { auth = get_item auth_key "" s }
