-- ===== src/Delegate/State.antt =====
-- The state of a delegate (web/src/utils/MqttDelegate.js): the client as the class sees it, messages,
-- and the effects of its methods.
use tio.Common.{ℕ, Bool, false, List, Option, none, some, String, ◌==◌}
use tio.Common.Dict.{Dict}
use tio.Json.{Json}
use tio.Config.{Config}
use tio.Notify.{Notice}

-- The flags of the library's client that the class reads.
pub record Client : Type 0 where
  pub connected : Bool
  pub connecting : Bool
  pub reconnecting : Bool
  pub disconnecting : Bool

-- The values of user properties: a text, or several.
pub data UserValue : Type 0 where
  one : String → UserValue
  many : List String → UserValue

-- The MQTT 5 properties of a message; `others` holds those that the class does not look at.
pub record MessageProps : Type 0 where
  pub user_properties : Option (Dict UserValue)
  pub topic_alias : Option ℕ
  pub others : Dict Json

pub record PubOpts : Type 0 where
  pub qos : ℕ
  pub retain : Bool
  pub properties : Option MessageProps

-- A message sent has no identifier. `P` is the type of payloads.
pub record Message (P : Type 0) : Type 0 where
  pub id : Option String
  pub out : Bool
  pub create_at : String
  pub topic : String
  pub payload : P
  pub opts : PubOpts

-- What the delegate shows in the store.
pub record Shown (P : Type 0) : Type 0 where
  pub client : Client
  pub subs : Dict Bool
  pub messages : List (Message P)
  pub unread_message_count : ℕ
  pub received_msg_type : String

-- `token` is the variable `connectedToken` of the handler that `connect` registers.
pub record Delegate (P : Type 0) : Type 0 where
  pub id : String
  pub role : String
  pub thing_id : String
  pub client : Option Client
  pub retry_times : ℕ
  pub subs : Dict Bool
  pub messages : List (Message P)
  pub unread_message_count : ℕ
  pub received_msg_type : String
  pub token : String

-- What is to follow once the client has ended: nothing, the end of the delegate, a new connection, or
-- the end of the retries.
pub data After : Type 0 where
  nothing : After
  forget : After
  connect_with : Config → String → After
  give_up : After

pub data About : Type 0 where
  connected_with : Config → String → About
  disconnected : About
  of_topic : String → About

pub data Effect (P : Type 0) : Type 0 where
  notify : Notice → Effect P
  update_states : String → Option (Shown P) → Effect P
  set_connecting : ℕ → Effect P
  thing_event : (thing_id type : String) → About → Effect P
  client_end : After → Effect P
  create_client : Config → Effect P
  delete_delegate : String → Effect P
  publish : String → P → PubOpts → Effect P
  subscribe : List String → Option Json → Effect P
  subscribe_map : Dict Json → Effect P
  unsubscribe : List String → Effect P
  callback : Option String → Effect P

-- What the class reads of the store.
pub record View : Type 0 where
  pub active_tool_key : String
  pub current_conn_id : Option String
  pub current_thing_id : Option String

abbrev pub id_is : String → Option String → Bool
id_is id none = false
id_is id (some j) = id == j

abbrev pub Step : Type 0 → Type 0
Step P = Delegate P × List (Effect P)
