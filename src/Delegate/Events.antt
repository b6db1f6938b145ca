-- ===== src/Delegate/Events.antt =====
-- The life of a delegate (web/src/utils/MqttDelegate.js): every call of a method, and every answer of
-- the client, as one event, in whatever order they come.
pub mod Laws
use tio.Common.{ℕ, Bool, true, false, [], ◌∷◌, List, Option, none, some, String}
use tio.Common.Dict.{Dict}
use tio.Json.{Json}
use tio.Config.{Config}
use tio.Client.{Codec, Payload}
use tio.Delegate.{
  Client, PubOpts, After, Delegate, Effect, View, Step, new_delegate, remove_topic, on_ended,
  destroy, cancel, connect, onconnect, onreconnect, onerror, onclose, onend, clear, read,
  update_store,
}
use tio.Delegate.Publish.{pub_message, onmessage, on_published}
use tio.Delegate.Subscribe.{Topics, sub, on_subscribed, unsub, on_unsubscribed}

pub data Event (B : Type 0) : Type 0 where
  -- methods
  call_destroy call_cancel call_clear call_read call_update_store : Event B
  call_connect : Config → (token : String) → Event B
  call_remove_topic : String → Event B
  call_pub : (topic : String) (paytype : Option String) → Payload B → PubOpts → Event B
  call_sub : Topics → Option Json → Event B
  call_unsub : List String → Event B
  -- answers and events of the client
  ended : After → (err : Option String) → Event B
  connected_event : Config → Event B
  reconnect_event end_event : Event B
  error_event close_event : Option String → Event B
  message_event : (id now topic : String) → Payload B → PubOpts → Event B
  published :
      (has_cb : Bool) (now topic : String) → Payload B → PubOpts → (err : Option String) → Event B
  subscribed : Topics → (has_cb : Bool) (err : Option String) (granted : Option (List ℕ)) → Event B
  unsubscribed : List String → (has_cb : Bool) (err : Option String) → Event B
  -- the client's flags change
  client_changes : Client → Event B

module _ (codec : Codec) (fresh : Client) where
  abbrev D : Type 0
  D = Delegate (Payload codec.Bytes)

  -- An exception leaves the delegate as it is.
  abbrev or_same : D → Option (Step (Payload codec.Bytes)) → Step (Payload codec.Bytes)
  or_same d none = (d, [])
  or_same d (some s) = s

  unfoldable pub handle :
      View → Event codec.Bytes → Delegate (Payload codec.Bytes) → Step (Payload codec.Bytes)
  handle v call_destroy d = destroy fresh d
  handle v call_cancel d = cancel fresh d
  handle v call_clear d = clear v d
  handle v call_read d = (read d, [])
  handle v call_update_store d = (d, update_store d ∷ [])
  handle v (call_connect config token) d = connect fresh config token d
  handle v (call_remove_topic topic) d = remove_topic v topic d
  handle v (call_pub topic paytype payload opts) d = pub_message codec topic paytype payload opts d
  handle v (call_sub topics opts) d = sub topics opts d
  handle v (call_unsub topics) d = unsub topics d
  handle v (ended after err) d = on_ended fresh after err d
  handle v (connected_event config) d = onconnect config d
  handle v reconnect_event d = onreconnect fresh d
  handle v end_event d = onend d
  handle v (error_event err) d = onerror err d
  handle v (close_event reason) d = onclose reason d
  handle v (message_event id now topic payload packet) d =
      or_same d (onmessage codec v id now topic payload packet d)
  handle v (published has_cb now topic payload opts err) d =
      on_published v has_cb now topic payload opts err d
  handle v (subscribed topics has_cb err granted) d = on_subscribed topics has_cb err granted d
  handle v (unsubscribed topics has_cb err) d = on_unsubscribed topics has_cb err d
  handle v (client_changes c) d = (record d { client = some c }, [])

  -- What a delegate can become, from its creation for a configuration.
  pub data Reach (config : Config) : Delegate (Payload codec.Bytes) → Type 0 where
    created : Reach config (new_delegate config)
    next :
        {d : Delegate (Payload codec.Bytes)} (v : View) (e : Event codec.Bytes)
        → Reach config d
        → Reach config (handle v e d).0
