-- ===== src/UseMqtt/Calls.antt =====
-- The calls of the composable that hand over to a delegate, and what components read of connections
-- (`publish`, `subscribe`, `unsubscribe`, `connections` and `selectedConn` of
-- web/src/reactives/useMqtt.js). What `publish` and `subscribe` do later, once the client has
-- answered, is `published_config` and `subscribed_config`.
pub mod Laws
use tio.Common.{Bool, [], ◌∷◌, List, map, Option, none, some, String, ◌==◌, if◌then◌else◌}
use tio.Common.Dict.{get}
use tio.Json.{Json}
use tio.Config.{Config}
use tio.Client.{Codec, Payload}
use tio.Store.{Shared}
use tio.Delegate.{Client, Shown, PubOpts}
use tio.Delegate.Publish.{pub_message}
use tio.Delegate.Subscribe.{Topics, sub, unsub}
use tio.UseMqtt.{World, with_delegate, get_conn_config}

-- The options of a map of topics stand in the map.
abbrev pub opts_for : Topics → Option Json → Option Json
opts_for (Topics.map m) opts = none
opts_for topics opts = opts

module _ {P : Type 0} where
  abbrev shared_of : String → World P → Option (Shared (Shown P))
  shared_of id w = get id w.mqtt.delegate_shared_states

  -- Each configuration with what the store shows of its connection.
  unfoldable pub connections : World P → List (Config × Option (Shared (Shown P)))
  connections w = map (λ c. (c, shared_of c.id w)) w.mqtt.connection_configs

  unfoldable pub selected_conn : World P → Option (Option Config × Option (Shared (Shown P)))
  selected_conn w = elim w.mqtt.current_conn_id [
    | none ↦ none
    | some id ↦ if id == "" then none else some (get_conn_config id w, shared_of id w)
  ]

  module _ (fresh : Client) where
    unfoldable pub subscribe : Config → Topics → Option Json → World P → World P
    subscribe config topics opts w =
        with_delegate fresh config (sub topics (opts_for topics opts)) w

    unfoldable pub unsubscribe : Config → List String → World P → World P
    unsubscribe config [] w = w
    unsubscribe config (t ∷ topics) w = with_delegate fresh config (unsub (t ∷ topics)) w

module _ (codec : Codec) (fresh : Client) where
  unfoldable pub publish :
      Config
      → (topic : String) (paytype : Option String) (payload : Payload codec.Bytes) → PubOpts
      → World (Payload codec.Bytes)
      → World (Payload codec.Bytes)
  publish config topic paytype payload opts w =
      with_delegate fresh config (pub_message codec topic paytype payload opts) w
