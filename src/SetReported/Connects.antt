-- ===== src/SetReported/Connects.antt =====
-- That agreeing to connect (web/src/components/thing/ShadowData.vue) leads to the form, through the
-- delegate (web/src/utils/MqttDelegate.js) and the event that it sends.
use tio.Common.{◌≡◌, false, List, [], ◌∷◌, Option, none, some, String}
use tio.Config.{Config}
use tio.Delegate.{Client, Delegate, Effect, on_ended, connect as connect_client_of}
use tio.Delegate.State.{thing_event, connect_with}
use tio.UseMqtt.{World, connect, run_method, run_effects}
use tio.SetReported.{State, connect_client, confirmed, on_status_change}

module _ {P : Type 0} (fresh : Client) where
  -- Effects that leave the registry alone.
  abbrev IsQuiet : List (Effect P) → Type 0
  IsQuiet es = (w : World P) → (run_effects es w).delegates ≡ w.delegates

  -- Effects that end the state of connecting.
  abbrev IsSettling : List (Effect P) → Type 0
  IsSettling es = (w : World P) → (run_effects es w).mqtt.connecting ≡ false

  -- The answer of the client that is ended before a new one is made, where there was one.
  abbrev ended_with : Config → (token : String) → Option Client → World P → World P
  ended_with c token none w = w
  ended_with c token (some k) w = run_method c.id (on_ended fresh (connect_with c token) none) w

  -- A delegate with a new client, which has the token and is still the same thing's.
  pub record IsReady (token : String) (d d' : Delegate P) : Type 0 where
    pub client : d'.client ≡ some fresh
    pub token_kept : d'.token ≡ token
    pub role : d'.role ≡ d.role
    pub thing_id : d'.thing_id ≡ d.thing_id

module _ {P : Type 0} (fresh : Client) (thing_id client_token : String) where
  -- The view hears the events of things among the effects.
  abbrev pub heard : List (Effect P) → State P → State P
  heard [] st = st
  heard (thing_event id type about ∷ es) st =
      heard es (on_status_change fresh thing_id client_token id type about st)
  heard (_ ∷ es) st = heard es st

  -- The state once the user has agreed to connect, and an old client of the delegate has ended.
  abbrev pub agreed : (token : String) → Config → Delegate P → State P → State P
  agreed token c d st =
      let st' = confirmed fresh thing_id token (connect_client c) st in
      record st' { world = ended_with fresh c token d.client st'.world }
