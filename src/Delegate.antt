-- ===== src/Delegate.antt =====
-- The class `MqttDelegate` (web/src/utils/MqttDelegate.js): the client of one connection, with its
-- subscriptions and messages. A method takes the delegate, and what it reads of the store, to the
-- delegate and its effects in their order: calls of the library's client, of the store and of
-- callbacks. A callback that the class hands to the client is a function of its own, which runs when
-- the client calls it. What is dispatched to the store is the delegate's value at that time.
pub mod State
pub mod Publish
pub mod Subscribe
pub mod Events
mod Tests
pub use State.*
use tio.Common.{
  ℕ, suc, Bool, true, false, not, ◌&&◌, ◌||◌, [], ◌∷◌, ◌++◌, List, Option, none, some, String, ◌==◌,
  is_some, ltb, if◌then◌else◌,
}
use tio.Common.Dict.{Dict, put, del}
use tio.Json.{Json}
use tio.Config.{Config}
use tio.Notify.{Notice, notify_fail, notify_warn, notify_done}

module _ {P : Type 0} where
  unfoldable pub new_delegate : Config → Delegate P
  new_delegate c = record {
    id = c.id;
    role = c.userrole;
    thing_id = if c.userrole == "thing" then c.username else "+";
    client = none;
    retry_times = 0;
    subs = [];
    messages = [];
    unread_message_count = 0;
    received_msg_type = "Plaintext";
    token = "";
  }

  abbrev pub is_connected : Delegate P → Bool
  is_connected d = elim d.client [ none ↦ false | some c ↦ c.connected ]

  abbrev pub is_connecting_or_disconnecting : Delegate P → Bool
  is_connecting_or_disconnecting d = elim d.client [
    | none ↦ false
    | some c ↦ c.connecting || c.reconnecting || c.disconnecting
  ]

  abbrev pub is_conn_active : Delegate P → Bool
  is_conn_active d = elim d.client [
    | none ↦ false
    | some c ↦ c.connected || c.connecting || c.reconnecting || c.disconnecting
  ]

  abbrev pub is_active : View → Delegate P → Bool
  is_active v d = v.active_tool_key == "mqtt" && id_is d.id v.current_conn_id

  -- Without an argument, or with an empty one, the role decides.
  abbrev pub is_client_of_thing : Option String → Delegate P → Bool
  is_client_of_thing none d = d.role == "thing"
  is_client_of_thing (some thing_id) d =
      if d.role == "thing" && not (thing_id == "")
      then d.thing_id == thing_id
      else d.role == "thing"

  abbrev pub is_of_current_thing : View → Delegate P → Bool
  is_of_current_thing v d = elim v.current_thing_id [
    | none ↦ false
    | some t ↦ if t == "" then false else is_client_of_thing (some t) d
  ]

  abbrev pub shown : Delegate P → Client → Shown P
  shown d c = record {
    client = c;
    subs = d.subs;
    messages = d.messages;
    unread_message_count = d.unread_message_count;
    received_msg_type = d.received_msg_type;
  }

  -- The effect of `updateStore`; without a client it shows one that is not connected.
  unfoldable pub update_store : Delegate P → Effect P
  update_store d = elim d.client [
    | none ↦ update_states d.id none
    | some c ↦ update_states d.id (some (shown d c))
  ]

  abbrev pub update_if_seen : View → Delegate P → List (Effect P)
  update_if_seen v d = if is_active v d || is_of_current_thing v d then update_store d ∷ [] else []

  unfoldable pub remove_topic : View → String → Delegate P → Step P
  remove_topic v topic d =
      let d' = record d { subs = del topic d.subs } in (d', update_if_seen v d')

  -- The callback handed to `disconnect`, and what `connect` does in it. `fresh` is the client that
  -- the library creates.
  unfoldable pub run_after : Client → After → Option String → Delegate P → Step P
  run_after fresh nothing err d = (d, [])
  run_after fresh forget err d = (d, delete_delegate d.id ∷ [])
  run_after fresh (connect_with config token) (some err) d =
      (d, notify (notify_fail "Connect Failure") ∷ [])
  run_after fresh (connect_with config token) none d = (
    record d { retry_times = 0; client = some fresh; token = token },
    set_connecting 0 ∷ create_client config ∷ [],
  )
  run_after fresh give_up err d =
      let d' = record d { retry_times = 0 } in (d', update_store d' ∷ [])

  abbrev update_or_after : Client → After → Delegate P → Step P
  update_or_after fresh nothing d = (d, update_store d ∷ [])
  update_or_after fresh after d = run_after fresh after none d

  -- The callback of `client.end`.
  unfoldable pub on_ended : Client → After → Option String → Delegate P → Step P
  unfolding run_after
  on_ended fresh after (some err) d = run_after fresh after (some err) d
  on_ended fresh after none d =
      update_or_after fresh after (record d { retry_times = 0; subs = [] })

  unfoldable pub disconnect : Client → After → Delegate P → Step P
  unfolding run_after
  disconnect fresh after d = elim d.client [
    | some c ↦ (d, client_end after ∷ [])
    | none ↦ run_after fresh after none d
  ]

  abbrev pub destroy : Client → Delegate P → Step P
  destroy fresh = disconnect fresh forget

  abbrev pub cancel : Client → Delegate P → Step P
  cancel fresh = disconnect fresh nothing

  abbrev pub connect : Client → Config → String → Delegate P → Step P
  connect fresh config token = disconnect fresh (connect_with config token)

  abbrev thing_event_if : Delegate P → String → About → List (Effect P)
  thing_event_if d type about =
      if is_client_of_thing none d then thing_event d.thing_id type about ∷ [] else []

  -- The handler of "connect"; the token is handed on once.
  unfoldable pub onconnect : Config → Delegate P → Step P
  onconnect config d = (
    record d { token = "" },
    notify (notify_done "Connected")
        ∷ update_store d
        ∷ thing_event_if d "mqtt-connected" (connected_with config d.token),
  )

  unfoldable pub onreconnect : Client → Delegate P → Step P
  unfolding disconnect
  onreconnect fresh d =
      if ltb d.retry_times 3
      then (
        record d { retry_times = suc d.retry_times },
        set_connecting (suc d.retry_times) ∷ notify (notify_warn "reconnecting...") ∷ [],
      )
      else disconnect fresh give_up d

  unfoldable pub onerror : Option String → Delegate P → Step P
  onerror err d = (
    d,
    notify (notify_fail (elim err [ none ↦ "Connection encounter error" | some e ↦ e ]))
        ∷ update_store d
        ∷ [],
  )

  unfoldable pub onclose : Option String → Delegate P → Step P
  onclose reason d =
      (d, (elim reason [ none ↦ [] | some r ↦ notify (notify_fail r) ∷ [] ]) ++ update_store d ∷ [])

  unfoldable pub onend : Delegate P → Step P
  onend d = (
    d,
    update_store d ∷ thing_event_if d "mqtt-disconnected" disconnected
        ++ notify (notify_done "Disconnected") ∷ [],
  )

  -- `this.a += 1` writes a property that nothing reads.
  unfoldable pub push : View → Message P → Delegate P → Step P
  push v m d =
      let d' = record d {
        messages = d.messages ++ m ∷ [];
        unread_message_count =
            if not (is_active v d) && not m.out then d.unread_message_count else 0;
      } in
      (
        d',
        update_if_seen v d'
            ++ thing_event (if is_client_of_thing none d then d.thing_id else "*")
                (if m.out then "message-out" else "message-in") (of_topic m.topic)
              ∷ [],
      )

  unfoldable pub clear : View → Delegate P → Step P
  clear v d = let d' = record d { messages = [] } in (d', update_if_seen v d')

  abbrev pub read : Delegate P → Delegate P
  read d = record d { unread_message_count = 0 }
