-- ===== src/ThingView.antt =====
-- The view of one thing (web/src/components/views/Thing.vue): when it asks for the thing's shadow
-- again, and the way back. The server's answers are arguments.
pub mod Laws
mod Tests
use tio.Common.{
  Bool, true, false, ◌||◌, Option, none, some, String, ◌==◌, ◌+++◌, starts_with, if◌then◌else◌,
}
use tio.Store.{AppState}
use tio.Things.{set_current_shadow, update_current_shadow}
use tio.Delegate.State.{About, connected_with, disconnected, of_topic}

pub data Way : Type 0 where
  back : Way
  replace : String → Way

module _ {T S : Type 0} where
  abbrev pub handle_back_to_list : (is_from_list : Bool) → AppState T S → Way × AppState T S
  handle_back_to_list is_from_list st =
      (if is_from_list then back else replace "/", set_current_shadow none st)

-- The prefix of a thing's topics.
abbrev pub things_prefix : String → String
things_prefix thing_id = "$iothub/things/" +++ (thing_id +++ "/")

-- The topic that an event is about; without one the code throws.
abbrev is_below : String → About → Bool
is_below thing_id (connected_with config token) = false
is_below thing_id disconnected = false
is_below thing_id (of_topic topic) = starts_with topic (things_prefix thing_id)

-- Whether an event makes the view ask for the shadow.
abbrev pub is_update : (thing_id event_thing_id type : String) → About → Bool
is_update thing_id event_thing_id type about =
    if event_thing_id == thing_id
    then type == "mqtt-connected"
      || type == "mqtt-disconnected"
      || type == "message-out"
      || type == "message-in"
    else if event_thing_id == "*"
    then (if type == "message-out" then is_below thing_id about else false)
    else false

module _ {T S : Type 0} where
  abbrev pub on_status_change :
      (thing_id event_thing_id type : String)
      → About
      → (String → Option S)
      → AppState T S
      → AppState T S
  on_status_change thing_id event_thing_id type about server st =
      if is_update thing_id event_thing_id type about
      then update_current_shadow (some thing_id) server st
      else st

  -- `from_list` is what `shadow.fromList` says; the answer is `isFromList`.
  abbrev pub on_mounted :
      (from_list : Bool) → Option String → (String → Option S) → AppState T S → Bool × AppState T S
  on_mounted from_list thing_id server st = (from_list, update_current_shadow thing_id server st)
