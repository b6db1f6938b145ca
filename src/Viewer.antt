-- ===== src/Viewer.antt =====
-- The events of things as components hear them (web/src/reactives/useThingEvent.js,
-- `notifyThingStateChange` of web/src/utils/event.js), and the state of the viewer of objects
-- (web/src/reactives/useObjectViewer.js).
use tio.Common.{Bool, true, false, List, [], ◌∷◌, ◌++◌, Option, none, some, String, if◌then◌else◌}

-- The detail of an event; `about` is its subject, `none` for null.
pub record ThingEvent (A : Type 0) : Type 0 where
  pub timestamp : String
  pub thing_id : String
  pub type : String
  pub about : Option A

abbrev pub notify_thing_state_change :
    {A : Type 0} → (now thing_id : String) (type : Option String) (about : Option A) → ThingEvent A
notify_thing_state_change now thing_id type about = record {
  timestamp = now;
  thing_id = thing_id;
  type = elim type [ none ↦ "not-specified" | some t ↦ t ];
  about = about;
}

-- A component's callbacks, over a state `S`, and whether it listens.
pub record Listener (A S : Type 0) : Type 0 where
  pub callbacks : List (ThingEvent A → S → S)
  pub is_listening : Bool

module _ {A S : Type 0} where
  abbrev pub new_listener : Listener A S
  new_listener = record { callbacks = []; is_listening = false }

  -- With a function; anything else is ignored.
  abbrev pub on_something_status_change :
      Option (ThingEvent A → S → S) → Listener A S → Listener A S
  on_something_status_change none l = l
  on_something_status_change (some cb) l = record l { callbacks = l.callbacks ++ cb ∷ [] }

  abbrev pub on_mounted : Listener A S → Listener A S
  on_mounted l = record l { is_listening = true }

  abbrev pub on_unmounted : Listener A S → Listener A S
  on_unmounted l = record { callbacks = []; is_listening = false }

  abbrev pub call_all : List (ThingEvent A → S → S) → ThingEvent A → S → S
  call_all [] e s = s
  call_all (cb ∷ cbs) e s = call_all cbs e (cb e s)

  -- What an event does to the state of the component.
  abbrev pub dispatch : ThingEvent A → Listener A S → S → S
  dispatch e l s = if l.is_listening then call_all l.callbacks e s else s

-- The object that is viewed, `none` for null.
pub record Viewer (V : Type 0) : Type 0 where
  pub object_to_be_view : Option V
  pub title_of_viewer : String
  pub view_object_as_tree : Bool

module _ {V : Type 0} where
  abbrev pub no_object : Viewer V
  no_object = record { object_to_be_view = none; title_of_viewer = ""; view_object_as_tree = false }

  abbrev pub view_object : Option V → (type : String) (as_tree : Bool) → Viewer V → Viewer V
  view_object obj type as_tree v = record {
    object_to_be_view = obj;
    title_of_viewer = type;
    view_object_as_tree = as_tree;
  }

  abbrev pub handle_close_viewer : Viewer V → Viewer V
  handle_close_viewer v = no_object
