-- ===== src/SubsList.antt =====
-- The subscriptions of the selected connection (web/src/components/mqtt/Subcriptions.vue). The
-- configuration that the component is given is the store's own: what the code writes into it stands in
-- the store at once, and in the browser's storage once it is set. A function that hands over to the
-- client has another that runs when the client answers. Reading the subscriptions of a configuration
-- that has none throws, and ends the function.
pub mod Actions
pub mod Laws
pub mod Edit
pub mod Stored
pub mod Distinct
mod Tests
use tio.Common.{
  ℕ, Bool, true, false, not, ◌&&◌, ◌||◌, List, [], ◌∷◌, ◌++◌, Option, none, some, String, ◌==◌, map,
  find, any, is_some, or_else, if◌then◌else◌,
}
use tio.Common.Dict.{Dict, get}
use tio.Json.{Json, Fields, obj, end, field}
use tio.Config.{Config}
use tio.Session.{truthy}
use tio.Subs.{SubConfig, is_subscribed}
use tio.Notify.{Notice, notify_fail, notify_done}
use tio.Store.{ConnectionsCodec}
use tio.Layout.{SubsForm, hidden_subs_form}
use tio.Delegate.{Client, Shown}
use tio.Delegate.Subscribe.{Topics}
use tio.UseMqtt.{World, replace_config, set_conn_config, subscribed_config, remove_topic}
use tio.UseMqtt.Calls.{selected_conn, subscribe, unsubscribe}
use tio.SubsForm.{Form}

pub record Row : Type 0 where
  pub sub : SubConfig Json
  pub subscribed : Bool

-- The component's state with what it changes outside: the world of connections, the form of the
-- layout, and the notices shown.
pub record State (P : Type 0) : Type 0 where
  pub world : World P
  pub form : SubsForm
  pub subscriptions : List Row
  pub loading : Bool
  pub notices : List Notice

abbrev pub conflict : Notice
conflict = record {
  title = "Conflict";
  message = "The subscription with same topic already exists";
  kind = "";
}

abbrev pub row_of : Dict Bool → SubConfig Json → Row
row_of subscribed s = record { sub = s; subscribed = is_subscribed subscribed s.topic }

-- `rows.sort(…)`, which is stable, by the comparison of the source.
abbrev pub insert_row : Row → List Row → List Row
insert_row r [] = r ∷ []
insert_row r (s ∷ rows) =
    let rest = insert_row r rows in
    if s.subscribed && not r.subscribed then s ∷ rest else r ∷ s ∷ rows

abbrev pub sort_rows : List Row → List Row
sort_rows [] = []
sort_rows (r ∷ rows) = insert_row r (sort_rows rows)

abbrev pub has_sub_id : String → SubConfig Json → Bool
has_sub_id id s = s.id == id

-- `subs.splice(subs.findIndex(s => s.id === id), 1)`, where there is such a subscription.
abbrev pub remove_sub : String → List (SubConfig Json) → List (SubConfig Json)
remove_sub id [] = []
remove_sub id (s ∷ subs) = if s.id == id then subs else s ∷ remove_sub id subs

-- What `submitForm` writes into the subscription with an identifier.
abbrev pub edit_sub :
    (id name topic : String) → Json → List (SubConfig Json) → List (SubConfig Json)
edit_sub id name topic opts [] = []
edit_sub id name topic opts (s ∷ subs) =
    let rest = edit_sub id name topic opts subs in
    if s.id == id then record s { name = name; topic = topic; opts = opts } ∷ subs else s ∷ rest

abbrev pub field_if : String → Option Json → Fields → Fields
field_if k none fs = fs
field_if k (some v) fs = if truthy v then field k v fs else fs

abbrev pub properties_if : Option Json → Fields
properties_if none = end
properties_if (some v) =
    if truthy v then field "properties" (obj (field "subscriptionIdentifier" v end)) end else end

abbrev qos_field : Option Json → Fields → Fields
qos_field none fs = fs
qos_field (some qos) fs = field "qos" qos fs

-- The options of what the form gives.
abbrev pub opts_of : Form → Json
opts_of f = obj (
    qos_field f.qos (
      field_if "nl" f.nl
        (field_if "rap" f.rap (field_if "rh" f.rh (properties_if f.subscription_identifier)))))

abbrev pub is_conflict : Form → List (SubConfig Json) → Bool
is_conflict form subs = elim (find (λ s. s.topic == form.topic) subs) [
  | none ↦ false
  | some s ↦ form.id == "" || not (form.id == s.id)
]

abbrev pub form_id : SubsForm → Option String
form_id form = elim form.subscription [ none ↦ none | some s ↦ some s.id ]

abbrev pub is_id : String → Option String → Bool
is_id id none = false
is_id id (some other) = id == other

abbrev pub handle_toggle_filter : (filter_topic : String) → Row → String
handle_toggle_filter filter_topic row = if filter_topic == row.sub.topic then "" else row.sub.topic

-- The configuration without a subscription.
abbrev pub without_sub : String → Config → List (SubConfig Json) → Config
without_sub id config subs = record config { subscriptions = some (remove_sub id subs) }

-- The configuration with one subscription edited.
abbrev pub edited : Form → Config → List (SubConfig Json) → Config
edited f config subs = record config {
  subscriptions = some (edit_sub f.id f.name f.topic (opts_of f) subs);
}
