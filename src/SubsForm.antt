-- ===== src/SubsForm.antt =====
-- The form of a subscription (web/src/components/mqtt/SubscriptionForm.vue). What it is shown for is
-- null for a new subscription, undefined where the caller gives none, or a subscription. A value that
-- is undefined is `none`. The library's check of the form is an argument.
mod Tests
use tio.Common.{
  ℕ, Bool, true, false, not, List, [], ◌∷◌, Option, none, some, String, ◌==◌, map, if◌then◌else◌,
}
use tio.Json.{Json, prop, is_null, null, num, obj, end, field, Fields}
use tio.Config.{Config}
use tio.Session.{truthy}
use tio.Subs.{SubConfig, Grouped, topics}

pub record Form : Type 0 where
  pub keep : Bool
  pub id : String
  pub topic : String
  pub qos : Option Json
  pub name : String
  pub subscription_identifier : Option Json
  pub nl : Option Json
  pub rap : Option Json
  pub rh : Option Json

abbrev pub init_model : Form
init_model = record {
  keep = false;
  id = "";
  topic = "";
  qos = some (num "0");
  name = "";
  subscription_identifier = none;
  nl = none;
  rap = none;
  rh = none;
}

pub data FormData : Type 0 where
  no_data : FormData
  undefined : FormData
  data_of : SubConfig Json → FormData

-- The subscription's topics that can be chosen, with their names.
abbrev pub topics_for : Option Config → List (String × String)
topics_for config = elim config [
  | none ↦ map (λ g. (g.topic.name, g.topic.topic_resolver "+")) topics.server_sub
  | some c ↦
      if c.userrole == "thing"
      then map (λ g. (g.topic.name, g.topic.topic_resolver c.username)) topics.thing_sub
      else map (λ g. (g.topic.name, g.topic.topic_resolver "+")) topics.server_sub
]

abbrev pub handle_select_topic : (name topic : String) → Form → Form
handle_select_topic name topic form = record form { name = name; topic = topic }

-- `value || undefined`
abbrev pub or_undefined : Option Json → Option Json
or_undefined none = none
or_undefined (some v) = if truthy v then some v else none

-- `value?.[k]`
abbrev pub prop? : String → Option Json → Option Json
prop? k none = none
prop? k (some null) = none
prop? k (some v) = prop k v

-- The form of a subscription whose options are not null.
abbrev pub edit_with : SubConfig Json → Form
edit_with s = record {
  keep = s.keep;
  id = s.id;
  topic = s.topic;
  qos = prop "qos" s.opts;
  name = s.name;
  nl = or_undefined (prop "qos" s.opts);
  rap = or_undefined (prop "qos" s.opts);
  rh = or_undefined (prop "qos" s.opts);
  subscription_identifier =
      or_undefined (prop? "subscriptionIdentifier" (prop "properties" s.opts));
}

-- The watch on the form's visibility and data: the new form, or `none` where it throws.
abbrev pub form_changed : (visible : Bool) → FormData → Form → Option Form
form_changed false shown_for form = some form
form_changed true no_data form = some init_model
form_changed true undefined form = some form
form_changed true (data_of s) form = if is_null s.opts then none else some (edit_with s)

-- `handleSubscribe`, by what the library's check answers, where it answers: what is emitted.
abbrev pub handle_subscribe : (valid : Option Bool) → Form → Option Form
handle_subscribe none form = none
handle_subscribe (some valid) form = if valid then some form else none
