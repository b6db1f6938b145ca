-- ===== src/PublishView/Laws.antt =====
-- What the form that publishes messages (web/src/components/mqtt/MqttPublish.vue) keeps, and what it
-- sends.
use tio.KeyValues.{Row, Editor, Model, undefined, null, object, delete_item}
use tio.Common.{
  map, ℕ, ◌≤◌, length, arith, ◌≡◌, ◌↔◌, subst, refl, sym, ap, ◌∙◌, ℕ, Bool, true, false, List, [],
  ◌∷◌, Option, none, some, String, ◌==◌, if◌then◌else◌, Bool-cases, inl, inr, or_else, eq_iff,
}
use mathlib.Core.Option
use tio.Json.{Json, Items, nil, item, str, arr}
use tio.Delegate.State.{UserValue, one, many}
use tio.Config.{Config, Will, Properties}
use tio.Session.{truthy}
use tio.PublishView.{
  MetaModel, Panel, new_panel, has_props, calc_has_props, kept_user_properties, value_or, saved,
  handle_save_meta, with_props, toggle_meta_form_visable, toggle_tpls_card_visable, lang_of,
  payload_type_watched, choose_payload_type, handle_select_topic, topic_changed, payload_changed,
  load_props, load_config, meta_form_shown, conn_config_changed, same_id, send,
}

-- What happens to the form: what the user does, and what the watches answer to.
pub data Event : Type 0 where
  meta_saved : MetaModel → Event
  meta_toggled : Event
  tpls_toggled : Event
  topic_selected : (topic : String) (paytype : Option String) (payload : String) → Event
  type_chosen : String → Event
  input : (topic payload : String) (qos : ℕ) (retain : Bool) → Event
  topic_given : Option String → Event
  payload_given : (paytype payload : Option String) → Event
  config_given : (config old : Option Config) → Event

abbrev or_same : Panel → Option Panel → Panel
or_same p none = p
or_same p (some p') = p'

abbrev pub handle : Event → Panel → Panel
handle (meta_saved m) p = or_same p (handle_save_meta m p)
handle meta_toggled p = toggle_meta_form_visable p
handle tpls_toggled p = toggle_tpls_card_visable p
handle (topic_selected topic paytype payload) p = handle_select_topic topic paytype payload p
handle (type_chosen paytype) p = choose_payload_type paytype p
handle (input topic payload qos retain) p = record p {
  topic = topic;
  payload = payload;
  qos = qos;
  retain = retain;
}
handle (topic_given topic) p = topic_changed topic p
handle (payload_given paytype payload) p = payload_changed paytype payload p
handle (config_given config old) p = conn_config_changed config old p

abbrev pub run : List Event → Panel → Panel
run [] p = p
run (e ∷ es) p = run es (handle e p)

-- The editor's language is that of the payload's type, and the form knows whether one of its MQTT 5
-- properties is set.
pub record IsInStep (p : Panel) : Type 0 where
  pub lang : p.payload_lang ≡ lang_of p.payload_type
  pub props : p.has_mqtt5_props ≡ has_props p.mqtt5_props

pub in_step :
    {p : Panel}
    → p.payload_lang ≡ lang_of p.payload_type
    → p.has_mqtt5_props ≡ has_props p.mqtt5_props
    → IsInStep p
in_step l h = record { lang = l; props = h }

if-IsInStep : (b : Bool) (p q : Panel) → IsInStep p → IsInStep q → IsInStep (if b then p else q)
if-IsInStep true p q h k = h
if-IsInStep false p q h k = k

watched-IsInStep :
    (old : String) (p : Panel)
    → (p.payload_type ≡ old → p.payload_lang ≡ lang_of p.payload_type)
    → p.has_mqtt5_props ≡ has_props p.mqtt5_props
    → IsInStep (payload_type_watched old p)
watched-IsInStep old p l h = elim (Bool-cases (p.payload_type == old)) [
  | inl e ↦ rw e (in_step (l ((eq_iff p.payload_type old).0 e)) h)
  | inr e ↦ rw e (in_step refl h)
]

load_props-IsInStep :
    (will : Option Will) (config : Config) (p : Panel)
    → IsInStep p
    → IsInStep (load_props will config p)
load_props-IsInStep none config p h = h
load_props-IsInStep (some will) config p h = (in_step h.lang refl)

load_config-IsInStep : (config : Config) (p : Panel) → IsInStep p → IsInStep (load_config config p)
load_config-IsInStep config p h = elim (Bool-cases (config.mqtt_version == "5.0")) [
  | inl e ↦ rw e (load_props-IsInStep config.will config _ (in_step h.lang h.props))
  | inr e ↦ rw e (in_step h.lang refl)
]

or_same-IsInStep :
    (m : MetaModel) (p : Panel) → IsInStep p → IsInStep (or_same p (handle_save_meta m p))
or_same-IsInStep m p h =
    elim m.user_properties
      as (λ u. IsInStep (or_same p (handle_save_meta (record m { user_properties = u }) p))) [
        | none ↦ h
        | some d ↦ (in_step h.lang refl)
      ]

handle-IsInStep : (e : Event) (p : Panel) → IsInStep p → IsInStep (handle e p)
handle-IsInStep (meta_saved m) p h = or_same-IsInStep m p h
handle-IsInStep meta_toggled p h = in_step h.lang h.props
handle-IsInStep tpls_toggled p h = in_step h.lang h.props
handle-IsInStep (topic_selected topic paytype payload) p h =
    elim (Bool-cases (or_else paytype "" == "")) [
      | inl e ↦ rw e (in_step h.lang h.props)
      | inr e ↦ rw e (watched-IsInStep p.payload_type _ (λ same. refl) h.props)
    ]
handle-IsInStep (type_chosen paytype) p h =
    watched-IsInStep p.payload_type _ (λ same. h.lang ∙ ap lang_of (sym same)) h.props
handle-IsInStep (input topic payload qos retain) p h = in_step h.lang h.props
handle-IsInStep (topic_given topic) p h = in_step h.lang h.props
handle-IsInStep (payload_given paytype payload) p h = elim (Bool-cases (or_else paytype "" == "")) [
  | inl e ↦
      rw e (watched-IsInStep p.payload_type _ (λ same. h.lang ∙ ap lang_of (sym same)) h.props)
  | inr e ↦ rw e (watched-IsInStep p.payload_type _ (λ same. refl) h.props)
]
handle-IsInStep (config_given none old) p h = h
handle-IsInStep (config_given (some config) old) p h =
    if-IsInStep (same_id config old) p (load_config config p) h (load_config-IsInStep config p h)

-- Whatever happens to a new form, its editor's language follows the payload's type and it knows
-- whether an MQTT 5 property is set, also when saving the properties or loading a configuration has
-- thrown.
pub run-IsInStep : (es : List Event) (p : Panel) → IsInStep p → IsInStep (run es p)
run-IsInStep [] p h = h
run-IsInStep (e ∷ es) p h = run-IsInStep es (handle e p) (handle-IsInStep e p h)

-- Whatever has happened to a new form, a message is sent with MQTT 5 properties exactly when one of
-- those that the form holds is set, and these are the properties sent.
pub run-send :
    (es : List Event) (config : Config)
    → (config.id == "") ≡ false
    → let p = run es new_panel in
      Option.map (Option.map (λ r. r.properties)) (send (some config) p)
      ≡ some (some (if has_props p.mqtt5_props then some p.mqtt5_props else none))
run-send es config h = rw (h, (run-IsInStep es new_panel (in_step refl refl)).props) refl

value_or_idempotent :
    (v other : Option Json)
    → value_or other other ≡ other
    → value_or (value_or v other) other ≡ value_or v other
value_or_idempotent none other h = h
value_or_idempotent (some v) other h = elim (Bool-cases (truthy v)) [
  | inl e ↦ rw e (rw e refl)
  | inr e ↦ rw e h
]

kept_idempotent :
    (m : Properties) → kept_user_properties (kept_user_properties m) ≡ kept_user_properties m
kept_idempotent m = elim (Bool-cases (calc_has_props m)) [
  | inl e ↦ rw e (rw e refl)
  | inr e ↦ rw e refl
]

saved-again :
    (d : Properties) (m : MetaModel)
    → saved (kept_user_properties d) (meta_form_shown (saved d m)) ≡ saved d m
saved-again d m =
    rw
      (
        kept_idempotent d,
        value_or_idempotent m.content_type none refl,
        value_or_idempotent m.payload_format_indicator (some (Json.bool false)) refl,
        value_or_idempotent m.message_expiry_interval none refl,
        value_or_idempotent m.response_topic none refl,
        value_or_idempotent m.correlation_data none refl,
      )
      refl

some_saved-again :
    (user : Option Properties) (m : MetaModel) (p p' : Panel)
    → handle_save_meta (record m { user_properties = user }) p ≡ some p'
    → handle_save_meta (meta_form_shown p'.mqtt5_props) p' ≡ some p'
some_saved-again none m p p' h = cc
some_saved-again (some d) m p p' h =
    subst (λ q. handle_save_meta (meta_form_shown q.mqtt5_props) q ≡ some q)
      (Option.some-injective _ _ h)
      (ap (λ s. some (with_props s (record p { is_meta_form_shown = false })))
        (saved-again d (record m { user_properties = some d })))

-- The properties that have been saved are saved again as they are, when the form of MQTT 5 properties
-- is shown for them.
pub handle_save_meta_again :
    (m : MetaModel) (p p' : Panel)
    → handle_save_meta m p ≡ some p'
    → handle_save_meta (meta_form_shown p'.mqtt5_props) p' ≡ some p'
handle_save_meta_again m p p' h = some_saved-again m.user_properties m p p' h

-- The user properties that the editor of keys and values has given to the form.
abbrev items_of : List String → Items
items_of [] = nil
items_of (v ∷ vs) = item (str v) (items_of vs)

abbrev as_property : String × UserValue → String × Option Json
as_property (key, one v) = (key, some (str v))
as_property (key, many vs) = (key, some (arr (items_of vs)))

abbrev pub given : Model → Option Properties
given undefined = none
given null = none
given (object o) = some (map as_property o)

deleted_iff :
    (index : ℕ) (rows : List Row) (model : Model) (m : MetaModel) (p : Panel)
    → (handle_save_meta
          (record m {
            user_properties =
                given (delete_item index (record { rows = rows; model = model })).model;
          })
          p
        ≡ none)
      ↔ (length rows ≤ 1)
deleted_iff index [] undefined m p = (λ e. omega arith, λ h. refl)
deleted_iff index [] null m p = (λ e. omega arith, λ h. refl)
deleted_iff index [] (object o) m p = (λ e. omega arith, λ h. refl)
deleted_iff index (r ∷ []) undefined m p = (λ e. omega arith, λ h. refl)
deleted_iff index (r ∷ []) null m p = (λ e. omega arith, λ h. refl)
deleted_iff index (r ∷ []) (object o) m p = (λ e. omega arith, λ h. refl)
deleted_iff index (r ∷ s ∷ rows) undefined m p = (λ e. cc, λ h. absurd (omega arith))
deleted_iff index (r ∷ s ∷ rows) null m p = (λ e. cc, λ h. absurd (omega arith))
deleted_iff index (r ∷ s ∷ rows) (object o) m p = (λ e. cc, λ h. absurd (omega arith))

-- Once a row of the user properties has been deleted in the editor of keys and values, saving the
-- properties throws exactly where it was the only row; otherwise it saves.
pub handle_save_meta-delete_item :
    (index : ℕ) (ed : Editor) (m : MetaModel) (p : Panel)
    → (handle_save_meta (record m { user_properties = given (delete_item index ed).model }) p
        ≡ none)
      ↔ (length ed.rows ≤ 1)
handle_save_meta-delete_item index ed m p = deleted_iff index ed.rows ed.model m p
