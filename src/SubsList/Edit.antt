-- ===== src/SubsList/Edit.antt =====
-- The form of a subscription (web/src/components/mqtt/SubscriptionForm.vue) for the options that
-- `submitForm` of web/src/components/mqtt/Subcriptions.vue has made of it.
use tio.Common.{
  ◌≡◌, refl, ap, ◌∙◌, true, false, Option, none, some, String, ◌==◌, if◌then◌else◌, Bool-cases, inl,
  inr,
}
use tio.Common.Dict.{get}
use tio.Json.{Json, Fields, fields, field, prop, obj}
use tio.Session.{truthy}
use tio.Subs.{SubConfig}
use tio.SubsForm.{Form, form_changed, data_of, or_undefined, prop?}
use tio.SubsList.{field_if, properties_if, opts_of}

-- The subscription as the form gives it.
abbrev pub given : Form → SubConfig Json
given f = record { id = f.id; name = f.name; keep = f.keep; topic = f.topic; opts = opts_of f }

get-field_if :
    (k j : String) (o : Option Json) (fs : Fields)
    → (j == k) ≡ false
    → get k (fields (field_if j o fs)) ≡ get k (fields fs)
unfolding get
get-field_if k j none fs n = refl
get-field_if k j (some v) fs n = elim (Bool-cases (truthy v)) [
  | inl e ↦ rw e (rw n refl)
  | inr e ↦ rw e refl
]

prop-get :
    (k : String) (fs gs : Fields)
    → get k (fields fs) ≡ get k (fields gs)
    → prop k (obj fs) ≡ prop k (obj gs)
unfolding prop
prop-get k fs gs h =
    ap (λ o. elim o [ some w ↦ some w | none ↦ if k == "length" then none else none ]) h

prop-properties_if :
    (f : Form) (qos : Json)
    → prop "properties" (
        obj (
          field "qos" qos (
            field_if "nl" f.nl (
              field_if "rap" f.rap
                (field_if "rh" f.rh (properties_if f.subscription_identifier))))))
      ≡ prop "properties" (obj (properties_if f.subscription_identifier))
unfolding get
prop-properties_if f qos =
    let nl = get-field_if "properties" "nl" f.nl in
    let rap = get-field_if "properties" "rap" f.rap in
    let rh = get-field_if "properties" "rh" f.rh (properties_if f.subscription_identifier) refl in
    prop-get "properties" _ _ (nl _ refl ∙ (rap _ refl ∙ rh))

prop-identifier :
    (o : Option Json)
    → or_undefined (prop? "subscriptionIdentifier" (prop "properties" (obj (properties_if o))))
      ≡ or_undefined o
unfolding get prop
prop-identifier none = refl
prop-identifier (some v) = elim (Bool-cases (truthy v)) [
  | inl e ↦ rw e (rw e refl)
  | inr e ↦ rw e refl
]

-- The form shown for the options that it has given has the quality of service and the identifier that
-- were given, and the quality of service, where it is not 0, in place of the options nl, rap and rh
-- too.
pub form_changed-given :
    (f other : Form) (qos : Json)
    → f.qos ≡ some qos
    → form_changed true (data_of (given f)) other
      ≡ some (record f {
        nl = or_undefined f.qos;
        rap = or_undefined f.qos;
        rh = or_undefined f.qos;
        subscription_identifier = or_undefined f.subscription_identifier;
      })
unfolding get prop
form_changed-given f other qos q =
    rw q (rw (prop-properties_if f qos) (rw (prop-identifier f.subscription_identifier) refl))
