-- ===== src/SubsForm/Tests.antt =====
-- The form of a subscription at small inputs.
use tio.Common.{◌≡◌, refl, true, some, none}
use tio.SubsForm.{
  form_changed, no_data, undefined, init_model, handle_select_topic, handle_subscribe,
}

new : form_changed true no_data (handle_select_topic "n" "t" init_model) ≡ some init_model
new = refl

kept :
    form_changed true undefined (handle_select_topic "n" "t" init_model)
    ≡ some (handle_select_topic "n" "t" init_model)
kept = refl

refused : handle_subscribe none init_model ≡ none
refused = refl
