-- ===== src/PublishView/Tests.antt =====
-- The form that publishes messages, at one run and one model.
use mathlib.Core.Option
use tio.KeyValues.{Editor, null, empty_row, delete_item}
use tio.PublishView.Laws.{given}
use tio.Common.{true, ◌≤◌, length, ◌≡◌, ◌↔◌, refl, List, [], ◌∷◌, some, none}
use tio.Json.{Json}
use tio.Config.{Config, get_default_form}
use tio.PublishView.{
  MetaModel, Panel, new_panel, get_init_meat_model, handle_save_meta, with_props, saved, send,
}
use tio.PublishView.Laws.{
  Event, run, run-send, handle_save_meta-delete_item, meta_saved, topic_selected, config_given,
}

abbrev config : Config
config = record (get_default_form "localhost" "http:" "now") { id = "c" }

abbrev model : MetaModel
model = record get_init_meat_model {
  content_type = some (Json.str "text");
  correlation_data = some (Json.str "");
}

abbrev panel : Panel
panel = with_props (saved [] model) new_panel

abbrev events : List Event
events =
    config_given (some config) none ∷ meta_saved model ∷ topic_selected "a/b" (some "Hex") "ff" ∷ []

language : (run events new_panel).payload_lang ≡ "plaintext"
language = refl

run-send_example :
    Option.map (Option.map (λ r. r.properties)) (send (some config) (run events new_panel))
    ≡ some (some (some (saved [] model)))
run-send_example = run-send events config refl

abbrev one_row : Editor
one_row = record { rows = empty_row true ∷ []; model = null }

handle_save_meta-delete_item_example :
    (handle_save_meta
        (record model { user_properties = given (delete_item 0 one_row).model })
        new_panel
      ≡ none)
    ↔ (length one_row.rows ≤ 1)
handle_save_meta-delete_item_example = handle_save_meta-delete_item 0 one_row model new_panel
