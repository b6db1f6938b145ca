-- ===== src/TopNav.antt =====
-- The bar above the views (web/src/components/layout/TopNavBar.vue): its two dialogs, and kicking a
-- thing's client out. Logging out stands in Session.
mod Tests
use tio.Common.{Bool, true, false, Option, none, some, String}
use tio.Store.{AppState}
use tio.Things.{update_current_shadow}

pub record Dialogs : Type 0 where
  pub is_adding : Bool
  pub is_setting : Bool

abbrev pub new_dialogs : Dialogs
new_dialogs = record { is_adding = false; is_setting = false }

abbrev pub handle_show_adding_form : Dialogs → Dialogs
handle_show_adding_form st = record st { is_adding = true; is_setting = false }

abbrev pub handle_show_setting_panel : Dialogs → Dialogs
handle_show_setting_panel st = record st { is_adding = false; is_setting = true }

abbrev pub handle_close_dialogs : Dialogs → Dialogs
handle_close_dialogs st = record st { is_adding = false; is_setting = false }

-- `accepted` says whether the server kicks the client out; `server` answers the request for a shadow.
unfoldable pub handle_kick_out_selected :
    {T S : Type 0}
    → (selected : Option String) (accepted : Bool) → (String → Option S)
    → AppState T S
    → AppState T S
unfolding update_current_shadow
handle_kick_out_selected selected true server st = update_current_shadow selected server st
handle_kick_out_selected selected false server st = st
