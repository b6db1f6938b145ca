-- ===== src/TopNav/Tests.antt =====
-- The dialogs of the bar.
use tio.Common.{◌≡◌, refl}
use tio.TopNav.{
  new_dialogs, handle_show_adding_form, handle_show_setting_panel, handle_close_dialogs,
}

closed :
    handle_close_dialogs (handle_show_setting_panel (handle_show_adding_form new_dialogs))
    ≡ new_dialogs
closed = refl
