-- ===== src/Layout/Tests.antt =====
-- The tool area at small inputs.
use tio.Common.{◌≡◌, refl, [], ◌∷◌}
use tio.Common.Dict.{get, put}
use tio.Layout.{Page, load, switch_active_tool, dispatch_switch}
use tio.Layout.Laws.{clicks, reloads, handle, loaded, next, IsInStep, Reach-IsInStep}

layouts : Unit {0}
unfolding load switch_active_tool dispatch_switch get put
layouts = tt

link_test : switch_active_tool "apis" (load []) ≡ record (load []) { opened = "/docs" ∷ [] }
unfolding layouts
link_test = refl

abbrev page : Page
page = load (("$tiopg/layout/activeToolKey", "logs") ∷ [])

Reach-IsInStep_example : IsInStep (handle reloads (handle (clicks "mqtt") page))
unfolding get
Reach-IsInStep_example =
    Reach-IsInStep (("$tiopg/layout/activeToolKey", "logs") ∷ []) refl
      (next reloads (next (clicks "mqtt") loaded))
