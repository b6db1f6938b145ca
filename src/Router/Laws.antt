-- ===== src/Router/Laws.antt =====
-- Where navigation ends (web/src/router.ts).
use tio.Common.{ℕ, suc, ◌≡◌, some, String, ◌==◌, if◌then◌else◌, arith}
use tio.Router.{Route, login, list, is_login, before_each, navigate}

-- Where the guard lets a navigation end.
abbrev pub guarded : String → Route → Route
guarded auth to = if auth == "" then login else if is_login to then list else to

-- Every navigation ends, after one redirect at most: at the log-in if nobody is logged in, and else
-- at its target, the list standing for the log-in.
pub navigate_lem :
    (fuel : ℕ) (auth : String) (to : Route)
    → navigate (suc (suc fuel)) auth to ≡ some (guarded auth to)
unfolding navigate before_each
navigate_lem fuel auth to = ground arith
