-- ===== src/Router.antt =====
-- The guard of the console's routes (web/src/router.ts). It lets a navigation through or redirects
-- it; the router asks the guard again for the new target.
pub mod Laws
use tio.Common.{
  ℕ, zero, suc, Bool, true, false, not, Option, none, some, String, ◌==◌, if◌then◌else◌,
}

pub data Route : Type 0 where
  login list not_found : Route
  thing : (thing_id : String) → Route

abbrev pub is_login : Route → Bool
is_login login = true
is_login _ = false

-- `next()` and `next({ name })`
pub data Next : Type 0 where
  proceed : Next
  redirect : Route → Next

-- The handler given to `beforeEach`; with an empty text nobody is logged in.
unfoldable pub before_each : (auth : String) → Route → Next
before_each auth to =
    if not (auth == "")
    then if is_login to then redirect list else proceed
    else if is_login to
    then proceed
    else redirect login

-- Where a navigation ends; `none` where it is still redirected when the fuel is spent.
unfoldable pub navigate : (fuel : ℕ) → (auth : String) → Route → Option Route
navigate zero auth to = none
navigate (suc fuel) auth to = elim (before_each auth to) [
  | proceed ↦ some to
  | redirect next ↦ navigate fuel auth next
]
