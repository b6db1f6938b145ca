-- ===== src/Session/Laws.antt =====
-- What holds in every session (web/src/apis/client.js, web/src/router.ts, and the log-in).
use tio.Common.{
  ◌∷◌, starts_with, starts_with-append, ◌≡◌, ◌≢◌, ◌∙◌, refl, Bool-cases, inl, inr, sym, ap, Bool,
  true, false, Option, none, some, String, ◌+++◌, nat_eq, if◌then◌else◌, eq_iff, eq_refl, arith,
}
use tio.Common.Dict.{put, get-put}
use tio.Store.{Storage, get_item, AppState, auth_key, initial_user}
use tio.Router.{Route, login, list, is_login}
use tio.Router.Laws.{guarded, navigate_lem}
use tio.Session.{
  Response, Session, authorization, set_auth, log, log_of, push, on_response, on_error, submit_form,
  things_updated, log_out, reload,
}

-- What happens to a session, one after another in any order.
pub data Event (T S : Type 0) : Type 0 where
  goes_to : Route → Event T S
  reloads : AppState T S → Route → Event T S
  logs_in : (uri host user pass : String) → Event T S
  things_answered : (ok : Bool) → Event T S
  logs_out : Event T S
  answered : Response → Event T S
  refused : Option Response → (error : String × String) → Event T S

module _ {T S : Type 0} (btoa : String → String) where
  unfoldable pub handle : Event T S → Session T S → Session T S
  handle (goes_to to) s = push to s
  handle (reloads app to) s = reload app to s
  handle (logs_in uri host user pass) s = submit_form btoa uri host user pass s
  handle (things_answered ok) s = things_updated ok s
  handle logs_out s = log_out s
  handle (answered res) s = (on_response res s).0
  handle (refused res error) s = (on_error res error s).0

  -- The sessions that follow a load of the page with the storage it finds.
  pub data Reach : Session T S → Type 0 where
    loaded : (app : AppState T S) (to : Route) (s : Session T S) → Reach (reload app to s)
    next : {s : Session T S} (e : Event T S) → Reach s → Reach (handle e s)

-- Nobody sees another view than the log-in without being logged in, and the browser's storage has
-- the same log-in as the store.
pub record IsGuarded {T S : Type 0} (s : Session T S) : Type 0 where
  pub at_login : s.user.auth ≡ "" → is_login s.route ≡ true
  pub kept : get_item auth_key "" s.storage ≡ s.user.auth

get_item-put : (a : String) (m : Storage) → get_item auth_key "" (put auth_key a m) ≡ a
get_item-put a m = ground (arith, get-put auth_key auth_key a m, eq_refl auth_key, eq_iff a "")

basic_nonempty : (t : String) → "Basic " +++ t ≢ ""
unfolding starts_with
basic_nonempty t e = cc (ap (λ s. starts_with s "Basic ") (sym e) ∙ starts_with-append "Basic " t)

module _ {T S : Type 0} where
  push-route :
      (to : Route) (s : Session T S) → push to s ≡ record s { route = guarded s.user.auth to }
  unfolding push
  push-route to s = rw (push, navigate_lem 0 s.user.auth to) refl

  push-IsGuarded :
      (to : Route) (s : Session T S)
      → get_item auth_key "" s.storage ≡ s.user.auth
      → IsGuarded (push to s)
  push-IsGuarded to s kept = rw (push-route to s) (ground (arith, eq_iff s.user.auth ""))

  set_auth_kept :
      (a : String) (s : Session T S)
      → get_item auth_key "" (set_auth a s).storage ≡ (set_auth a s).user.auth
  set_auth_kept a s = get_item-put a s.storage

  log_out-IsGuarded : (s : Session T S) → IsGuarded (log_out s)
  unfolding log_out
  log_out-IsGuarded s = push-IsGuarded login (set_auth "" s) (set_auth_kept "" s)

  on_error-IsGuarded :
      (res : Option Response) (error : String × String) (s : Session T S)
      → IsGuarded s
      → IsGuarded (on_error res error s).0
  unfolding on_error
  on_error-IsGuarded none error s g = g
  on_error-IsGuarded (some res) error s g = elim (Bool-cases (nat_eq res.status 401)) [
    | inl e ↦ rw e (
        push-IsGuarded login (set_auth "" (log res (some error) s))
          (set_auth_kept "" (log res (some error) s)))
    | inr e ↦ rw e (ground arith)
  ]

  on_response-IsGuarded :
      (res : Response) (s : Session T S) → IsGuarded s → IsGuarded (on_response res s).0
  unfolding on_response
  on_response-IsGuarded res s g = ground arith

  reload-IsGuarded :
      (app : AppState T S) (to : Route) (s : Session T S) → IsGuarded (reload app to s)
  unfolding reload
  reload-IsGuarded app to s = push-IsGuarded to _ refl

  submit_form-IsGuarded :
      (btoa : String → String) (uri host user pass : String) (s : Session T S)
      → IsGuarded (submit_form btoa uri host user pass s)
  unfolding submit_form
  submit_form-IsGuarded btoa uri host user pass s = record {
    at_login = λ e. absurd (basic_nonempty (btoa (user +++ (":" +++ pass))) e);
    kept = get_item-put _ _;
  }

  handle-IsGuarded :
      (btoa : String → String) (e : Event T S) {s : Session T S}
      → IsGuarded s
      → IsGuarded (handle btoa e s)
  unfolding handle things_updated
  handle-IsGuarded btoa (goes_to to) {s} g = push-IsGuarded to s g.kept
  handle-IsGuarded btoa (reloads app to) {s} g = reload-IsGuarded app to s
  handle-IsGuarded btoa (logs_in uri host user pass) {s} g =
      submit_form-IsGuarded btoa uri host user pass s
  handle-IsGuarded btoa (things_answered true) {s} g = push-IsGuarded list s g.kept
  handle-IsGuarded btoa (things_answered false) {s} g = g
  handle-IsGuarded btoa logs_out {s} g = log_out-IsGuarded s
  handle-IsGuarded btoa (answered res) {s} g = on_response-IsGuarded res s g
  handle-IsGuarded btoa (refused res error) {s} g = on_error-IsGuarded res error s g

  -- In every session, whatever happens in whatever order: the view is the log-in as long as nobody
  -- is logged in, and a reload of the page finds the log-in that the store has.
  pub Reach-IsGuarded : (btoa : String → String) {s : Session T S} → Reach btoa s → IsGuarded s
  Reach-IsGuarded btoa (loaded app to s) = reload-IsGuarded app to s
  Reach-IsGuarded btoa (next e r) = handle-IsGuarded btoa e (Reach-IsGuarded btoa r)

  -- A request that the server refuses is logged in front of the others. The status 401, and no other,
  -- logs out: further requests carry no header of authorization, and the view is the log-in.
  pub on_error_lem :
      (res : Response) (error : String × String) (s : Session T S)
      → let s' = (on_error (some res) error s).0 in
        let refused_login = nat_eq res.status 401 in
        (s'.app.http_request_logs ≡ log_of res (some error) ∷ s.app.http_request_logs)
        × (authorization s'.user ≡ (if refused_login then none else authorization s.user))
        × (s'.route ≡ (if refused_login then login else s.route))
  unfolding on_error authorization
  on_error_lem res error s = elim (Bool-cases (nat_eq res.status 401)) [
    | inl e ↦ rw (e, push-route login (set_auth "" (log res (some error) s))) (refl, refl, refl)
    | inr e ↦ rw e (refl, refl, refl)
  ]

  reload-route :
      (app : AppState T S) (to : Route) (s : Session T S)
      → reload app to s ≡ record s {
        user = initial_user s.storage;
        app = app;
        route = guarded (get_item auth_key "" s.storage) to;
      }
  unfolding reload
  reload-route app to s = push-route to (record s { user = initial_user s.storage; app = app })

  -- The list and a reload, for whoever is logged in.
  logged_in :
      (s : Session T S) (app : AppState T S) (to : Route)
      → s.user.auth ≢ ""
      → get_item auth_key "" s.storage ≡ s.user.auth
      → is_login to ≡ false
      → ((push list s).route ≡ list)
        × (authorization (push list s).user ≡ some s.user.auth)
        × ((reload app to (push list s)).route ≡ to)
        × ((reload app to (push list s)).user ≡ (push list s).user)
  unfolding authorization
  logged_in s app to ne kept h =
      rw (reload-route app to (push list s), push-route list s)
        (ground (arith, eq_iff s.user.auth ""))

  -- After a log-in whose request for things succeeds, the view is the list, requests carry the name and
  -- password given, and a reload of the page at any other route than the log-in shows that route.
  pub things_updated-submit_form :
      (btoa : String → String) (uri host user pass : String) (s : Session T S) (app : AppState T S)
      (to : Route)
      → is_login to ≡ false
      → let s' = things_updated true (submit_form btoa uri host user pass s) in
        (s'.route ≡ list)
        × (authorization s'.user ≡ some ("Basic " +++ btoa (user +++ (":" +++ pass))))
        × ((reload app to s').route ≡ to)
        × ((reload app to s').user ≡ s'.user)
  unfolding things_updated submit_form
  things_updated-submit_form btoa uri host user pass s app to h =
      logged_in (submit_form btoa uri host user pass s) app to
        (basic_nonempty (btoa (user +++ (":" +++ pass)))) (get_item-put _ _) h
