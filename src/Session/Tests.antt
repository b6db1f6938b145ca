-- ===== src/Session/Tests.antt =====
-- A session at small inputs.
use tio.Common.{ℕ, ◌≡◌, [], ◌∷◌, none, some, String}
use tio.Json.{Json}
use tio.Store.{AppState, initial_app}
use tio.Router.{login, list, thing}
use tio.Session.{Response, Session, authorization, log_of, on_error, reload}
use tio.Session.Laws.{logs_in, handle, loaded, next, IsGuarded, Reach-IsGuarded, on_error_lem}

abbrev base64 : String → String
base64 s = s

abbrev app : AppState ℕ ℕ
app = initial_app

abbrev start : Session ℕ ℕ
start = record { user = record { auth = "x" }; app = app; storage = []; route = list }

abbrev unauthorized : Response
unauthorized = record {
  status = 401;
  res_data = Json.null;
  time = "now";
  method = "get";
  url = "api/v1/things/";
  req_data = none;
}

Reach-IsGuarded_example :
    IsGuarded (handle base64 (logs_in "/" "/" "admin" "secret") (reload app (thing "t1") start))
Reach-IsGuarded_example =
    Reach-IsGuarded base64 (next (logs_in "/" "/" "admin" "secret") (loaded app (thing "t1") start))

on_error_lem_example :
    let s' = (on_error (some unauthorized) ("401", "Unauthorized") start).0 in
    (s'.app.http_request_logs ≡ log_of unauthorized (some ("401", "Unauthorized")) ∷ [])
    × (authorization s'.user ≡ none)
    × (s'.route ≡ login)
on_error_lem_example = on_error_lem unauthorized ("401", "Unauthorized") start
