-- ===== src/Session.antt =====
-- Who is logged in: the interceptors of web/src/apis/client.js, log-in and log-out of the views
-- (Login.vue, TopNavBar.vue), the reload of the page, and the guard of the routes. `btoa`, the
-- server's answers and the time of the log are arguments; a request's body is the JSON value that
-- axios prints and the log parses again.
pub mod Laws
mod Tests
use tio.Common.{
  ℕ, Bool, true, false, not, ◌||◌, [], ◌∷◌, List, Option, none, some, String, ◌==◌, ◌+++◌, nat_eq,
  if◌then◌else◌,
}
use tio.Common.Dict.{put}
use tio.Json.{Json, null, bool, num, str}
use tio.Store.{
  Storage, get_item, HttpRequestLog, AppState, add_req_log, UserState, auth_key, initial_user,
}
use tio.Router.{Route, login, list, navigate}

-- `response.config` and the rest of an answer. `time` is its date, or the present time.
pub record Response : Type 0 where
  pub status : ℕ
  pub res_data : Json
  pub time : String
  pub method : String
  pub url : String
  pub req_data : Option Json

-- `error` is the code and the message of a failed request.
abbrev pub log_of : Response → Option (String × String) → HttpRequestLog
log_of res error = record {
  error = error;
  time = res.time;
  method = res.method;
  url = res.url;
  req_data = res.req_data;
  res_data = res.res_data;
}

-- `if (data)`
abbrev pub truthy : Json → Bool
truthy null = false
truthy (bool b) = b
truthy (num n) = not (n == "0")
truthy (str s) = not (s == "")
truthy _ = true

abbrev pub client_url_key : String
client_url_key = "$tiopg/client/url"

-- What a rejected request throws: the response, its data, or the library's error.
pub data Thrown : Type 0 where
  the_response : Response → Thrown
  the_data : Json → Thrown
  the_error : Thrown

pub record Session (T S : Type 0) : Type 0 where
  pub user : UserState
  pub app : AppState T S
  pub storage : Storage
  pub route : Route

-- `req.headers.Authorization`, set by the first interceptor
unfoldable pub authorization : UserState → Option String
authorization u = if u.auth == "" then none else some u.auth

module _ {T S : Type 0} where
  abbrev pub set_auth : String → Session T S → Session T S
  set_auth auth s = record s {
    user = record { auth = auth };
    storage = put auth_key auth s.storage;
  }

  abbrev pub log : Response → Option (String × String) → Session T S → Session T S
  log res error s = record s { app = add_req_log (log_of res error) s.app }

  -- `router.push`; the guard needs two rounds at most.
  unfoldable pub push : Route → Session T S → Session T S
  push to s = elim (navigate 2 s.user.auth to) [ none ↦ s | some r ↦ record s { route = r } ]

  -- The interceptor of answers.
  unfoldable pub on_response : Response → Session T S → Session T S × Json
  on_response res s = (if truthy res.res_data then log res none s else s, res.res_data)

  -- The interceptor of errors: `error` is the error's code and message; without a response it is
  -- thrown on.
  unfoldable pub on_error :
      Option Response → (error : String × String) → Session T S → Session T S × Thrown
  unfolding push
  on_error none error s = (s, Thrown.the_error)
  on_error (some res) error s =
      let s' = log res (some error) s in
      if nat_eq res.status 401
      then (push login (set_auth "" s'), Thrown.the_response res)
      else (s', if nat_eq res.status 404 then Thrown.the_error else Thrown.the_data res.res_data)

  abbrev pub recreate_client : (base_url : String) → Session T S → Session T S
  recreate_client base_url s = record s { storage = put client_url_key base_url s.storage }

  -- `submitForm` of a valid form, up to the request for things; `uri` is the client's present one.
  unfoldable pub submit_form :
      (btoa : String → String) (uri host user pass : String) → Session T S → Session T S
  submit_form btoa uri host user pass s =
      let s' = if host == uri then s else recreate_client (if host == "" then "/" else host) s in
      set_auth ("Basic " +++ btoa (user +++ (":" +++ pass))) s'

  -- What `submitForm` does once `updateThings` has answered.
  unfoldable pub things_updated : (ok : Bool) → Session T S → Session T S
  unfolding push
  things_updated true s = push list s
  things_updated false s = s

  -- `handleLogOut`
  unfoldable pub log_out : Session T S → Session T S
  unfolding push
  log_out s = push login (set_auth "" s)

  -- The page is loaded again at a route: the store is made anew from the browser's storage.
  unfoldable pub reload : AppState T S → Route → Session T S → Session T S
  unfolding push
  reload app to s = push to (record s { user = initial_user s.storage; app = app })
