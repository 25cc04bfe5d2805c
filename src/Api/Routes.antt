-- ===== src/Api/Routes.antt =====
-- The routes of `NewServer` in server.go: each has its handler, and those that write are behind the
-- guard. The page and the static files are those of Web.
use Prim.Native.String.{◌++◌}
use phb_open_ferm.Prelude.{String, Option, List, if◌then◌else◌}
use phb_open_ferm.Prelude.Int.{ℤ}
use phb_open_ferm.Time.{Time, Duration}
use phb_open_ferm.Float64.{Float64}
use phb_open_ferm.Store.{Json, ProfileSpec}
use phb_open_ferm.Store.Settings.{ControllerSettings}
use phb_open_ferm.Session.{
  Request, no_reply, says, grants, require_auth, handle_auth_status, handle_auth_pin,
  handle_auth_logout,
}
use phb_open_ferm.Api.{
  App, Failures, Body, nothing, message, sets_cookie, shows_status, Answer, json,
}
use phb_open_ferm.Api.Targets.{handle_state, handle_get_prefs, handle_set_prefs, handle_set_target}
use phb_open_ferm.Api.Modes.{
  ModeBody, ValveBody, handle_get_mode, handle_set_mode, handle_set_valve_override,
  handle_clear_valve_override,
}
use phb_open_ferm.Api.Profiles.{
  AssignBody, handle_list_profiles, handle_create_profile, handle_get_assignment,
  handle_assign_profile, handle_pause_profile, handle_cancel_profile,
}
use phb_open_ferm.Api.Settings.{handle_get_settings, handle_set_settings}
use phb_open_ferm.Api.Records.{
  handle_get_alarm, handle_get_alarm_history, handle_events, handle_history,
}

-- What a request meets: the JSON of profiles, SQLite's AVG, the scan of an integer into a time, the clock, the statements that fail, the
-- session cookie and the next random id of a session.
pub record Context (R : Type 0) : Type 0 where
  pub json : Json R
  pub avg : List R → R
  pub scan_time : ℤ → Option Time
  pub now : Time
  pub fails : Failures
  pub cookie : Option String
  pub fresh : String

-- The routes with GET, with what their handlers read of the request.
pub data Read : Type 0 where
  get_state get_prefs get_profiles get_alarms get_settings : Read
  get_history : String → String → String → Option Duration → Read
  get_assignment get_mode get_alarm_history : String → Read
  get_events : String → String → String → Read

-- The routes behind the guard, all with POST.
pub data Write (R : Type 0) : Type 0 where
  post_prefs : Option (String × String) → Write R
  post_target : String → Option R → Write R
  post_profile : Option (String × ProfileSpec R) → Write R
  post_assign : String → AssignBody R → String → Write R
  post_cancel : String → Write R
  post_pause : String → String → Write R
  post_mode : String → Option (ModeBody R) → Write R
  post_valve : String → Option ValveBody → Write R
  post_valve_clear : String → Write R
  post_settings : Option (ControllerSettings R) → Write R

pub data Route (R : Type 0) : Type 0 where
  reads : Read → Route R
  writes : Write R → Route R
  auth_status auth_logout : Route R
  auth_login : Option String → Route R

abbrev pub fv_path : String → String → String
fv_path id rest = "/api/fv/" ++ (id ++ rest)

module _ {R : Type 0} where
  -- r.URL.Path
  unfoldable pub path_of : Write R → String
  path_of (post_prefs body) = "/api/prefs"
  path_of (post_target id body) = fv_path id "/target"
  path_of (post_profile body) = "/api/profiles"
  path_of (post_assign id body q) = fv_path id "/profile/assign"
  path_of (post_cancel id) = fv_path id "/profile/cancel"
  path_of (post_pause id q) = fv_path id "/profile/pause"
  path_of (post_mode id body) = fv_path id "/mode"
  path_of (post_valve id body) = fv_path id "/valve"
  path_of (post_valve_clear id) = fv_path id "/valve/clear"
  path_of (post_settings body) = "/api/settings"

  abbrev pub request_of : Context R → Write R → Request
  request_of c w = record { method = "POST"; path = path_of w; cookie = c.cookie }

  abbrev pub unauthorized : Answer R
  unauthorized = record { status = 401; body = message "unauthorized" }

  -- The route of the login.
  unfoldable pub serve_login : Context R → Option String → App R → App R × Answer R
  unfolding handle_auth_pin
  serve_login c pin app =
      let (server', code, made) = handle_auth_pin c.now c.fresh pin app.server in
      let shown : Body R = elim made [
        | no_reply ↦ nothing
        | says text ↦ message text
        | grants id ↦ sets_cookie id
      ] in
      (record app { server = server' }, record { status = code; body = shown })

  abbrev auth_request : Context R → Request
  auth_request c = record { method = "GET"; path = "/api/auth/status"; cookie = c.cookie }

  unfoldable pub serve_status : Context R → App R → App R × Answer R
  unfolding handle_auth_status
  serve_status c app =
      let (server', shown) = handle_auth_status c.now (auth_request c) app.server in
      (record app { server = server' }, json (shows_status shown))

  -- The cookie of the browser is cleared.
  unfoldable pub serve_logout : Context R → App R → App R × Answer R
  unfolding handle_auth_logout
  serve_logout c app =
      let (server', code) = handle_auth_logout (auth_request c) app.server in
      (record app { server = server' }, record { status = code; body = sets_cookie "" })

module _ {R : Type 0} ⦃f : Float64 R⦄ where
  unfoldable pub handle_read : Context R → Read → App R → Answer R
  unfolding handle_state handle_get_prefs handle_get_mode handle_list_profiles handle_get_assignment
      handle_get_settings handle_get_alarm handle_get_alarm_history handle_events handle_history
  handle_read c get_state app = handle_state c.now app
  handle_read c get_prefs app = handle_get_prefs app
  handle_read c get_profiles app = handle_list_profiles c.fails app
  handle_read c get_alarms app = handle_get_alarm app
  handle_read c get_settings app = handle_get_settings c.fails app
  handle_read c (get_history id from to step) app =
      handle_history c.avg c.now c.fails id from to step app
  handle_read c (get_assignment id) app = handle_get_assignment c.fails id app
  handle_read c (get_mode id) app = handle_get_mode c.now id app
  handle_read c (get_alarm_history limit) app =
      handle_get_alarm_history c.scan_time c.fails limit app
  handle_read c (get_events fv from to) app = handle_events c.now c.fails fv from to app

  unfoldable pub handle_write : Context R → Write R → App R → App R × Answer R
  unfolding handle_set_prefs handle_set_target handle_create_profile handle_assign_profile
      handle_cancel_profile handle_pause_profile handle_set_mode handle_set_valve_override
      handle_clear_valve_override handle_set_settings
  handle_write c (post_prefs body) app = handle_set_prefs body app
  handle_write c (post_target id body) app = handle_set_target c.now c.fails id body app
  handle_write c (post_profile body) app = handle_create_profile c.json c.now c.fails body app
  handle_write c (post_assign id body q) app =
      handle_assign_profile c.json c.now c.fails id body q app
  handle_write c (post_cancel id) app = handle_cancel_profile c.fails id app
  handle_write c (post_pause id q) app = handle_pause_profile c.now c.fails id q app
  handle_write c (post_mode id body) app = handle_set_mode c.now c.fails id body app
  handle_write c (post_valve id body) app = handle_set_valve_override c.now c.fails id body app
  handle_write c (post_valve_clear id) app = handle_clear_valve_override c.now c.fails id app
  handle_write c (post_settings body) app = handle_set_settings c.now c.fails body app

  -- A request on a route: the new state and the answer.
  unfoldable pub serve : Context R → Route R → App R → App R × Answer R
  unfolding handle_read handle_write require_auth serve_login serve_status serve_logout
  serve c (reads r) app = (app, handle_read c r app)
  serve c auth_status app = serve_status c app
  serve c auth_logout app = serve_logout c app
  serve c (auth_login pin) app = serve_login c pin app
  serve c (writes w) app =
      let (server', passed) = require_auth c.now (request_of c w) app.server in
      let app' : App R = record app { server = server' } in
      if passed then handle_write c w app' else (app', unauthorized)
