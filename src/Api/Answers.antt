-- ===== src/Api/Answers.antt =====
-- Which statuses go with which bodies, on every route.
use phb_open_ferm.Prelude.{
  ℕ, String, ◌≡◌, refl, Bool, true, ◌||◌, Option, ◌==◌, arith, eqb, if-cases,
}
use phb_open_ferm.Prelude.Int.{ℤ}
use phb_open_ferm.Time.{Time}
use phb_open_ferm.Float64.{Float64}
use phb_open_ferm.Store.{Json}
use phb_open_ferm.Session.{handle_auth_pin, handle_auth_logout, require_auth}
use phb_open_ferm.Api.{App, Failures, Answer, Body, nothing, message, sql_error, sets_cookie}
use phb_open_ferm.Api.Targets.{handle_state, handle_get_prefs, handle_set_prefs, handle_set_target}
use phb_open_ferm.Api.Modes.{
  handle_get_mode, handle_set_mode, handle_set_valve_override, handle_clear_valve_override,
}
use phb_open_ferm.Api.Profiles.{
  AssignBody, handle_list_profiles, handle_create_profile, handle_get_assignment, write_assignment,
  assign_profile, handle_assign_profile, pause_found, handle_pause_profile, handle_cancel_profile,
  wanted_profile,
}
use phb_open_ferm.Api.Settings.{handle_get_settings, handle_set_settings}
use phb_open_ferm.Api.Records.{
  handle_get_alarm, handle_get_alarm_history, handle_events, handle_history,
}
use phb_open_ferm.Api.Routes.{
  Context, Read, Write, Route, get_state, get_prefs, get_profiles, get_alarms, get_settings,
  get_history, get_assignment, get_mode, get_alarm_history, get_events, post_prefs, post_target,
  post_profile, post_assign, post_cancel, post_pause, post_mode, post_valve, post_valve_clear,
  post_settings, reads, writes, auth_status, auth_logout, auth_login, serve, handle_read,
  handle_write, request_of, serve_login, serve_status, serve_logout,
}

-- Data come with 200, errors of the store with 500, the text of an error with the status of a client's
-- or the server's error, a cookie with 204, and no body with 204.
module _ {R : Type 0} where
  abbrev pub fits : Body R → ℕ → Bool
  fits nothing code = eqb code 204
  fits (message text) code =
      eqb code 400 || eqb code 401 || eqb code 403 || eqb code 404 || eqb code 500
  fits sql_error code = eqb code 500
  fits (sets_cookie id) code = eqb code 204
  fits _ code = eqb code 200

  abbrev pub IsFit : Answer R → Type 0
  IsFit a = fits a.body a.status ≡ true

module _ {R : Type 0} ⦃f : Float64 R⦄ where
  assign_profile-IsFit :
      (json : Json R) (now : Time) (fails : Failures) (id : String) (n : ℤ) (from_c : Option R)
      (app : App R)
      → IsFit (assign_profile json now fails id n from_c app).1
  unfolding assign_profile write_assignment
  assign_profile-IsFit json now fails id n from_c app = ground arith

  handle_assign_profile-IsFit :
      (json : Json R) (now : Time) (fails : Failures) (id : String) (body : AssignBody R)
      (q : String) (app : App R)
      → IsFit (handle_assign_profile json now fails id body q app).1
  unfolding handle_assign_profile
  handle_assign_profile-IsFit json now fails id body q app =
      if-cases (λ (r : App R × Answer R). IsFit r.1) (id == "") (λ _. refl)
        (λ _.
          assign_profile-IsFit json now fails id (wanted_profile body.profile_id q) body.from_c app)

  handle_pause_profile-IsFit :
      (now : Time) (fails : Failures) (id q : String) (app : App R)
      → IsFit (handle_pause_profile now fails id q app).1
  unfolding handle_pause_profile pause_found
  handle_pause_profile-IsFit now fails id q app = ground arith

  handle_write-IsFit : (c : Context R) (w : Write R) (app : App R) → IsFit (handle_write c w app).1
  unfolding handle_write handle_set_prefs handle_set_target handle_create_profile
      handle_cancel_profile handle_set_mode handle_set_valve_override handle_clear_valve_override
      handle_set_settings
  handle_write-IsFit c (post_prefs body) app = ground arith
  handle_write-IsFit c (post_target id body) app = ground arith
  handle_write-IsFit c (post_profile body) app = ground arith
  handle_write-IsFit c (post_assign id body q) app =
      handle_assign_profile-IsFit c.json c.now c.fails id body q app
  handle_write-IsFit c (post_cancel id) app = ground arith
  handle_write-IsFit c (post_pause id q) app = handle_pause_profile-IsFit c.now c.fails id q app
  handle_write-IsFit c (post_mode id body) app = ground arith
  handle_write-IsFit c (post_valve id body) app = ground arith
  handle_write-IsFit c (post_valve_clear id) app = ground arith
  handle_write-IsFit c (post_settings body) app = ground arith

  handle_read-IsFit : (c : Context R) (r : Read) (app : App R) → IsFit (handle_read c r app)
  unfolding handle_read handle_state handle_get_prefs handle_get_mode handle_list_profiles
      handle_get_assignment handle_get_settings handle_get_alarm handle_get_alarm_history
      handle_events handle_history
  handle_read-IsFit c get_state app = refl
  handle_read-IsFit c get_prefs app = refl
  handle_read-IsFit c get_profiles app = ground arith
  handle_read-IsFit c get_alarms app = refl
  handle_read-IsFit c get_settings app = refl
  handle_read-IsFit c (get_history id from to step) app = ground arith
  handle_read-IsFit c (get_assignment id) app = ground arith
  handle_read-IsFit c (get_mode id) app = ground arith
  handle_read-IsFit c (get_alarm_history limit) app = ground arith
  handle_read-IsFit c (get_events fv from to) app = ground arith

  -- Every answer of the API, on each of its routes, whatever is asked for and whichever statements of
  -- the store fail, has a body that goes with its status: data come with 200 only, the text of an error
  -- with 400, 401, 403, 404 or 500, an error of the store with 500, a cookie with 204, and an empty
  -- body with 204.
  pub serve-IsFit : (c : Context R) (r : Route R) (app : App R) → IsFit (serve c r app).1
  unfolding serve serve_login serve_status serve_logout handle_auth_pin handle_auth_logout
  serve-IsFit c (reads r) app = handle_read-IsFit c r app
  serve-IsFit c (writes w) app =
      let (server', passed) = require_auth c.now (request_of c w) app.server in
      if-cases (λ (o : App R × Answer R). IsFit o.1) passed
        (λ _. handle_write-IsFit c w (record app { server = server' })) (λ _. refl)
  serve-IsFit c auth_status app = refl
  serve-IsFit c auth_logout app = refl
  serve-IsFit c (auth_login pin) app = ground arith
