-- ===== src/Api/Serving.antt =====
-- What serving a request keeps, on every route.
use phb_open_ferm.Prelude.{
  String, refl, Bool, true, false, not, ◌&&◌, Option, none, some, ◌==◌, if-cases, elim-cases,
}
use phb_open_ferm.Decimal.{format_int}
use phb_open_ferm.Time.{Time}
use phb_open_ferm.Float64.{Float64}
use phb_open_ferm.Control.{valve_open, valve_closed}
use phb_open_ferm.Control.Setters.{set_valve_override_until}
use phb_open_ferm.Control.Invariant.{
  set_valve_override_until-IsSound, clear_override-IsSound, apply_controller_settings-IsSound,
}
use phb_open_ferm.Store.{Db, Json}
use phb_open_ferm.Store.Settings.{ControllerSettings, set_setting, save_controller_settings}
use phb_open_ferm.Scheduler.Consistency.{IsConsistent, IsConsistent-same}
use phb_open_ferm.Session.{require_auth}
use phb_open_ferm.Api.{App, Failures, saves_setting, adds_event}
use phb_open_ferm.Api.Targets.{handle_set_prefs}
use phb_open_ferm.Api.Modes.{
  ValveBody, until_of, override_text, handle_set_valve_override, handle_clear_valve_override,
}
use phb_open_ferm.Api.Settings.{settings_text, handle_set_settings}
use phb_open_ferm.Api.Requests.{
  IsKept, KeepsAll, add_event-IsConsistent, handle_set_target-IsKept, handle_create_profile-IsKept,
  handle_cancel_profile-IsKept, handle_pause_profile-IsKept, handle_assign_profile-IsKept,
  handle_set_mode-IsKept,
}
use phb_open_ferm.Api.Routes.{
  Context, Write, Route, reads, writes, auth_status, auth_login, auth_logout, request_of,
  handle_write, serve, serve_login, serve_status, serve_logout, post_prefs, post_target,
  post_profile, post_assign, post_cancel, post_pause, post_mode, post_valve, post_valve_clear,
  post_settings,
}

module _ {R : Type 0} ⦃f : Float64 R⦄ where
  set_setting-IsConsistent :
      (json : Json R) (refused : Bool) (key val : String) (db : Db R)
      → IsConsistent json db
      → IsConsistent json (set_setting refused key val db).0
  unfolding set_setting
  set_setting-IsConsistent json true key val db h = h
  set_setting-IsConsistent json false key val db h = IsConsistent-same json db _ refl refl h

  save_controller_settings-IsConsistent :
      (json : Json R) (refused : String → Bool) (cs : ControllerSettings R) (db : Db R)
      → IsConsistent json db
      → IsConsistent json (save_controller_settings refused cs db).0
  unfolding save_controller_settings
  save_controller_settings-IsConsistent json refused cs db h =
      let first = set_setting (refused "band_c") "band_c" (f.general cs.band_c) db in
      let second =
        set_setting (refused "min_change_s") "min_change_s" (format_int cs.min_change_s) first.0 in
      let one =
        set_setting-IsConsistent json (refused "band_c") "band_c" (f.general cs.band_c) db h in
      let two =
        set_setting-IsConsistent json (refused "min_change_s") "min_change_s"
          (format_int cs.min_change_s) first.0 one in
      let three =
        set_setting-IsConsistent json (refused "max_open") "max_open" (format_int cs.max_open)
          second.0 two in
      if-cases (λ (r : Db R × Bool). IsConsistent json r.0) first.1
        (λ _.
          if-cases (λ (r : Db R × Bool). IsConsistent json r.0) second.1 (λ _. three) (λ _. two))
        (λ _. one)

  handle_set_prefs-IsKept :
      (json : Json R) (body : Option (String × String)) (app : App R)
      → IsKept json app
      → KeepsAll json (handle_set_prefs body app)
  unfolding handle_set_prefs
  handle_set_prefs-IsKept json none app h = h
  handle_set_prefs-IsKept json (some body) app h = h

  handle_set_settings-IsKept :
      (json : Json R) (now : Time) (fails : Failures) (body : Option (ControllerSettings R))
      (app : App R)
      → IsKept json app
      → KeepsAll json (handle_set_settings now fails body app)
  unfolding handle_set_settings
  handle_set_settings-IsKept json now fails none app h = h
  handle_set_settings-IsKept json now fails (some body) app h =
      let refused : String → Bool = λ key. fails (saves_setting key) in
      let written = save_controller_settings-IsConsistent json refused body app.db h.1 in
      if-cases (KeepsAll json) (save_controller_settings refused body app.db).1
        (λ _. (
          apply_controller_settings-IsSound body.band_c body.min_change_s body.max_open app.sys h.0,
          add_event-IsConsistent json now (fails adds_event) "settings_update" ""
              (settings_text body) _ written,
        ))
        (λ _. (h.0, written))

  handle_set_valve_override-IsKept :
      (json : Json R) (now : Time) (fails : Failures) (id : String) (body : Option ValveBody)
      (app : App R)
      → IsKept json app
      → KeepsAll json (handle_set_valve_override now fails id body app)
  unfolding handle_set_valve_override
  handle_set_valve_override-IsKept json now fails id none app h = h
  handle_set_valve_override-IsKept json now fails id (some body) app h =
      let until = until_of now body in
      let sound = set_valve_override_until-IsSound id body.state until app.sys h.0 in
      if-cases (KeepsAll json) (not (body.state == valve_open) && not (body.state == valve_closed))
        (λ _. h)
        (λ _.
          elim-cases (KeepsAll json) (set_valve_override_until id body.state until app.sys).1
            (λ _. (
              sound,
              add_event-IsConsistent json now (fails adds_event) "override_set" id
                  (override_text body.state until) app.db h.1,
            ))
            (λ _ _. h))

  handle_write-IsKept :
      (c : Context R) (w : Write R) (app : App R)
      → IsKept c.json app
      → KeepsAll c.json (handle_write c w app)
  unfolding handle_write handle_clear_valve_override
  handle_write-IsKept c (post_prefs body) app h = handle_set_prefs-IsKept c.json body app h
  handle_write-IsKept c (post_target id body) app h =
      handle_set_target-IsKept c.json c.now c.fails id body app h
  handle_write-IsKept c (post_profile body) app h =
      handle_create_profile-IsKept c.json c.now c.fails body app h
  handle_write-IsKept c (post_assign id body q) app h =
      handle_assign_profile-IsKept c.json c.now c.fails id body q app h
  handle_write-IsKept c (post_cancel id) app h =
      handle_cancel_profile-IsKept c.json c.fails id app h
  handle_write-IsKept c (post_pause id q) app h =
      handle_pause_profile-IsKept c.json c.now c.fails id q app h
  handle_write-IsKept c (post_mode id body) app h =
      handle_set_mode-IsKept c.json c.now c.fails id body app h
  handle_write-IsKept c (post_valve id body) app h =
      handle_set_valve_override-IsKept c.json c.now c.fails id body app h
  handle_write-IsKept c (post_valve_clear id) app h = (
    clear_override-IsSound id app.sys h.0,
    add_event-IsConsistent c.json c.now (c.fails adds_event) "override_clear" id "" app.db h.1,
  )
  handle_write-IsKept c (post_settings body) app h =
      handle_set_settings-IsKept c.json c.now c.fails body app h

  -- Whatever a request asks for on any of the routes, and whichever statements of the store fail: if
  -- valves and overrides are told by the texts that the code writes, the ids of the stored profiles lie
  -- below the next one, and every assignment is of a profile that is stored and, if that can be read and
  -- has steps, stands at one of them, so it is once the request is served.
  pub serve-IsKept :
      (c : Context R) (r : Route R) (app : App R)
      → IsKept c.json app
      → IsKept c.json (serve c r app).0
  unfolding serve serve_status serve_login serve_logout
  serve-IsKept c (reads r) app h = h
  serve-IsKept c auth_status app h = h
  serve-IsKept c auth_logout app h = h
  serve-IsKept c (auth_login pin) app h = h
  serve-IsKept c (writes w) app h =
      let (server', passed) = require_auth c.now (request_of c w) app.server in
      if-cases (KeepsAll c.json) passed
        (λ _. handle_write-IsKept c w (record app { server = server' }) h) (λ _. h)
