-- ===== src/Api/Logging.antt =====
-- What requests do to the alarms and to the events of alarms.
use phb_open_ferm.Prelude.{
  String, ◌≡◌, ◌≢◌, refl, ◌∙◌, Bool, true, false, not, ◌&&◌, ◌||◌, Option, none, some, List, [],
  ◌∷◌, ◌==◌, if◌then◌else◌, arith, if-cases, elim-cases, ne_of_test,
}
use phb_open_ferm.Prelude.Int.{ℤ, pos, negsuc}
use phb_open_ferm.Time.{Time}
use phb_open_ferm.Float64.{Float64}
use phb_open_ferm.Control.{mode_fixed, valve_open, valve_closed}
use phb_open_ferm.Control.Setters.{TargetChange, set_target, set_mode, set_valve_override_until}
use phb_open_ferm.Session.{require_auth}
use phb_open_ferm.Store.{Db, Json, ProfileSpec}
use phb_open_ferm.Store.Events.{add_event}
use phb_open_ferm.Store.Events.Counts.{opened_rows, cleared_rows, count_rows-add_event}
use phb_open_ferm.Store.Profiles.{create_profile, upsert_assignment, delete_assignment}
use phb_open_ferm.Store.Rows.{save_mode, save_target, save_targets}
use phb_open_ferm.Store.Settings.{ControllerSettings, set_setting, save_controller_settings}
use phb_open_ferm.Api.{App, Failures, Answer, adds_event, saves_setting, saves_mode, saves_target}
use phb_open_ferm.Api.Targets.{handle_set_prefs, handle_set_target, change_target}
use phb_open_ferm.Api.Modes.{
  ModeBody, ValveBody, handle_set_mode, handle_set_valve_override, handle_clear_valve_override,
  mode_was_set, is_mode, until_of, override_text,
}
use phb_open_ferm.Api.Profiles.{
  AssignBody, handle_create_profile, write_assignment, assign_profile, handle_assign_profile,
  pause_found, handle_pause_profile, handle_cancel_profile, wanted_profile,
}
use phb_open_ferm.Api.Settings.{handle_set_settings, settings_text}
use phb_open_ferm.Api.Routes.{
  Context, Write, Route, post_prefs, post_target, post_profile, post_assign, post_cancel,
  post_pause, post_mode, post_valve, post_valve_clear, post_settings, reads, writes, auth_status,
  auth_logout, auth_login, serve, handle_write, request_of, serve_login, serve_status, serve_logout,
}

module _ {R : Type 0} where
  -- The same alarms, and as many events of openings and clearings.
  abbrev pub KeepsAlarms : App R → App R → Type 0
  KeepsAlarms app app' =
      (app'.alarms ≡ app.alarms)
      × (opened_rows app'.db ≡ opened_rows app.db)
      × (cleared_rows app'.db ≡ cleared_rows app.db)

  quiet :
      (app app' : App R)
      → app'.alarms ≡ app.alarms
      → app'.db.events ≡ app.db.events
      → KeepsAlarms app app'
  quiet app app' same rows = ground (arith, rows)

  logged :
      (now : Time) (refused : Bool) (typ id text : String) (app app' : App R)
      → typ ≢ "ALARM_OPEN"
      → typ ≢ "ALARM_CLEAR"
      → KeepsAlarms app app'
      → KeepsAlarms app (record app' { db = add_event now refused typ id text app'.db })
  logged now refused typ id text app app' opens clears h = (
    h.0,
    count_rows-add_event "ALARM_OPEN" now refused typ id text app'.db opens ∙ h.1,
    count_rows-add_event "ALARM_CLEAR" now refused typ id text app'.db clears ∙ h.2,
  )

module _ {R : Type 0} ⦃f : Float64 R⦄ where
  pub save_targets-events :
      (now : Time) (refused : Bool) (calls : List (TargetChange R)) (db : Db R)
      → (save_targets now refused calls db).events ≡ db.events
  unfolding save_targets save_target
  save_targets-events now refused [] db = refl
  save_targets-events now true (c ∷ cs) db = save_targets-events now true cs db
  save_targets-events now false (c ∷ cs) db =
      save_targets-events now false cs (save_target now false c db)

  change_target-events :
      (now : Time) (fails : Failures) (id : String) (t : R) (app : App R)
      → KeepsAlarms app (change_target now fails id t app).0
  unfolding change_target
  change_target-events now fails id t app =
      quiet app (change_target now fails id t app).0 refl
        (save_targets-events now (fails saves_target) (set_target id t app.sys).1 app.db)

  handle_set_target-KeepsAlarms :
      (now : Time) (fails : Failures) (id : String) (body : Option R) (app : App R)
      → KeepsAlarms app (handle_set_target now fails id body app).0
  unfolding handle_set_target
  handle_set_target-KeepsAlarms now fails id none app = quiet app app refl refl
  handle_set_target-KeepsAlarms now fails id (some t) app =
      let Kept = λ (r : App R × Answer R). KeepsAlarms app r.0 in
      if-cases Kept (f.lt t (f.decimal (negsuc 19) 0) || f.lt (f.decimal (pos 40) 0) t)
        (λ _. quiet app app refl refl)
        (λ _.
          elim-cases Kept (change_target now fails id t app).1
            (λ _. change_target-events now fails id t app)
            (λ text _. change_target-events now fails id t app))

  save_controller_settings-events :
      (refused : String → Bool) (cs : ControllerSettings R) (db : Db R)
      → (save_controller_settings refused cs db).0.events ≡ db.events
  unfolding save_controller_settings set_setting
  save_controller_settings-events refused cs db = ground arith

  save_mode-events :
      (now : Time) (refused : Bool) (id m : String) (db : Db R)
      → (save_mode now refused id m db).0.events ≡ db.events
  unfolding save_mode
  save_mode-events now true id m db = refl
  save_mode-events now false id m db = refl

  mode_was_set-KeepsAlarms :
      (now : Time) (fails : Failures) (id : String) (body : ModeBody R) (app : App R)
      → KeepsAlarms app (mode_was_set now fails id body app)
  unfolding mode_was_set
  mode_was_set-KeepsAlarms now fails id body app =
      let saved : App R = record app {
        db = (save_mode now (fails saves_mode) id body.mode app.db).0;
      } in
      let first : KeepsAlarms app saved =
        quiet app saved refl (save_mode-events now (fails saves_mode) id body.mode app.db) in
      let sets = body.mode == mode_fixed && not (f.eq body.target_c (f.decimal (pos 0) 0)) in
      let moved : App R =
        if sets then (change_target now fails id body.target_c saved).0 else saved in
      let second =
        if-cases (KeepsAlarms app) sets
          (λ _.
            let next = change_target-events now fails id body.target_c saved in
            (next.0, next.1 ∙ first.1, next.2 ∙ first.2))
          (λ _. first) in
      logged now (fails adds_event) "mode_change" id body.mode app moved (ne_of_test _ _ refl)
        (ne_of_test _ _ refl) second

  handle_set_mode-KeepsAlarms :
      (now : Time) (fails : Failures) (id : String) (body : Option (ModeBody R)) (app : App R)
      → KeepsAlarms app (handle_set_mode now fails id body app).0
  unfolding handle_set_mode
  handle_set_mode-KeepsAlarms now fails id none app = quiet app app refl refl
  handle_set_mode-KeepsAlarms now fails id (some body) app =
      let (sys', err) = set_mode id body.mode app.sys in
      let Kept = λ (r : App R × Answer R). KeepsAlarms app r.0 in
      if-cases Kept (not (is_mode body.mode)) (λ _. quiet app app refl refl)
        (λ _.
          elim-cases Kept err
            (λ _. mode_was_set-KeepsAlarms now fails id body (record app { sys = sys' }))
            (λ _ _. quiet app app refl refl))

  handle_set_settings-KeepsAlarms :
      (now : Time) (fails : Failures) (body : Option (ControllerSettings R)) (app : App R)
      → KeepsAlarms app (handle_set_settings now fails body app).0
  unfolding handle_set_settings
  handle_set_settings-KeepsAlarms now fails none app = quiet app app refl refl
  handle_set_settings-KeepsAlarms now fails (some body) app =
      let refused : String → Bool = λ key. fails (saves_setting key) in
      let saved : App R = record app { db = (save_controller_settings refused body app.db).0 } in
      let first : KeepsAlarms app saved =
        quiet app saved refl (save_controller_settings-events refused body app.db) in
      if-cases (λ (r : App R × Answer R). KeepsAlarms app r.0)
        (save_controller_settings refused body app.db).1
        (λ _.
          logged now (fails adds_event) "settings_update" "" (settings_text body) app saved
            (ne_of_test _ _ refl) (ne_of_test _ _ refl) first)
        (λ _. first)

  handle_set_valve_override-KeepsAlarms :
      (now : Time) (fails : Failures) (id : String) (body : Option ValveBody) (app : App R)
      → KeepsAlarms app (handle_set_valve_override now fails id body app).0
  unfolding handle_set_valve_override
  handle_set_valve_override-KeepsAlarms now fails id none app = quiet app app refl refl
  handle_set_valve_override-KeepsAlarms now fails id (some body) app =
      let until = until_of now body in
      let Kept = λ (r : App R × Answer R). KeepsAlarms app r.0 in
      if-cases Kept (not (body.state == valve_open) && not (body.state == valve_closed))
        (λ _. quiet app app refl refl)
        (λ _.
          elim-cases Kept (set_valve_override_until id body.state until app.sys).1
            (λ _.
              logged now (fails adds_event) "override_set" id (override_text body.state until) app
                app (ne_of_test _ _ refl) (ne_of_test _ _ refl) (quiet app app refl refl))
            (λ _ _. quiet app app refl refl))

  assign_profile-events :
      (json : Json R) (now : Time) (fails : Failures) (id : String) (n : ℤ) (from_c : Option R)
      (app : App R)
      → ((assign_profile json now fails id n from_c app).0.alarms ≡ app.alarms)
        × ((assign_profile json now fails id n from_c app).0.db.events ≡ app.db.events)
  unfolding assign_profile write_assignment upsert_assignment
  assign_profile-events json now fails id n from_c app = ground arith

  handle_assign_profile-KeepsAlarms :
      (json : Json R) (now : Time) (fails : Failures) (id : String) (body : AssignBody R)
      (q : String) (app : App R)
      → KeepsAlarms app (handle_assign_profile json now fails id body q app).0
  unfolding handle_assign_profile
  handle_assign_profile-KeepsAlarms json now fails id body q app =
      let wanted = wanted_profile body.profile_id q in
      let same = assign_profile-events json now fails id wanted body.from_c app in
      if-cases (λ (r : App R × Answer R). KeepsAlarms app r.0) (id == "")
        (λ _. quiet app app refl refl)
        (λ _. quiet app (assign_profile json now fails id wanted body.from_c app).0 same.0 same.1)

  profile_writes-events :
      (json : Json R) (now : Time) (fails : Failures) (id q : String)
      (body : Option (String × ProfileSpec R)) (app : App R)
      → ((handle_create_profile json now fails body app).0.db.events ≡ app.db.events)
        × ((handle_cancel_profile fails id app).0.db.events ≡ app.db.events)
        × ((handle_pause_profile now fails id q app).0.db.events ≡ app.db.events)
        × ((handle_create_profile json now fails body app).0.alarms ≡ app.alarms)
        × ((handle_cancel_profile fails id app).0.alarms ≡ app.alarms)
        × ((handle_pause_profile now fails id q app).0.alarms ≡ app.alarms)
  unfolding handle_create_profile handle_cancel_profile handle_pause_profile pause_found
      create_profile delete_assignment upsert_assignment
  profile_writes-events json now fails id q body app =
      (ground arith, ground arith, ground arith, ground arith, ground arith, ground arith)

  handle_write-KeepsAlarms :
      (c : Context R) (w : Write R) (app : App R) → KeepsAlarms app (handle_write c w app).0
  unfolding handle_write handle_clear_valve_override handle_set_prefs
  handle_write-KeepsAlarms c (post_prefs none) app = quiet app app refl refl
  handle_write-KeepsAlarms c (post_prefs (some body)) app = (refl, refl, refl)
  handle_write-KeepsAlarms c (post_target id body) app =
      handle_set_target-KeepsAlarms c.now c.fails id body app
  handle_write-KeepsAlarms c (post_profile body) app =
      let same = profile_writes-events c.json c.now c.fails "" "" body app in
      quiet app (handle_create_profile c.json c.now c.fails body app).0 same.3 same.0
  handle_write-KeepsAlarms c (post_assign id body q) app =
      handle_assign_profile-KeepsAlarms c.json c.now c.fails id body q app
  handle_write-KeepsAlarms c (post_cancel id) app =
      let same = profile_writes-events c.json c.now c.fails id "" none app in
      quiet app (handle_cancel_profile c.fails id app).0 same.4 same.1
  handle_write-KeepsAlarms c (post_pause id q) app =
      let same = profile_writes-events c.json c.now c.fails id q none app in
      quiet app (handle_pause_profile c.now c.fails id q app).0 same.5 same.2
  handle_write-KeepsAlarms c (post_mode id body) app =
      handle_set_mode-KeepsAlarms c.now c.fails id body app
  handle_write-KeepsAlarms c (post_valve id body) app =
      handle_set_valve_override-KeepsAlarms c.now c.fails id body app
  handle_write-KeepsAlarms c (post_valve_clear id) app =
      logged c.now (c.fails adds_event) "override_clear" id "" app app (ne_of_test _ _ refl)
        (ne_of_test _ _ refl) (quiet app app refl refl)
  handle_write-KeepsAlarms c (post_settings body) app =
      handle_set_settings-KeepsAlarms c.now c.fails body app

  -- No request on any route opens, clears or logs an alarm.
  pub serve-KeepsAlarms :
      (c : Context R) (r : Route R) (app : App R) → KeepsAlarms app (serve c r app).0
  unfolding serve serve_status serve_login serve_logout
  serve-KeepsAlarms c (reads r) app = quiet app app refl refl
  serve-KeepsAlarms c auth_status app = (refl, refl, refl)
  serve-KeepsAlarms c auth_logout app = (refl, refl, refl)
  serve-KeepsAlarms c (auth_login pin) app = (refl, refl, refl)
  serve-KeepsAlarms c (writes w) app =
      let (server', passed) = require_auth c.now (request_of c w) app.server in
      if-cases (λ (r : App R × Answer R). KeepsAlarms app r.0) passed
        (λ _. handle_write-KeepsAlarms c w (record app { server = server' }))
        (λ _. (refl, refl, refl))
