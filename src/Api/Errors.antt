-- ===== src/Api/Errors.antt =====
-- What a request that is answered with an error leaves behind.
use phb_open_ferm.Prelude.{
  ℕ, zero, suc, ◌≤◌, String, ◌≡◌, refl, ap, ◌∙◌, Bool, true, false, not, ◌&&◌, ◌||◌, Option, none,
  some, [], ◌∷◌, ◌==◌, arith, if-cases, elim-cases, Option-cases, inl, inr,
}
use phb_open_ferm.Prelude.Int.{ℤ, pos, negsuc}
use phb_open_ferm.Decimal.{format_int}
use phb_open_ferm.Time.{Time}
use phb_open_ferm.Float64.{Float64}
use phb_open_ferm.Control.{valve_open, valve_closed}
use phb_open_ferm.Control.Fleet.{find}
use phb_open_ferm.Control.Setters.{set_target, set_mode, set_valve_override_until}
use phb_open_ferm.Store.{Db, Json, ProfileSpec, Assignment}
use phb_open_ferm.Store.Rows.{save_targets}
use phb_open_ferm.Store.Profiles.{create_profile, get_profile, upsert_assignment, delete_assignment}
use phb_open_ferm.Store.Settings.{ControllerSettings, set_setting, save_controller_settings}
use phb_open_ferm.Api.{
  App, Failures, reads_profile, creates_profile, writes_assignment, deletes_assignment,
  saves_setting, Answer,
}
use phb_open_ferm.Api.Targets.{change_target, handle_set_prefs, handle_set_target}
use phb_open_ferm.Api.Modes.{
  ModeBody, ValveBody, is_mode, until_of, handle_set_mode, handle_set_valve_override,
  handle_clear_valve_override,
}
use phb_open_ferm.Api.Profiles.{
  AssignBody, wanted_profile, paused_of, pause_found, assigned_row, handle_create_profile,
  write_assignment, assign_profile, handle_assign_profile, handle_pause_profile,
  handle_cancel_profile,
}
use phb_open_ferm.Api.Settings.{handle_set_settings}
use phb_open_ferm.Api.Routes.{
  Context, Write, handle_write, post_prefs, post_target, post_profile, post_assign, post_cancel,
  post_pause, post_mode, post_valve, post_valve_clear, post_settings,
}

module _ {R : Type 0} where
  -- An error leaves the state as it was, but for the table of settings.
  abbrev IsClean : App R → App R × Answer R → Type 0
  IsClean app r =
      400 ≤ r.1.status → r.0 ≡ record app { db = record app.db { settings = r.0.db.settings } }

  create_profile-IsClean :
      (json : Json R) (now : Time) (fails : Failures) (body : Option (String × ProfileSpec R))
      (app : App R)
      → IsClean app (handle_create_profile json now fails body app)
  unfolding handle_create_profile
  create_profile-IsClean json now fails none app = λ _. refl
  create_profile-IsClean json now fails (some (name, [])) app = λ _. refl
  create_profile-IsClean json now fails (some (name, step ∷ steps)) app =
      elim-cases (IsClean app)
        (create_profile json now (fails creates_profile) name (step ∷ steps) app.db).1 (λ _ _. refl)
        (λ _ _ wrong. absurd (omega (arith, wrong)))

  cancel_profile-IsClean :
      (fails : Failures) (id : String) (app : App R)
      → IsClean app (handle_cancel_profile fails id app)
  unfolding handle_cancel_profile
  cancel_profile-IsClean fails id app =
      if-cases (IsClean app) (id == "") (λ _ _. refl)
        (λ _.
          if-cases (IsClean app) (delete_assignment (fails deletes_assignment) id app.db).1
            (λ _ wrong. absurd (omega (arith, wrong))) (λ _ _. refl))

  pause_found-IsClean :
      (now : Time) (fails : Failures) (q : String) (o : Option (Option (Assignment R)))
      (app : App R)
      → IsClean app (pause_found now fails q o app)
  unfolding pause_found
  pause_found-IsClean now fails q none app = λ _. refl
  pause_found-IsClean now fails q (some none) app = λ _. refl
  pause_found-IsClean now fails q (some (some a)) app =
      if-cases (IsClean app)
        (upsert_assignment now (fails writes_assignment)
          (record a { paused = paused_of q a.paused }) app.db).1
        (λ _ wrong. absurd (omega (arith, wrong))) (λ _ _. refl)

  pause_profile-IsClean :
      (now : Time) (fails : Failures) (id q : String) (app : App R)
      → IsClean app (handle_pause_profile now fails id q app)
  unfolding handle_pause_profile
  pause_profile-IsClean now fails id q app =
      if-cases (IsClean app) (id == "") (λ _ _. refl) (λ _. pause_found-IsClean now fails q _ app)

  write_assignment-IsClean :
      (now : Time) (fails : Failures) (id : String) (n : ℕ) (t : R) (app : App R)
      → IsClean app (write_assignment now fails id n t app)
  unfolding write_assignment
  write_assignment-IsClean now fails id n t app =
      if-cases (IsClean app)
        (upsert_assignment now (fails writes_assignment) (assigned_row now id n t) app.db).1
        (λ _ wrong. absurd (omega (arith, wrong))) (λ _ _. refl)

  assign_profile-IsClean :
      (json : Json R) (now : Time) (fails : Failures) (id : String) (n : ℤ) (from_c : Option R)
      (app : App R)
      → IsClean app (assign_profile json now fails id n from_c app)
  unfolding assign_profile
  assign_profile-IsClean json now fails id (negsuc n) from_c app = λ _. refl
  assign_profile-IsClean json now fails id (pos zero) from_c app = λ _. refl
  assign_profile-IsClean json now fails id (pos (suc n)) from_c app =
      elim-cases (IsClean app) (get_profile json (fails reads_profile) (suc n) app.db) (λ _ _. refl)
        (λ spec _.
          elim-cases (IsClean app) _ (λ _ _. refl)
            (λ t _. write_assignment-IsClean now fails id (suc n) t app))

  handle_assign_profile-IsClean :
      (json : Json R) (now : Time) (fails : Failures) (id : String) (body : AssignBody R)
      (q : String) (app : App R)
      → IsClean app (handle_assign_profile json now fails id body q app)
  unfolding handle_assign_profile
  handle_assign_profile-IsClean json now fails id body q app =
      if-cases (IsClean app) (id == "") (λ _ _. refl)
        (λ _.
          assign_profile-IsClean json now fails id (wanted_profile body.profile_id q) body.from_c
            app)

module _ {R : Type 0} ⦃f : Float64 R⦄ where
  set_prefs-IsClean :
      (body : Option (String × String)) (app : App R) → IsClean app (handle_set_prefs body app)
  unfolding handle_set_prefs
  set_prefs-IsClean none app = λ _. refl
  set_prefs-IsClean (some body) app = λ wrong. absurd (omega (arith, wrong))

  valve_override-IsClean :
      (now : Time) (fails : Failures) (id : String) (body : Option ValveBody) (app : App R)
      → IsClean app (handle_set_valve_override now fails id body app)
  unfolding handle_set_valve_override
  valve_override-IsClean now fails id none app = λ _. refl
  valve_override-IsClean now fails id (some body) app =
      if-cases (IsClean app) (not (body.state == valve_open) && not (body.state == valve_closed))
        (λ _ _. refl)
        (λ _.
          elim-cases (IsClean app)
            (set_valve_override_until id body.state (until_of now body) app.sys).1
            (λ _ wrong. absurd (omega (arith, wrong))) (λ _ _ _. refl))

  change_target_failed :
      (now : Time) (fails : Failures) (id : String) (t : R) (app : App R) (text : String)
      → (change_target now fails id t app).1 ≡ some text
      → (change_target now fails id t app).0 ≡ app
  unfolding change_target set_target save_targets
  change_target_failed now fails id t app text e = elim (Option-cases (find id app.sys.fv)) [
    | inl missing ↦ rw (missing, change_target, set_target) refl
    | inr (x, found) ↦
        (let fine : (change_target now fails id t app).1 ≡ none =
            rw (found, change_target, set_target) refl in
          absurd (ground (arith, fine, e)))
  ]

  same_app :
      (app app' : App R)
      → app' ≡ app
      → app' ≡ record app { db = record app.db { settings = app'.db.settings } }
  same_app app app' e = rw e refl

  set_target-IsClean :
      (now : Time) (fails : Failures) (id : String) (body : Option R) (app : App R)
      → IsClean app (handle_set_target now fails id body app)
  unfolding handle_set_target
  set_target-IsClean now fails id none app = λ _. refl
  set_target-IsClean now fails id (some t) app =
      if-cases (IsClean app) (f.lt t (f.decimal (negsuc 19) 0) || f.lt (f.decimal (pos 40) 0) t)
        (λ _ _. refl)
        (λ _.
          elim-cases (IsClean app) (change_target now fails id t app).1
            (λ _ wrong. absurd (omega (arith, wrong)))
            (λ text e _. same_app app _ (change_target_failed now fails id t app text e)))

  set_mode-IsClean :
      (now : Time) (fails : Failures) (id : String) (body : Option (ModeBody R)) (app : App R)
      → IsClean app (handle_set_mode now fails id body app)
  unfolding handle_set_mode
  set_mode-IsClean now fails id none app = λ _. refl
  set_mode-IsClean now fails id (some body) app =
      if-cases (IsClean app) (not (is_mode body.mode)) (λ _ _. refl)
        (λ _.
          elim-cases (IsClean app) (set_mode id body.mode app.sys).1
            (λ _ wrong. absurd (omega (arith, wrong))) (λ _ _ _. refl))

  -- Saving settings writes no other table.
  abbrev IsSaved : Db R → Db R × Bool → Type 0
  IsSaved db r = r.0 ≡ record db { settings = r.0.settings }

  set_setting-IsSaved :
      (refused : Bool) (key val : String) (db : Db R) → IsSaved db (set_setting refused key val db)
  unfolding set_setting
  set_setting-IsSaved true key val db = refl
  set_setting-IsSaved false key val db = refl

  IsSaved-trans :
      (db : Db R) (one two : Db R × Bool) → IsSaved db one → IsSaved one.0 two → IsSaved db two
  IsSaved-trans db one two p q = q ∙ ap (λ (d : Db R). record d { settings = two.0.settings }) p

  save_controller_settings-IsSaved :
      (refused : String → Bool) (cs : ControllerSettings R) (db : Db R)
      → IsSaved db (save_controller_settings refused cs db)
  unfolding save_controller_settings
  save_controller_settings-IsSaved refused cs db =
      let first = set_setting (refused "band_c") "band_c" (f.general cs.band_c) db in
      let second =
        set_setting (refused "min_change_s") "min_change_s" (format_int cs.min_change_s) first.0 in
      let third = set_setting (refused "max_open") "max_open" (format_int cs.max_open) second.0 in
      let one = set_setting-IsSaved (refused "band_c") "band_c" (f.general cs.band_c) db in
      let two = IsSaved-trans db first second one (
        set_setting-IsSaved (refused "min_change_s") "min_change_s" (format_int cs.min_change_s)
          first.0) in
      let three =
        IsSaved-trans db second third two
          (set_setting-IsSaved (refused "max_open") "max_open" (format_int cs.max_open) second.0) in
      if-cases (IsSaved db) first.1 (λ _. if-cases (IsSaved db) second.1 (λ _. three) (λ _. two))
        (λ _. one)

  set_settings-IsClean :
      (now : Time) (fails : Failures) (body : Option (ControllerSettings R)) (app : App R)
      → IsClean app (handle_set_settings now fails body app)
  unfolding handle_set_settings
  set_settings-IsClean now fails none app = λ _. refl
  set_settings-IsClean now fails (some body) app =
      let refused : String → Bool = λ key. fails (saves_setting key) in
      let saved = save_controller_settings refused body app.db in
      if-cases (IsClean app) saved.1 (λ _ wrong. absurd (omega (arith, wrong)))
        (λ _ _.
          ap (λ (d : Db R). record app { db = d })
            (save_controller_settings-IsSaved refused body app.db))

  -- Whichever write is asked for: if the answer is an error, every part of the state is as it was,
  -- except that some of the settings may have been saved.
  pub error_changes_nothing :
      (c : Context R) (w : Write R) (app : App R)
      → let r = handle_write c w app in
        400 ≤ r.1.status → r.0 ≡ record app { db = record app.db { settings = r.0.db.settings } }
  unfolding handle_write handle_clear_valve_override
  error_changes_nothing c (post_prefs body) app = set_prefs-IsClean body app
  error_changes_nothing c (post_target id body) app = set_target-IsClean c.now c.fails id body app
  error_changes_nothing c (post_profile body) app =
      create_profile-IsClean c.json c.now c.fails body app
  error_changes_nothing c (post_assign id body q) app =
      handle_assign_profile-IsClean c.json c.now c.fails id body q app
  error_changes_nothing c (post_cancel id) app = cancel_profile-IsClean c.fails id app
  error_changes_nothing c (post_pause id q) app = pause_profile-IsClean c.now c.fails id q app
  error_changes_nothing c (post_mode id body) app = set_mode-IsClean c.now c.fails id body app
  error_changes_nothing c (post_valve id body) app =
      valve_override-IsClean c.now c.fails id body app
  error_changes_nothing c (post_valve_clear id) app = λ wrong. absurd (omega (arith, wrong))
  error_changes_nothing c (post_settings body) app = set_settings-IsClean c.now c.fails body app
