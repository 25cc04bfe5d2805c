-- ===== src/Api/Requests.antt =====
-- What every request keeps of the state and the tables.
use phb_open_ferm.Prelude.{
  ℕ, zero, suc, String, ◌≡◌, refl, Bool, true, false, not, Option, none, some, [], ◌∷◌, ◌==◌, ◌||◌,
  ◌&&◌, if-cases, elim-cases,
}
use phb_open_ferm.Prelude.Int.{ℤ, pos, negsuc}
use phb_open_ferm.Time.{Time}
use phb_open_ferm.Float64.{Float64}
use phb_open_ferm.Control.{mode_fixed}
use phb_open_ferm.Control.Setters.{set_target, set_mode}
use phb_open_ferm.Control.Invariant.{IsSound, set_target-IsSound, set_mode-IsSound}
use phb_open_ferm.Store.{Db, Json, Assignment, ProfileSpec}
use phb_open_ferm.Store.Rows.{save_mode}
use phb_open_ferm.Store.Profiles.{
  create_profile, get_profile, get_assignment, upsert_assignment, delete_assignment,
}
use phb_open_ferm.Store.Events.{add_event}
use phb_open_ferm.Scheduler.Rounds.{get_assignment_accepted, save_targets-tables}
use phb_open_ferm.Scheduler.Consistency.{
  IsFitting, IsConsistent, IsConsistent-same, create_profile-IsConsistent,
  upsert_assignment-IsConsistent, delete_assignment-IsConsistent, get_profile-IsStored, IsStored,
}
use phb_open_ferm.Api.{
  App, Failures, reads_profile, creates_profile, reads_assignment, writes_assignment,
  deletes_assignment, saves_target, saves_mode, adds_event, Answer,
}
use phb_open_ferm.Api.Targets.{change_target, handle_set_target}
use phb_open_ferm.Api.Profiles.{
  AssignBody, wanted_profile, paused_of, pause_found, assigned_row, handle_create_profile,
  write_assignment, assign_profile, handle_assign_profile, handle_pause_profile,
  handle_cancel_profile,
}
use phb_open_ferm.Api.Modes.{ModeBody, is_mode, mode_was_set, handle_set_mode}

module _ {R : Type 0} ⦃f : Float64 R⦄ where
  abbrev pub IsKept : Json R → App R → Type 0
  IsKept json app = IsSound app.sys × IsConsistent json app.db

  abbrev pub KeepsAll : Json R → App R × Answer R → Type 0
  KeepsAll json r = IsKept json r.0

  pub add_event-IsConsistent :
      (json : Json R) (now : Time) (refused : Bool) (typ id text : String) (db : Db R)
      → IsConsistent json db
      → IsConsistent json (add_event now refused typ id text db)
  unfolding add_event
  add_event-IsConsistent json now true typ id text db h = h
  add_event-IsConsistent json now false typ id text db h = IsConsistent-same json db _ refl refl h

  change_target-IsKept :
      (json : Json R) (now : Time) (fails : Failures) (id : String) (t : R) (app : App R)
      → IsKept json app
      → IsKept json (change_target now fails id t app).0
  unfolding change_target
  change_target-IsKept json now fails id t app h =
      let tables =
        save_targets-tables now (fails saves_target) (set_target id t app.sys).1 app.db in
      (set_target-IsSound id t app.sys h.0, IsConsistent-same json app.db _ tables.1 tables.0 h.1)

  pub handle_set_target-IsKept :
      (json : Json R) (now : Time) (fails : Failures) (id : String) (body : Option R) (app : App R)
      → IsKept json app
      → IsKept json (handle_set_target now fails id body app).0
  unfolding handle_set_target
  handle_set_target-IsKept json now fails id none app h = h
  handle_set_target-IsKept json now fails id (some t) app h =
      if-cases (KeepsAll json) (f.lt t (f.decimal (negsuc 19) 0) || f.lt (f.decimal (pos 40) 0) t)
        (λ _. h)
        (λ _.
          elim-cases (KeepsAll json) (change_target now fails id t app).1
            (λ _. change_target-IsKept json now fails id t app h)
            (λ text _. change_target-IsKept json now fails id t app h))

  pub handle_create_profile-IsKept :
      (json : Json R) (now : Time) (fails : Failures) (body : Option (String × ProfileSpec R))
      (app : App R)
      → IsKept json app
      → KeepsAll json (handle_create_profile json now fails body app)
  unfolding handle_create_profile
  handle_create_profile-IsKept json now fails none app h = h
  handle_create_profile-IsKept json now fails (some (name, [])) app h = h
  handle_create_profile-IsKept json now fails (some (name, step ∷ steps)) app h =
      let refused = fails creates_profile in
      let made = create_profile-IsConsistent json now refused name (step ∷ steps) app.db h.1 in
      elim-cases (KeepsAll json) (create_profile json now refused name (step ∷ steps) app.db).1
        (λ _. h) (λ _ _. (h.0, made))

  pub handle_cancel_profile-IsKept :
      (json : Json R) (fails : Failures) (id : String) (app : App R)
      → IsKept json app
      → KeepsAll json (handle_cancel_profile fails id app)
  unfolding handle_cancel_profile
  handle_cancel_profile-IsKept json fails id app h =
      let gone = delete_assignment-IsConsistent json (fails deletes_assignment) id app.db h.1 in
      if-cases (KeepsAll json) (id == "") (λ _. h)
        (λ _.
          if-cases (KeepsAll json) (delete_assignment (fails deletes_assignment) id app.db).1
            (λ _. (h.0, gone)) (λ _. h))

  pause_found-IsKept :
      (json : Json R) (now : Time) (fails : Failures) (id q : String)
      (o : Option (Option (Assignment R))) (app : App R)
      → get_assignment (fails reads_assignment) id app.db ≡ o
      → IsKept json app
      → KeepsAll json (pause_found now fails q o app)
  unfolding pause_found
  pause_found-IsKept json now fails id q none app found h = h
  pause_found-IsKept json now fails id q (some none) app found h = h
  pause_found-IsKept json now fails id q (some (some a)) app found h =
      let row : Assignment R = record a { paused = paused_of q a.paused } in
      let refused = fails writes_assignment in
      let at = get_assignment_accepted (fails reads_assignment) id app.db a found in
      let fits : IsFitting json app.db row = h.1.fitting id a at in
      if-cases (KeepsAll json) (upsert_assignment now refused row app.db).1
        (λ _. (h.0, upsert_assignment-IsConsistent json now refused row app.db fits h.1)) (λ _. h)

  pub handle_pause_profile-IsKept :
      (json : Json R) (now : Time) (fails : Failures) (id q : String) (app : App R)
      → IsKept json app
      → KeepsAll json (handle_pause_profile now fails id q app)
  unfolding handle_pause_profile
  handle_pause_profile-IsKept json now fails id q app h =
      if-cases (KeepsAll json) (id == "") (λ _. h)
        (λ _. pause_found-IsKept json now fails id q _ app refl h)

  write_assignment-IsKept :
      (json : Json R) (now : Time) (fails : Failures) (id : String) (n : ℕ) (t : R) (app : App R)
      → IsStored n app.db
      → IsKept json app
      → KeepsAll json (write_assignment now fails id n t app)
  unfolding write_assignment
  write_assignment-IsKept json now fails id n t app known h =
      let row = assigned_row now id n t in
      let refused = fails writes_assignment in
      if-cases (KeepsAll json) (upsert_assignment now refused row app.db).1
        (λ _. (
          h.0,
          upsert_assignment-IsConsistent json now refused row app.db (known, λ s _ steps. steps)
              h.1,
        ))
        (λ _. h)

  assign_profile-IsKept :
      (json : Json R) (now : Time) (fails : Failures) (id : String) (n : ℤ) (from_c : Option R)
      (app : App R)
      → IsKept json app
      → KeepsAll json (assign_profile json now fails id n from_c app)
  unfolding assign_profile
  assign_profile-IsKept json now fails id (negsuc n) from_c app h = h
  assign_profile-IsKept json now fails id (pos zero) from_c app h = h
  assign_profile-IsKept json now fails id (pos (suc n)) from_c app h =
      elim-cases (KeepsAll json) (get_profile json (fails reads_profile) (suc n) app.db) (λ _. h)
        (λ spec got.
          elim-cases (KeepsAll json) _ (λ _. h)
            (λ t _.
              write_assignment-IsKept json now fails id (suc n) t app
                (get_profile-IsStored json (fails reads_profile) (suc n) app.db spec got) h))

  pub handle_assign_profile-IsKept :
      (json : Json R) (now : Time) (fails : Failures) (id : String) (body : AssignBody R)
      (q : String) (app : App R)
      → IsKept json app
      → KeepsAll json (handle_assign_profile json now fails id body q app)
  unfolding handle_assign_profile
  handle_assign_profile-IsKept json now fails id body q app h =
      if-cases (KeepsAll json) (id == "") (λ _. h)
        (λ _.
          assign_profile-IsKept json now fails id (wanted_profile body.profile_id q) body.from_c app
            h)

  save_mode-IsConsistent :
      (json : Json R) (now : Time) (refused : Bool) (id m : String) (db : Db R)
      → IsConsistent json db
      → IsConsistent json (save_mode now refused id m db).0
  unfolding save_mode
  save_mode-IsConsistent json now true id m db h = h
  save_mode-IsConsistent json now false id m db h = IsConsistent-same json db _ refl refl h

  mode_was_set-IsKept :
      (json : Json R) (now : Time) (fails : Failures) (id : String) (body : ModeBody R)
      (app : App R)
      → IsKept json app
      → IsKept json (mode_was_set now fails id body app)
  unfolding mode_was_set
  mode_was_set-IsKept json now fails id body app h =
      let saved : App R = record app {
        db = (save_mode now (fails saves_mode) id body.mode app.db).0;
      } in
      let first : IsKept json saved =
        (h.0, save_mode-IsConsistent json now (fails saves_mode) id body.mode app.db h.1) in
      let moved =
        if-cases (IsKept json)
          (body.mode == mode_fixed && not (f.eq body.target_c (f.decimal (pos 0) 0)))
          (λ _. change_target-IsKept json now fails id body.target_c saved first) (λ _. first) in
      (
        moved.0,
        add_event-IsConsistent json now (fails adds_event) "mode_change" id body.mode _ moved.1,
      )

  pub handle_set_mode-IsKept :
      (json : Json R) (now : Time) (fails : Failures) (id : String) (body : Option (ModeBody R))
      (app : App R)
      → IsKept json app
      → KeepsAll json (handle_set_mode now fails id body app)
  unfolding handle_set_mode
  handle_set_mode-IsKept json now fails id none app h = h
  handle_set_mode-IsKept json now fails id (some body) app h =
      let (sys', err) = set_mode id body.mode app.sys in
      let sound = set_mode-IsSound id body.mode app.sys h.0 in
      if-cases (KeepsAll json) (not (is_mode body.mode)) (λ _. h)
        (λ _.
          elim-cases (KeepsAll json) err
            (λ _.
              mode_was_set-IsKept json now fails id body (record app { sys = sys' }) (sound, h.1))
            (λ _ _. h))
