-- ===== src/Api/Assigning.antt =====
-- Assigning and pausing a profile over the API, and what the scheduler makes of it.
use phb_open_ferm.Prelude.{
  ℕ, suc, String, ◌≡◌, ◌≢◌, refl, ap, ◌∙◌, Bool, true, false, not, Option, none, some, List, ◌==◌,
  arith, if◌then◌else◌, if_true, if_false, if-cases, get_elem?, test_self, test_of_ne,
}
use phb_open_ferm.Prelude.Int.{ℤ, pos}
use phb_open_ferm.Time.{Time, unix}
use phb_open_ferm.Float64.{Float64}
use phb_open_ferm.Control.{Fermenter, SystemState, mode_profile}
use phb_open_ferm.Store.{Db, Json, ProfileSpec, Assignment}
use phb_open_ferm.Store.Profiles.{get_profile, get_assignment, upsert_assignment, upserted}
use phb_open_ferm.Scheduler.{Faults, schedule, with_fermenter, with_assignment}
use phb_open_ferm.Scheduler.Rounds.{current}
use phb_open_ferm.Scheduler.Progress.{current-insert, own_id}
use phb_open_ferm.Scheduler.Holds.{get_assignment_of_current}
use phb_open_ferm.Api.{
  App, Failures, reads_profile, reads_assignment, writes_assignment, no_content,
}
use phb_open_ferm.Api.Profiles.{
  AssignBody, wanted_profile, last_target, assigned_row, paused_of, pause_found, write_assignment,
  assign_profile, handle_assign_profile, handle_pause_profile,
}

module _ {R : Type 0} where
  -- The temperature that a profile starts from.
  abbrev pub base_of : String → Option R → List (Fermenter R) → Option R
  base_of id (some t) xs = some t
  base_of id none xs = last_target id xs

module _ {R : Type 0} ⦃f : Float64 R⦄ where
  upsert_current :
      (now : Time) (a : Assignment R) (db : Db R) (id : String)
      → current id (upsert_assignment now false a db).0.assignments
        ≡ (if a.fv_id == id then some (upserted now a) else current id db.assignments)
  unfolding upsert_assignment
  upsert_current now a db id = current-insert now a.fv_id id a db.assignments refl

  assign_known :
      (json : Json R) (now : Time) (fails : Failures) (id : String) (n : ℕ) (from_c : Option R)
      (t : R) (spec : ProfileSpec R) (app : App R)
      → get_profile json (fails reads_profile) (suc n) app.db ≡ some spec
      → base_of id from_c app.sys.fv ≡ some t
      → assign_profile json now fails id (pos (suc n)) from_c app
        ≡ write_assignment now fails id (suc n) t app
  unfolding assign_profile
  assign_known json now fails id n (some u) t spec app got base =
      let same : u ≡ t = ground arith in rw (assign_profile, got, same) refl
  assign_known json now fails id n none t spec app got base = rw (assign_profile, got, base) refl

  -- A request that assigns a profile which can be read, by its id in the body or else in the query,
  -- to a fermenter that has a target or with a temperature given, is answered 204 if no statement
  -- fails: the fermenter's row is then of that profile, at step 0, started and at that step since the
  -- second of the request, from the temperature given or the fermenter's target, and not paused. No
  -- other fermenter's assignment changes.
  pub assign_begins :
      (json : Json R) (now : Time) (fails : Failures) (id : String) (body : AssignBody R)
      (q : String) (n : ℕ) (t : R) (spec : ProfileSpec R) (app : App R)
      → id ≢ ""
      → wanted_profile body.profile_id q ≡ pos (suc n)
      → get_profile json (fails reads_profile) (suc n) app.db ≡ some spec
      → base_of id body.from_c app.sys.fv ≡ some t
      → fails writes_assignment ≡ false
      → let r = handle_assign_profile json now fails id body q app in
        (r.1 ≡ no_content)
        × ((a : Assignment R) × (current id r.0.db.assignments ≡ some a)
            × (a.profile_id ≡ suc n)
            × (a.step_idx ≡ 0)
            × (a.step_started_ts ≡ unix now)
            × (a.started_ts ≡ unix now)
            × (a.from_c ≡ t)
            × (a.paused ≡ false))
        × ((other : String)
            → id ≢ other
            → current other r.0.db.assignments ≡ current other app.db.assignments)
  unfolding handle_assign_profile write_assignment
  assign_begins json now fails id body q n t spec app named wanted got base fine =
      let row = assigned_row now id (suc n) t in
      let named' : (id == "") ≡ false = test_of_ne id "" named in
      let whole : handle_assign_profile json now fails id body q app
          ≡ write_assignment now fails id (suc n) t app =
        if_false (id == "") _ named'
        ∙ ap (λ (m : ℤ). assign_profile json now fails id m body.from_c app) wanted
        ∙ assign_known json now fails id n body.from_c t spec app got base in
      rw (whole, write_assignment, fine)
        (
          refl,
          (
            upserted now row,
            upsert_current now row app.db id ∙ if_true (id == id) _ (test_self id),
            refl,
            refl,
            refl,
            refl,
            refl,
            refl,
          ),
          λ other away.
              upsert_current now row app.db other
              ∙ if_false (id == other) _ (test_of_ne id other away),
        )

  with_assignment_paused :
      (json : Json R) (now : Time) (e : Faults) (x : Fermenter R) (a : Assignment R)
      (sys : SystemState R) (db : Db R) (refused : Bool)
      → current x.id db.assignments ≡ some a
      → a.paused ≡ true
      → with_assignment json now e x (sys, db) (get_assignment refused x.id db) ≡ some (sys, db)
  unfolding with_assignment get_assignment
  with_assignment_paused json now e x a sys db true at held = refl
  with_assignment_paused json now e x a sys db false at held =
      rw (get_assignment_of_current x.id db a at) (if_true a.paused _ held)

  -- A round for a fermenter whose assignment is paused does nothing.
  schedule_paused :
      (json : Json R) (now : Time) (e : Faults) (i : ℕ) (sys : SystemState R) (db : Db R)
      (x : Fermenter R) (a : Assignment R)
      → get_elem? sys.fv i ≡ some x
      → current x.id db.assignments ≡ some a
      → a.paused ≡ true
      → schedule json now e i (sys, db) ≡ some (sys, db)
  unfolding schedule with_fermenter
  schedule_paused json now e i sys db x a here at held =
      rw (here, with_fermenter)
        (if-cases (λ (o : Option (SystemState R × Db R)). o ≡ some (sys, db))
          (not (x.mode == mode_profile)) (λ _. refl)
          (λ _. with_assignment_paused json now e x a sys db e.get_assignment at held))

  pause_known :
      (now : Time) (fails : Failures) (id q : String) (a : Assignment R) (app : App R)
      → id ≢ ""
      → fails reads_assignment ≡ false
      → current id app.db.assignments ≡ some a
      → handle_pause_profile now fails id q app ≡ pause_found now fails q (some (some a)) app
  unfolding handle_pause_profile
  pause_known now fails id q a app named read at =
      if_false (id == "") _ (test_of_ne id "" named)
      ∙ rw (read, get_assignment_of_current id app.db a at) refl

  -- A request that pauses the profile assigned to a fermenter is answered 204 if no statement fails.
  -- From then on, and while its row stays as it is, a round of the scheduler for the fermenter changes
  -- nothing, at whatever time and whichever statements fail.
  pub pause_stops_profile :
      (json : Json R) (now : Time) (fails : Failures) (id q : String) (a : Assignment R)
      (app : App R)
      → id ≢ ""
      → fails reads_assignment ≡ false
      → fails writes_assignment ≡ false
      → current id app.db.assignments ≡ some a
      → paused_of q a.paused ≡ true
      → let r = handle_pause_profile now fails id q app in
        (r.1 ≡ no_content)
        × ((later : Time) (e : Faults) (i : ℕ) (sys : SystemState R) (db : Db R) (x : Fermenter R)
            → get_elem? sys.fv i ≡ some x
            → x.id ≡ id
            → current id db.assignments ≡ current id r.0.db.assignments
            → schedule json later e i (sys, db) ≡ some (sys, db))
  unfolding pause_found
  pause_stops_profile json now fails id q a app named read write at asked =
      let row : Assignment R = record a { paused = paused_of q a.paused } in
      let own : a.fv_id ≡ id = own_id id a app.db.assignments at in
      let whole = pause_known now fails id q a app named read at in
      rw (whole, pause_found, write)
        (
          refl,
          λ later e i sys db x here same kept.
              schedule_paused json later e i sys db x (upserted now row) here
                (ap (λ (k : String). current k db.assignments) same
                  ∙ kept
                  ∙ upsert_current now row app.db id
                  ∙ if_true (a.fv_id == id) _ (rw own (test_self id)))
                asked,
        )
