-- ===== src/Process/Overlap/Lost.antt =====
-- A round that is about to write its row does not see what a request has written since the round read:
-- there is no transaction over both.
use phb_open_ferm.Prelude.{
  ℕ, ◌+◌, ◌<◌, String, ◌≡◌, refl, ap, ◌∙◌, Bool, true, false, none, some, ◌==◌, arith,
  if◌then◌else◌, if_true, if_false, test_self, subst, length, leb, eqb,
}
use phb_open_ferm.Time.{Time}
use phb_open_ferm.Float64.{Float64}
use phb_open_ferm.Store.{Db, ProfileSpec, Assignment, Json}
use phb_open_ferm.Store.Profiles.{get_assignment, upsert_assignment, upserted, delete_assignment}
use phb_open_ferm.Scheduler.{Faults, advance}
use phb_open_ferm.Scheduler.Rounds.{current}
use phb_open_ferm.Scheduler.Progress.{advanced, current-insert, current-erase}
use phb_open_ferm.Scheduler.Holds.{get_assignment_of_current}
use phb_open_ferm.Api.{App, Failures, reads_assignment, deletes_assignment, Answer, no_content}
use phb_open_ferm.Api.Profiles.{handle_cancel_profile}
use phb_open_ferm.Process.Overlap.{
  has_moved, Overlap, Step, Reach, update, continue_round, pausing, paused_row, goes_on,
  reads_pause, finishes_write, here, later, with_tables, written,
}

eqb_self : (k : ℕ) → eqb k k ≡ true
eqb_self k = ground arith

module _ {R : Type 0} ⦃f : Float64 R⦄ where
  -- The row that a round leaves when it goes on to a step.
  advance_writes :
      (now : Time) (id : String) (a : Assignment R) (spec : ProfileSpec R) (t : R) (db : Db R)
      → a.fv_id ≡ id
      → a.step_idx + 1 < length spec
      → current id (advance now false id a spec t db).assignments
        ≡ some (upserted now (advanced now a t))
  unfolding advance upsert_assignment
  advance_writes now id a spec t db own going =
      let inside : leb (length spec) (a.step_idx + 1) ≡ false = ground arith in
      ap (λ (d : Db R). current id d.assignments) (if_false _ _ inside)
      ∙ current-insert now a.fv_id id (advanced now a t) db.assignments refl
      ∙ if_true (a.fv_id == id) _
          (subst (λ (s : String). (a.fv_id == s) ≡ true) own (test_self a.fv_id))

  cancelled :
      (fails : Failures) (id : String) (app : App R)
      → (id == "") ≡ false
      → fails deletes_assignment ≡ false
      → handle_cancel_profile fails id app
        ≡ (record app { db = (delete_assignment false id app.db).0 }, no_content)
  unfolding handle_cancel_profile delete_assignment
  cancelled fails id app named works = rw (works, named, handle_cancel_profile, if◌then◌else◌) refl

  erased :
      (id : String) (db : Db R) → current id (delete_assignment false id db).0.assignments ≡ none
  unfolding delete_assignment
  erased id db = current-erase id id db.assignments ∙ if_true (id == id) _ (test_self id)

  -- The last part of a round.
  writes_row :
      (json : Json R) (e : Faults) (now : Time) (id : String) (a : Assignment R)
      (spec : ProfileSpec R) (t : R) (w : Overlap R)
      → w.round ≡ some (has_moved now id a spec t)
      → Step json w (record w {
        app = with_tables (w.app.sys, advance now e.write id a spec t w.app.db) w.app;
        round = none;
      })
  unfolding continue_round
  writes_row json e now id a spec t w at = goes_on e (has_moved now id a spec t) _ at refl

  -- Whenever a round is about to lead an assignment on to a further step, a request that cancels the
  -- profile, answered 204 with the assignment gone, is undone: the round's write assigns the profile
  -- again, at that step.
  pub cancel_undone :
      (json : Json R) (now : Time) (id : String) (a : Assignment R) (spec : ProfileSpec R) (t : R)
      (w : Overlap R) (fails : Failures) (e : Faults)
      → w.round ≡ some (has_moved now id a spec t)
      → a.fv_id ≡ id
      → a.step_idx + 1 < length spec
      → (id == "") ≡ false
      → fails deletes_assignment ≡ false
      → e.write ≡ false
      → let (gone, answer) = handle_cancel_profile fails id w.app in
        (answer ≡ no_content)
        × (current id gone.db.assignments ≡ none)
        × (v : Overlap R) × Reach json (record w { app = gone }) v
        × (current id v.app.db.assignments ≡ some (upserted now (advanced now a t)))
  cancel_undone json now id a spec t w fails e at own going named works writes =
      let ran = cancelled fails id w.app named works in
      let u : Overlap R = record w { app = (handle_cancel_profile fails id w.app).0 } in
      (
        ap (λ (r : App R × Answer R). r.1) ran,
        ap (λ (r : App R × Answer R). current id r.0.db.assignments) ran ∙ erased id w.app.db,
        _,
        later here (writes_row json e now id a spec t u at),
        ap (λ (refused : Bool). current id (advance now refused id a spec t u.app.db).assignments)
              writes
            ∙ advance_writes now id a spec t u.app.db own going,
      )

  -- The row that a request writes that pauses.
  paused_written :
      (now : Time) (id : String) (row : Assignment R) (app : App R)
      → row.fv_id ≡ id
      → current id (written now false row app).db.assignments ≡ some (upserted now row)
  unfolding upsert_assignment
  paused_written now id row app own =
      current-insert now row.fv_id id row app.db.assignments refl
      ∙ if_true (row.fv_id == id) _
          (subst (λ (s : String). (row.fv_id == s) ≡ true) own (test_self row.fv_id))

  pause_reads :
      (fails : Failures) (id : String) (a : Assignment R) (app : App R)
      → current id app.db.assignments ≡ some a
      → (id == "") ≡ false
      → fails reads_assignment ≡ false
      → pausing fails id "1" app ≡ some (record a { paused = true })
  unfolding pausing get_assignment
  pause_reads fails id a app at named works =
      if_false (id == "") none named
      ∙ ap (paused_row "1") (
          ap (λ (refused : Bool). get_assignment refused id app.db) works
          ∙ get_assignment_of_current id app.db a at)

  -- And so is a request that pauses: its row, paused, is in the table, and the round's write leaves a
  -- row that is not, one step on.
  pub pause_undone :
      (json : Json R) (now late : Time) (id : String) (a : Assignment R) (spec : ProfileSpec R)
      (t : R) (w : Overlap R) (k : ℕ) (fails : Failures) (e : Faults)
      → w.round ≡ some (has_moved now id a spec t)
      → w.writes k ≡ none
      → current id w.app.db.assignments ≡ some a
      → a.fv_id ≡ id
      → a.paused ≡ false
      → a.step_idx + 1 < length spec
      → (id == "") ≡ false
      → fails reads_assignment ≡ false
      → e.write ≡ false
      → (u : Overlap R) × Reach json w u
        × ((b : Assignment R) × (current id u.app.db.assignments ≡ some b) × (b.paused ≡ true))
        × (v : Overlap R) × Reach json u v
        × ((b : Assignment R) × (current id v.app.db.assignments ≡ some b)
            × (b.paused ≡ false)
            × (b.step_idx ≡ a.step_idx + 1))
  pause_undone json now late id a spec t w k fails e at free here_now own on going named works
        writes =
      let row : Assignment R = record a { paused = true } in
      let asked : Overlap R = record w { writes = update w.writes k (some (late, row)) } in
      let u : Overlap R = record asked {
        app = written late false row w.app;
        writes = update asked.writes k none;
      } in
      (
        u,
        later
            (later here (
              reads_pause late fails k id "1" row free
                (pause_reads fails id a w.app here_now named works)))
            (finishes_write k late row false (if_true (eqb k k) (w.writes k) (eqb_self k))),
        (upserted late row, paused_written late id row w.app own, refl),
        _,
        later here (writes_row json e now id a spec t u at),
        (
          upserted now (advanced now a t),
          ap (λ (refused : Bool). current id (advance now refused id a spec t u.app.db).assignments)
                writes
              ∙ advance_writes now id a spec t u.app.db own going,
          on,
          refl,
        ),
      )
