-- ===== src/Process/Overlap.antt =====
-- What happens between the parts of a round and of a request: GetAssignment and UpsertAssignment are
-- statements of their own, with no lock or transaction over both. `Round` is the scheduler between two
-- statements of its loop's body in runtime-pi/cmd/fermenter/main.go, and `writes` holds the rows that
-- handlers of runtime-pi/internal/api/profile.go have made up from what they read and not yet written.
-- A handler's reads are one step; whether the guard lets a request in is not asked.
pub mod Parts
pub mod Fitting
pub mod Reads
pub mod Safety
pub mod Lost
use phb_open_ferm.Prelude.{
  ℕ, zero, suc, String, ◌≡◌, Bool, not, Option, none, some, [], ◌∷◌, ◌==◌, eqb, if◌then◌else◌,
  get_elem?,
}
use phb_open_ferm.Prelude.Int.{ℤ, pos, negsuc, ◌-ℤ◌, wrap64}
use phb_open_ferm.Time.{Time, unix}
use phb_open_ferm.Float64.{Float64}
use phb_open_ferm.Control.{Fermenter, SystemState, mode_profile}
use phb_open_ferm.Control.Config.{Config}
use phb_open_ferm.Store.{Db, ProfileSpec, Assignment, Json}
use phb_open_ferm.Store.Profiles.{get_assignment, get_profile, upsert_assignment}
use phb_open_ferm.Scheduler.{Faults, plan_step, retarget, advance}
use phb_open_ferm.Scheduler.Rounds.{catalog}
use phb_open_ferm.Api.{App, Failures, reads_profile, reads_assignment}
use phb_open_ferm.Api.Profiles.{
  AssignBody, wanted_profile, paused_of, last_target, assigned_row, handle_create_profile,
  handle_cancel_profile,
}
use phb_open_ferm.Process.{BootFaults, Environment, start}

-- Where the scheduler stands with a fermenter, and what it has read: the row, then the profile, and
-- then the target that it has set when the step is over. `fv` is a pointer, so the fermenter is given
-- by its index with what it was.
pub data Round (R : Type 0) : Type 0 where
  has_row : Time → ℕ → Fermenter R → Assignment R → Round R
  has_profile : Time → ℕ → Fermenter R → Assignment R → ProfileSpec R → Round R
  has_moved : Time → String → Assignment R → ProfileSpec R → R → Round R

-- A row that a handler is about to write, and when the request came.
abbrev pub PendingWrite : Type 0 → Type 0
PendingWrite R = Option (Time × Assignment R)

pub record Overlap (R : Type 0) : Type 0 where
  pub app : App R
  pub round : Option (Round R)
  pub writes : ℕ → PendingWrite R

module _ {R : Type 0} where
  abbrev pub update : (ℕ → PendingWrite R) → ℕ → PendingWrite R → ℕ → PendingWrite R
  update p i v j = if eqb i j then v else p j

  abbrev pub idle : App R → Overlap R
  idle app = record { app = app; round = none; writes = λ _. none }

  -- The fermenter as it is now.
  abbrev pub live : ℕ → Fermenter R → SystemState R → Fermenter R
  live i x sys = elim (get_elem? sys.fv i) [ none ↦ x | some y ↦ y ]

  abbrev row_found : Time → ℕ → Fermenter R → Option (Option (Assignment R)) → Option (Round R)
  row_found now i x none = none
  row_found now i x (some none) = none
  row_found now i x (some (some a)) = if a.paused then none else some (has_row now i x a)

  abbrev fermenter_found : Time → Faults → ℕ → Db R → Option (Fermenter R) → Option (Round R)
  fermenter_found now e i db none = none
  fermenter_found now e i db (some x) =
      if not (x.mode == mode_profile)
      then none
      else row_found now i x (get_assignment e.get_assignment x.id db)

  -- The body of the loop up to its read of the row; `none` is a `continue`.
  unfoldable pub begin_round : Time → Faults → ℕ → SystemState R × Db R → Option (Round R)
  unfolding get_assignment
  begin_round now e i w = fermenter_found now e i w.1 (get_elem? w.0.fv i)

  abbrev profile_found :
      Time → ℕ → Fermenter R → Assignment R → Option (ProfileSpec R) → Option (Round R)
  profile_found now i x a none = none
  profile_found now i x a (some []) = none
  profile_found now i x a (some (step ∷ steps)) = some (has_profile now i x a (step ∷ steps))

  abbrev paused_row : String → Option (Option (Assignment R)) → Option (Assignment R)
  paused_row q none = none
  paused_row q (some none) = none
  paused_row q (some (some a)) = some (record a { paused = paused_of q a.paused })

module _ {R : Type 0} ⦃f : Float64 R⦄ where
  abbrev leaves : Time → Fermenter R → Assignment R → ProfileSpec R → R × Bool → Option (Round R)
  leaves now x a spec plan = if plan.1 then some (has_moved now x.id a spec plan.0) else none

  -- From one statement of a round to the next. The outer `none` is the panic of an index out of
  -- range, the inner one says that the round is over.
  unfoldable pub continue_round :
      Json R
      → Faults
      → Round R
      → SystemState R × Db R
      → Option ((SystemState R × Db R) × Option (Round R))
  unfolding get_profile plan_step retarget advance
  continue_round json e (has_row now i x a) (sys, db) =
      some ((sys, db), profile_found now i x a (get_profile json e.get_profile a.profile_id db))
  continue_round json e (has_profile now i x a spec) (sys, db) = elim (get_elem? spec a.step_idx) [
    | none ↦ none
    | some step ↦
        (let y = live i x sys in
          let plan = plan_step y a step (wrap64 (unix now -ℤ a.step_started_ts)) in
          some (retarget now e.save_target y plan.0 (sys, db), leaves now y a spec plan))
  ]
  continue_round json e (has_moved now id a spec t) (sys, db) =
      some ((sys, advance now e.write id a spec t db), none)

  -- What handlePauseProfile is about to write; `none` where it answers with an error before.
  unfoldable pub pausing : Failures → String → String → App R → Option (Assignment R)
  unfolding get_assignment
  pausing fails fv_id q app =
      if fv_id == ""
      then none
      else paused_row q (get_assignment (fails reads_assignment) fv_id app.db)

  unfoldable pub assigning_with :
      Json R → Time → Failures → String → ℤ → Option R → App R → Option (Assignment R)
  unfolding get_profile last_target
  assigning_with json now fails fv_id (negsuc n) from_c app = none
  assigning_with json now fails fv_id (pos zero) from_c app = none
  assigning_with json now fails fv_id (pos (suc n)) from_c app =
      let base : Option R = elim from_c [ some t ↦ some t | none ↦ last_target fv_id app.sys.fv ] in
      elim (get_profile json (fails reads_profile) (suc n) app.db) [
        | none ↦ none
        | some spec ↦ (elim base [ none ↦ none | some t ↦ some (assigned_row now fv_id (suc n) t) ])
      ]

  -- And handleAssignProfile.
  unfoldable pub assigning :
      Json R → Time → Failures → String → AssignBody R → String → App R → Option (Assignment R)
  unfolding assigning_with wanted_profile
  assigning json now fails fv_id body q app =
      if fv_id == ""
      then none
      else assigning_with json now fails fv_id (wanted_profile body.profile_id q) body.from_c app

  abbrev pub with_tables : SystemState R × Db R → App R → App R
  with_tables out app = record app { sys = out.0; db = out.1 }

  abbrev pub written : Time → Bool → Assignment R → App R → App R
  written now refused row app = record app { db = (upsert_assignment now refused row app.db).0 }

  -- `others` stands for every other turn of the process: it writes neither table of profiles.
  pub data Step (json : Json R) (w : Overlap R) : Overlap R → Type 0 where
    begins_round :
        (now : Time) (e : Faults) (i : ℕ) (r : Round R)
        → w.round ≡ none
        → begin_round now e i (w.app.sys, w.app.db) ≡ some r
        → Step json w (record w { round = some r })
    goes_on :
        (e : Faults) (r : Round R) (out : (SystemState R × Db R) × Option (Round R))
        → w.round ≡ some r
        → continue_round json e r (w.app.sys, w.app.db) ≡ some out
        → Step json w (record w { app = with_tables out.0 w.app; round = out.1 })
    reads_pause :
        (now : Time) (fails : Failures) (k : ℕ) (fv_id q : String) (row : Assignment R)
        → w.writes k ≡ none
        → pausing fails fv_id q w.app ≡ some row
        → Step json w (record w { writes = update w.writes k (some (now, row)) })
    reads_assign :
        (now : Time) (fails : Failures) (k : ℕ) (fv_id q : String) (body : AssignBody R)
        (row : Assignment R)
        → w.writes k ≡ none
        → assigning json now fails fv_id body q w.app ≡ some row
        → Step json w (record w { writes = update w.writes k (some (now, row)) })
    finishes_write :
        (k : ℕ) (now : Time) (row : Assignment R) (refused : Bool)
        → w.writes k ≡ some (now, row)
        → Step json w
            (record w { app = written now refused row w.app; writes = update w.writes k none })
    cancels :
        (fails : Failures) (fv_id : String)
        → Step json w (record w { app = (handle_cancel_profile fails fv_id w.app).0 })
    creates :
        (now : Time) (fails : Failures) (body : Option (String × ProfileSpec R))
        → Step json w (record w { app = (handle_create_profile json now fails body w.app).0 })
    others :
        (app : App R)
        → catalog app.db ≡ catalog w.app.db
        → app.db.assignments ≡ w.app.db.assignments
        → Step json w (record w { app = app })
    restarts :
        (now : Time) (e : BootFaults) (env : Environment) (cfg : Config R)
        → Step json w (idle (start now e env cfg w.app.db))

  pub data Reach (json : Json R) (w : Overlap R) : Overlap R → Type 0 where
    here : Reach json w w
    later : {u v : Overlap R} → Reach json w u → Step json u v → Reach json w v
