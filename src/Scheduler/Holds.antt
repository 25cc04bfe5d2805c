-- ===== src/Scheduler/Holds.antt =====
-- A hold that has lasted its seconds is left for the next step.
use phb_open_ferm.Prelude.{
  ℕ, String, ◌+◌, ◌≡◌, refl, Bool, ap, ◌∙◌, not, true, false, none, some, [], ◌∷◌, ◌==◌, arith,
  if◌then◌else◌, length, get_elem?, leb, if_false, if_true, if-map, eq_iff,
}
use phb_open_ferm.Prelude.Int.{ℤ, pos, ltb_ℤ, leb_ℤ, ◌-ℤ◌, wrap64}
use phb_open_ferm.Time.{Time, unix}
use phb_open_ferm.Float64.{Float64}
use phb_open_ferm.Control.{Fermenter, SystemState, mode_profile}
use phb_open_ferm.Control.Setters.{set_target}
use phb_open_ferm.Store.{Db, ProfileSpec, ProfileStep, Assignment, Json}
use phb_open_ferm.Store.Profiles.{get_profile, get_assignment, upserted}
use phb_open_ferm.Scheduler.{
  Faults, lowers_to, plan_step, retarget, advance, follow, with_profile, with_assignment,
  with_fermenter, schedule,
}
use phb_open_ferm.Scheduler.Rounds.{current}
use phb_open_ferm.Scheduler.Progress.{
  advanced, advanced_rows, advanced_current, plan_of, follow_rows,
}

abbrev pub no_faults : Faults
no_faults = record {
  get_assignment = false;
  get_profile = false;
  save_target = false;
  write = false;
}

test_eq : (s t : String) → s ≡ t → (s == t) ≡ true
test_eq s t = (eq_iff s t).1

module _ {R : Type 0} ⦃f : Float64 R⦄ where
  pub get_assignment_of_current :
      (k : String) (db : Db R) (a : Assignment R)
      → current k db.assignments ≡ some a
      → get_assignment false k db ≡ some (some a)
  unfolding get_assignment
  get_assignment_of_current k db a at = ground arith

  with_profile_steps :
      (now : Time) (e : Faults) (x : Fermenter R) (a : Assignment R) (w : SystemState R × Db R)
      (spec : ProfileSpec R) (i : ℕ) (s : ProfileStep R)
      → get_elem? spec i ≡ some s
      → with_profile now e x a w (some spec) ≡ follow now e x a spec w
  unfolding with_profile
  with_profile_steps now e x a w [] i s found = absurd (ground arith)
  with_profile_steps now e x a w (first ∷ steps) i s found = refl

  with_assignment_on :
      (json : Json R) (now : Time) (e : Faults) (x : Fermenter R) (a : Assignment R)
      (w : SystemState R × Db R)
      → a.paused ≡ false
      → with_assignment json now e x w (some (some a))
        ≡ with_profile now e x a w (get_profile json e.get_profile a.profile_id w.1)
  unfolding with_assignment
  with_assignment_on json now e x a w on = if_false a.paused _ on

  with_fermenter_profile :
      (json : Json R) (now : Time) (e : Faults) (x : Fermenter R) (w : SystemState R × Db R)
      → x.mode ≡ mode_profile
      → with_fermenter json now e w (some x)
        ≡ with_assignment json now e x w (get_assignment e.get_assignment x.id w.1)
  unfolding with_fermenter
  with_fermenter_profile json now e x w mode =
      if_false (not (x.mode == mode_profile)) _ (ap not (test_eq x.mode mode_profile mode))

  hold_over :
      (x : Fermenter R) (a : Assignment R) (step : ProfileStep R) (elapsed : ℤ)
      → lowers_to step.type "hold" ≡ true
      → ltb_ℤ (pos 0) step.duration_s ≡ true
      → leb_ℤ step.duration_s elapsed ≡ true
      → plan_step x a step elapsed ≡ (step.target_c, true)
  unfolding plan_step
  hold_over x a step elapsed hold long over = rw (plan_step, hold, long, over, if◌then◌else◌) refl

  -- A round that meets no error, for a fermenter in profile mode.
  schedule_at :
      (json : Json R) (now : Time) (i : ℕ) (sys : SystemState R) (db : Db R) (x : Fermenter R)
      (a : Assignment R) (spec : ProfileSpec R) (step : ProfileStep R)
      → get_elem? sys.fv i ≡ some x
      → x.mode ≡ mode_profile
      → current x.id db.assignments ≡ some a
      → a.paused ≡ false
      → get_profile json false a.profile_id db ≡ some spec
      → get_elem? spec a.step_idx ≡ some step
      → schedule json now no_faults i (sys, db) ≡ follow now no_faults x a spec (sys, db)
  unfolding schedule
  schedule_at json now i sys db x a spec step here mode at on got found =
      ap (with_fermenter json now no_faults (sys, db)) here
      ∙ with_fermenter_profile json now no_faults x (sys, db) mode
      ∙ ap (with_assignment json now no_faults x (sys, db)) (get_assignment_of_current x.id db a at)
      ∙ with_assignment_on json now no_faults x a (sys, db) on
      ∙ ap (with_profile now no_faults x a (sys, db)) got
      ∙ with_profile_steps now no_faults x a (sys, db) spec a.step_idx step found

  -- When no store call fails and an assignment that is not paused stands at a hold step with positive
  -- seconds that have passed, a round for its fermenter in profile mode leaves the step: the row goes
  -- on to the next step, with the present as its start and the hold's target to start from, or, after
  -- the last step, there is none.
  pub hold_advances :
      (json : Json R) (now : Time) (i : ℕ) (sys : SystemState R) (db : Db R) (x : Fermenter R)
      (a : Assignment R) (spec : ProfileSpec R) (step : ProfileStep R)
      → get_elem? sys.fv i ≡ some x
      → x.mode ≡ mode_profile
      → current x.id db.assignments ≡ some a
      → a.paused ≡ false
      → get_profile json false a.profile_id db ≡ some spec
      → get_elem? spec a.step_idx ≡ some step
      → lowers_to step.type "hold" ≡ true
      → ltb_ℤ (pos 0) step.duration_s ≡ true
      → leb_ℤ step.duration_s (wrap64 (unix now -ℤ a.step_started_ts)) ≡ true
      → (out : SystemState R × Db R) × (schedule json now no_faults i (sys, db) ≡ some out)
        × (current x.id out.1.assignments ≡ (
            if leb (length spec) (a.step_idx + 1)
            then none
            else some (upserted now (advanced now a step.target_c))))
  unfolding schedule
  hold_advances json now i sys db x a spec step here mode at on got found hold long over =
      let plan = hold_over x a step (wrap64 (unix now -ℤ a.step_started_ts)) hold long over in
      let (out, ran, _, rows) = follow_rows now no_faults sys db x a spec step at found in
      let whole = schedule_at json now i sys db x a spec step here mode at on got found ∙ ran in
      let moved : out.1.assignments
          ≡ advanced_rows now false x.id a spec step.target_c db.assignments =
        rows
        ∙ if_true (plan_of now x a step).1 _ (ap (λ (p : R × Bool). p.1) plan)
        ∙ ap (λ (p : R × Bool). advanced_rows now false x.id a spec p.0 db.assignments) plan in
      (
        out,
        whole,
        ap (current x.id) moved ∙ advanced_current now x.id a spec step.target_c db.assignments at,
      )

  retarget-sys :
      (now : Time) (refused : Bool) (x : Fermenter R) (t : R) (sys : SystemState R) (db : Db R)
      → (retarget now refused x t (sys, db)).0 ≡ (
          if f.lt (f.decimal (pos 5) 2) (f.abs (f.sub t x.target_c))
          then (set_target x.id t sys).0
          else sys)
  unfolding retarget
  retarget-sys now refused x t sys db =
      if-map (λ (w : SystemState R × Db R). w.0)
        (f.lt (f.decimal (pos 5) 2) (f.abs (f.sub t x.target_c))) refl refl

  hold_target :
      (x : Fermenter R) (a : Assignment R) (step : ProfileStep R) (elapsed : ℤ)
      → lowers_to step.type "hold" ≡ true
      → (plan_step x a step elapsed).0 ≡ step.target_c
  unfolding plan_step
  hold_target x a step elapsed hold = rw (plan_step, hold, if◌then◌else◌) refl

  -- When no store call fails and an assignment that is not paused stands at a hold step, a round for
  -- its fermenter in profile mode gives the fermenter the target of the step, as `SetTarget` does,
  -- if the two differ by more than 0.05, and else leaves all fermenters as they are.
  pub hold_sets_target :
      (json : Json R) (now : Time) (i : ℕ) (sys : SystemState R) (db : Db R) (x : Fermenter R)
      (a : Assignment R) (spec : ProfileSpec R) (step : ProfileStep R)
      → get_elem? sys.fv i ≡ some x
      → x.mode ≡ mode_profile
      → current x.id db.assignments ≡ some a
      → a.paused ≡ false
      → get_profile json false a.profile_id db ≡ some spec
      → get_elem? spec a.step_idx ≡ some step
      → lowers_to step.type "hold" ≡ true
      → (out : SystemState R × Db R) × (schedule json now no_faults i (sys, db) ≡ some out)
        × (out.0 ≡ (
            if f.lt (f.decimal (pos 5) 2) (f.abs (f.sub step.target_c x.target_c))
            then (set_target x.id step.target_c sys).0
            else sys))
  unfolding follow
  hold_sets_target json now i sys db x a spec step here mode at on got found hold =
      let plan = plan_of now x a step in
      let moved = retarget now false x plan.0 (sys, db) in
      let next = if plan.1 then advance now false x.id a spec plan.0 moved.1 else moved.1 in
      let ran : follow now no_faults x a spec (sys, db) ≡ some (moved.0, next) =
        rw (found, follow) refl in
      let aimed : plan.0 ≡ step.target_c =
        hold_target x a step (wrap64 (unix now -ℤ a.step_started_ts)) hold in
      (
        (moved.0, next),
        schedule_at json now i sys db x a spec step here mode at on got found ∙ ran,
        ap (λ (t : R). (retarget now false x t (sys, db)).0) aimed
            ∙ retarget-sys now false x step.target_c sys db,
      )
