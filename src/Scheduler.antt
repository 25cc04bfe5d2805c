-- ===== src/Scheduler.antt =====
-- The profile scheduler of runtime-pi/cmd/fermenter/main.go: every five seconds it moves the target of
-- each fermenter in profile mode along the steps of its profile.
pub mod Rounds
pub mod Progress
pub mod Safety
pub mod Holds
pub mod Consistency
use Prim.Native.Char.{code}
use phb_open_ferm.Prelude.{
  ℕ, ◌+◌, String, Bool, true, false, not, ◌&&◌, ◌||◌, Option, none, some, [], ◌∷◌, ◌==◌, eqb, leb,
  if◌then◌else◌, length, get_elem?,
}
use phb_open_ferm.Prelude.Int.{ℤ, pos, negsuc, ltb_ℤ, leb_ℤ, ◌-ℤ◌, wrap64}
use phb_open_ferm.Time.{Time, unix}
use phb_open_ferm.Float64.{Float64}
use phb_open_ferm.Control.{Fermenter, SystemState, mode_profile}
use phb_open_ferm.Control.Setters.{set_target}
use phb_open_ferm.Store.{Db, ProfileSpec, ProfileStep, Assignment, Json}
use phb_open_ferm.Store.Rows.{save_targets}
use phb_open_ferm.Store.Profiles.{get_assignment, get_profile, upsert_assignment, delete_assignment}

abbrev lower : ℕ → ℕ
lower c = if leb b'A' c && leb c b'Z' then c + 32 else c

-- Equality up to the case of ASCII letters.
abbrev same_lower : String → String → Bool
same_lower String.[] String.[] = true
same_lower String.[] (String.◌∷◌ second t) = false
same_lower (String.◌∷◌ first s) String.[] = false
same_lower (String.◌∷◌ first s) (String.◌∷◌ second t) =
    eqb (lower (code first)) (lower (code second)) && same_lower s t

-- strings.ToLower(s) == t, for `t` the word "hold" or "ramp": no code point outside ASCII has one of
-- their letters as its lower case.
unfoldable pub lowers_to : String → String → Bool
lowers_to s t = same_lower s t

-- Which calls of the store return an error in one round.
pub record Faults : Type 0 where
  pub get_assignment : Bool
  pub get_profile : Bool
  pub save_target : Bool
  pub write : Bool

module _ {R : Type 0} ⦃f : Float64 R⦄ where
  abbrev pub zero_c : R
  zero_c = f.decimal (pos 0) 0

  abbrev pub rate_of : ProfileStep R → R
  rate_of step =
      if f.le step.rate_c_per_hour zero_c then f.decimal (pos 25) 2 else step.rate_c_per_hour

  abbrev pub sign_of : Assignment R → ProfileStep R → R
  sign_of a step =
      if f.lt step.target_c a.from_c then f.decimal (negsuc 0) 0 else f.decimal (pos 1) 0

  abbrev pub ramp_target : Assignment R → ProfileStep R → ℤ → R
  ramp_target a step elapsed = f.add a.from_c (
      f.mul (f.mul (f.div (f.of_int elapsed) (f.decimal (pos 3600) 0)) (rate_of step))
        (sign_of a step))

  abbrev pub ramp_over : Assignment R → ProfileStep R → R → Bool
  ramp_over a step t =
      (f.lt zero_c (sign_of a step) && f.le step.target_c t)
      || (f.lt (sign_of a step) zero_c && f.le t step.target_c)

  -- The switch on the step's type: the target and whether to advance.
  unfoldable pub plan_step : Fermenter R → Assignment R → ProfileStep R → ℤ → R × Bool
  unfolding lowers_to
  plan_step x a step elapsed =
      if lowers_to step.type "hold"
      then (step.target_c, ltb_ℤ (pos 0) step.duration_s && leb_ℤ step.duration_s elapsed)
      else if lowers_to step.type "ramp"
      then (let t = ramp_target a step elapsed in
          if ramp_over a step t then (step.target_c, true) else (t, false))
      else (x.target_c, true)

  -- SetTarget, whose callback saves the target; its error is dropped.
  unfoldable pub retarget :
      Time → Bool → Fermenter R → R → SystemState R × Db R → SystemState R × Db R
  unfolding set_target save_targets
  retarget now refused x t (sys, db) =
      if f.lt (f.decimal (pos 5) 2) (f.abs (f.sub t x.target_c))
      then (let (sys', calls, err) = set_target x.id t sys in
          (sys', save_targets now refused calls db))
      else (sys, db)

  unfoldable pub advance : Time → Bool → String → Assignment R → ProfileSpec R → R → Db R → Db R
  unfolding upsert_assignment delete_assignment
  advance now refused id a spec t db =
      let next = a.step_idx + 1 in
      if leb (length spec) next
      then (delete_assignment refused id db).0
      else (upsert_assignment now refused
          (record a { step_idx = next; step_started_ts = unix now; from_c = t }) db).0

  -- The body of the loop for a fermenter with an assignment and a profile; `none` is the panic of
  -- an index out of range.
  unfoldable pub follow :
      Time
      → Faults
      → Fermenter R
      → Assignment R
      → ProfileSpec R
      → SystemState R × Db R
      → Option (SystemState R × Db R)
  unfolding plan_step retarget advance
  follow now e x a spec (sys, db) = elim (get_elem? spec a.step_idx) [
    | none ↦ none
    | some step ↦
        (let plan = plan_step x a step (wrap64 (unix now -ℤ a.step_started_ts)) in
          let moved = retarget now e.save_target x plan.0 (sys, db) in
          some
            (moved.0, (if plan.1 then advance now e.write x.id a spec plan.0 moved.1 else moved.1)))
  ]

  -- `continue` for an error, a profile without steps, and so on down from the fermenter.
  unfoldable pub with_profile :
      Time
      → Faults
      → Fermenter R
      → Assignment R
      → SystemState R × Db R
      → Option (ProfileSpec R)
      → Option (SystemState R × Db R)
  unfolding follow
  with_profile now e x a w none = some w
  with_profile now e x a w (some []) = some w
  with_profile now e x a w (some (step ∷ steps)) = follow now e x a (step ∷ steps) w

  unfoldable pub with_assignment :
      Json R
      → Time
      → Faults
      → Fermenter R
      → SystemState R × Db R
      → Option (Option (Assignment R))
      → Option (SystemState R × Db R)
  unfolding with_profile get_profile
  with_assignment json now e x w none = some w
  with_assignment json now e x w (some none) = some w
  with_assignment json now e x w (some (some a)) =
      if a.paused
      then some w
      else with_profile now e x a w (get_profile json e.get_profile a.profile_id w.1)

  unfoldable pub with_fermenter :
      Json R
      → Time
      → Faults
      → SystemState R × Db R
      → Option (Fermenter R)
      → Option (SystemState R × Db R)
  unfolding with_assignment get_assignment
  with_fermenter json now e w none = some w
  with_fermenter json now e w (some x) =
      if not (x.mode == mode_profile)
      then some w
      else with_assignment json now e x w (get_assignment e.get_assignment x.id w.1)

  -- One round for the fermenter at an index.
  unfoldable pub schedule :
      Json R → Time → Faults → ℕ → SystemState R × Db R → Option (SystemState R × Db R)
  unfolding with_fermenter
  schedule json now e i w = with_fermenter json now e w (get_elem? w.0.fv i)
