-- ===== src/Scheduler/Safety.antt =====
-- The scheduler never indexes past the steps of a profile, and a hold that has no length in seconds
-- is never left.
use phb_open_ferm.Prelude.{
  ℕ, ◌<◌, String, ◌≡◌, refl, sym, ap, ◌∙◌, true, false, Option, some, arith, if◌then◌else◌, length,
  get_elem?, get_elem?_inside, eq_of_test,
}
use mathlib.Core.Option.{some-injective}
use phb_open_ferm.Prelude.Int.{ℤ, pos, ltb_ℤ, ◌≤ℤ◌, wrap64, ◌-ℤ◌}
use phb_open_ferm.Time.{Time, unix}
use phb_open_ferm.Float64.{Float64}
use phb_open_ferm.Control.{Fermenter, SystemState}
use phb_open_ferm.Store.{Db, ProfileSpec, ProfileStep, Assignment, Json}
use phb_open_ferm.Store.Profiles.{get_profile}
use phb_open_ferm.Scheduler.{Faults, lowers_to, plan_step, schedule}
use phb_open_ferm.Scheduler.Rounds.{current, IsRound, rests, follows, schedule-IsRound}
use phb_open_ferm.Scheduler.Progress.{
  IsMove, keeps, advances, finishes, follow_moves, follow_inside, follow_keeps,
}

module _ {R : Type 0} ⦃f : Float64 R⦄ where
  -- Every assignment stands at a step that its profile has, if the profile can be read and has steps.
  abbrev pub IsTracked : Json R → Db R → Type 0
  IsTracked json db =
      (id : String) (a : Assignment R) (spec : ProfileSpec R)
      → current id db.assignments ≡ some a
      → get_profile json false a.profile_id db ≡ some spec
      → 0 < length spec
      → a.step_idx < length spec

  pub get_profile_same :
      (json : Json R) (id : ℕ) (db db' : Db R)
      → db'.profiles ≡ db.profiles
      → get_profile json false id db' ≡ get_profile json false id db
  unfolding get_profile
  get_profile_same json id db db' same = rw same refl

  -- A move keeps a row on the steps of its profile.
  pub move_tracked :
      (json : Json R) (now : Time) (db : Db R) {o o' : Option (Assignment R)} (a : Assignment R)
      (spec : ProfileSpec R)
      → ((b : Assignment R) (s : ProfileSpec R)
          → o ≡ some b
          → get_profile json false b.profile_id db ≡ some s
          → 0 < length s
          → b.step_idx < length s)
      → IsMove now json db o o'
      → o' ≡ some a
      → get_profile json false a.profile_id db ≡ some spec
      → 0 < length spec
      → a.step_idx < length spec
  move_tracked json now db a spec tracked keeps at got steps = tracked a spec at got steps
  move_tracked json now db a spec tracked (advances t from inside) at got steps = ground arith
  move_tracked json now db a spec tracked (finishes from over) at got steps = absurd (ground arith)

  -- If every assignment whose profile can be read and has steps stands at one of them, a round of
  -- the scheduler does not panic: it returns a state and a database, and the same is true of that
  -- database. Store calls may fail.
  pub schedule_total :
      (json : Json R) (now : Time) (e : Faults) (i : ℕ) (sys : SystemState R) (db : Db R)
      → IsTracked json db
      → (out : SystemState R × Db R) × (schedule json now e i (sys, db) ≡ some out)
        × IsTracked json out.1
  schedule_total json now e i sys db tracked = go (schedule-IsRound json now e i sys db)
    where
      go :
          {o : Option (SystemState R × Db R)}
          → IsRound json now e sys db o
          → (out : SystemState R × Db R) × (o ≡ some out) × IsTracked json out.1
      go rests = ((sys, db), refl, tracked)
      go (follows x a spec at on got steps) =
          let (out, ran, profiles, moves) =
            follow_moves json now e sys db x a spec at got (tracked x.id a spec at got steps) in
          (
            out,
            ran,
            λ id b s at' got' steps'.
                move_tracked json now db b s (tracked id) (moves id) at'
                  (sym (get_profile_same json b.profile_id db out.1 (ap (λ q. q.0) profiles))
                    ∙ got')
                  steps',
          )

  hold_waits :
      (x : Fermenter R) (a : Assignment R) (step : ProfileStep R) (elapsed : ℤ)
      → lowers_to step.type "hold" ≡ true
      → step.duration_s ≤ℤ pos 0
      → (plan_step x a step elapsed).1 ≡ false
  unfolding plan_step
  hold_waits x a step elapsed hold none_s =
      let short : ltb_ℤ (pos 0) step.duration_s ≡ false = ground arith in
      rw (plan_step, hold, short, if◌then◌else◌) refl

  -- While a fermenter stands at a hold step whose `duration_s` is not positive, a round of the
  -- scheduler leaves its assignment as it is, at whatever time: the hold has no end, even if the step
  -- gives a `duration` in words.
  pub hold_without_seconds :
      (json : Json R) (now : Time) (e : Faults) (i : ℕ) (sys : SystemState R) (db : Db R)
      (id : String) (a : Assignment R) (spec : ProfileSpec R) (step : ProfileStep R)
      → current id db.assignments ≡ some a
      → get_profile json false a.profile_id db ≡ some spec
      → get_elem? spec a.step_idx ≡ some step
      → lowers_to step.type "hold" ≡ true
      → step.duration_s ≤ℤ pos 0
      → (out : SystemState R × Db R) → schedule json now e i (sys, db) ≡ some out
      → current id out.1.assignments ≡ some a
  hold_without_seconds json now e i sys db id a spec step at got here hold none_s out done =
      go (schedule-IsRound json now e i sys db) done
    where
      go :
          {o : Option (SystemState R × Db R)}
          → IsRound json now e sys db o
          → o ≡ some out
          → current id out.1.assignments ≡ some a
      go rests done = let same : (sys, db) ≡ out = some-injective _ _ done in rw (← same) at
      go (follows x b spec' at' on got' steps) done =
          let (s, found) =
            get_elem?_inside spec' b.step_idx (follow_inside now e x b spec' sys db out done) in
          follow_keeps now e sys db x b spec' s id out at' found done (λ same_id.
            let own : b ≡ a = some-injective _ _ (sym at' ∙ rw (eq_of_test x.id id same_id) at) in
            let profile : spec' ≡ spec = some-injective _ _ (sym got' ∙ rw own got) in
            let stands : s ≡ step = some-injective _ _ (sym found ∙ rw (profile, own) here) in
            rw stands (hold_waits x b step (wrap64 (unix now -ℤ b.step_started_ts)) hold none_s))
          ∙ at
