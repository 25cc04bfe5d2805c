-- ===== src/Scheduler/Progress.antt =====
-- The steps of a profile are followed in order, one at a time, to the end.
use phb_open_ferm.Prelude.{
  ℕ, ◌+◌, ◌<◌, ◌≤◌, String, ◌≡◌, refl, sym, ap, Bool, true, false, Option, none, some, ◌==◌, arith,
  if◌then◌else◌, length, get_elem?, get_elem?_inside, get_elem?-inside, if-cases, if-map, if_true,
  test_self, Bool-cases, eq_of_test, ◌∙◌, leb, Option-cases, inl, inr,
}
use mathlib.Core.Option.{some-injective}
use phb_open_ferm.Prelude.Int.{wrap64, ◌-ℤ◌}
use phb_open_ferm.Prelude.Dict.{Dict, lookup, insert, erase, lookup-insert, lookup-erase}
use phb_open_ferm.Time.{Time, unix}
use phb_open_ferm.Float64.{Float64}
use phb_open_ferm.Control.{Fermenter, SystemState}
use phb_open_ferm.Store.{Db, ProfileSpec, ProfileStep, Assignment, Json}
use phb_open_ferm.Store.Profiles.{get_profile, upserted}
use phb_open_ferm.Scheduler.{Faults, plan_step, retarget, advance, follow, schedule}
use phb_open_ferm.Scheduler.Rounds.{
  catalog, current, IsRound, rests, follows, schedule-IsRound, retarget-tables,
}

module _ {R : Type 0} ⦃f : Float64 R⦄ where
  -- What a round may do to the row of a fermenter: keep it, go one step on from the present moment,
  -- or delete it after the last step.
  pub data IsMove (now : Time) (json : Json R) (db : Db R)
      : Option (Assignment R) → Option (Assignment R) → Type 0 where
    keeps : {o : Option (Assignment R)} → IsMove now json db o o
    advances :
        {a : Assignment R} {spec : ProfileSpec R} (t : R)
        → get_profile json false a.profile_id db ≡ some spec
        → a.step_idx + 1 < length spec
        → IsMove now json db (some a) (
            some (
              upserted now
                (record a { step_idx = a.step_idx + 1; step_started_ts = unix now; from_c = t })))
    finishes :
        {a : Assignment R} {spec : ProfileSpec R}
        → get_profile json false a.profile_id db ≡ some spec
        → length spec ≤ a.step_idx + 1
        → IsMove now json db (some a) none

  row_kept : (k : String) (b : Assignment R) → b.fv_id ≡ k → record b { fv_id = k } ≡ b
  row_kept k b own = rw (← own) refl

  pub own_id :
      (k : String) (a : Assignment R) (rows : Dict (Assignment R))
      → current k rows ≡ some a
      → a.fv_id ≡ k
  own_id k a rows at = elim (Option-cases (lookup k rows)) [
    | inl missing ↦ absurd (ground (arith, missing))
    | inr (old, found) ↦ ground (arith, found)
  ]

  -- The row that an upsert leaves for a fermenter.
  pub current-insert :
      (now : Time) (k id : String) (b : Assignment R) (rows : Dict (Assignment R))
      → b.fv_id ≡ k
      → current id (insert k (upserted now b) rows)
        ≡ (if k == id then some (upserted now b) else current id rows)
  current-insert now k id b rows own =
      rw (current, lookup-insert k id (upserted now b) rows)
        ((elim (Bool-cases (k == id)) [
          | inl e ↦
              rw (e, if◌then◌else◌)
                (ap some (row_kept id (upserted now b) (own ∙ eq_of_test k id e)))
          | inr e ↦ rw (e, if◌then◌else◌) refl
        ]))

  pub current-erase :
      (k id : String) (rows : Dict (Assignment R))
      → current id (erase k rows) ≡ (if k == id then none else current id rows)
  current-erase k id rows = ground (arith, lookup-erase k id rows)

  abbrev pub advanced : Time → Assignment R → R → Assignment R
  advanced now a t = record a { step_idx = a.step_idx + 1; step_started_ts = unix now; from_c = t }

  -- The rows after going on, all branches.
  abbrev pub advanced_rows :
      Time
      → Bool
      → String
      → Assignment R
      → ProfileSpec R
      → R
      → Dict (Assignment R)
      → Dict (Assignment R)
  advanced_rows now refused k a spec t rows =
      if refused
      then rows
      else if leb (length spec) (a.step_idx + 1)
      then erase k rows
      else insert k (upserted now (advanced now a t)) rows

  advance-assignments :
      (now : Time) (refused : Bool) (k : String) (a : Assignment R) (spec : ProfileSpec R) (t : R)
      (db : Db R)
      → a.fv_id ≡ k
      → (advance now refused k a spec t db).assignments
        ≡ advanced_rows now refused k a spec t db.assignments
  unfolding advance
  advance-assignments now true k a spec t db own =
      if-cases (λ (out : Db R). out.assignments ≡ db.assignments)
        (leb (length spec) (a.step_idx + 1)) (λ _. refl) (λ _. refl)
  advance-assignments now false k a spec t db own =
      elim (Bool-cases (leb (length spec) (a.step_idx + 1))) [
        | inl over ↦ rw (over, if◌then◌else◌) refl
        | inr going ↦ rw (going, ← own, if◌then◌else◌) refl
      ]

  advance-profiles :
      (now : Time) (refused : Bool) (k : String) (a : Assignment R) (spec : ProfileSpec R) (t : R)
      (db : Db R)
      → catalog (advance now refused k a spec t db) ≡ catalog db
  unfolding advance
  advance-profiles now refused k a spec t db =
      if-cases (λ (out : Db R). catalog out ≡ catalog db) (leb (length spec) (a.step_idx + 1))
        (λ _.
          if-cases (λ (out : Db R × Bool). catalog out.0 ≡ catalog db) refused (λ _. refl)
            (λ _. refl))
        (λ _.
          if-cases (λ (out : Db R × Bool). catalog out.0 ≡ catalog db) refused (λ _. refl)
            (λ _. refl))

  -- Going on from a step moves the row of the fermenter and no other.
  advance-IsMove :
      (now : Time) (json : Json R) (db : Db R) (rows : Dict (Assignment R)) (refused : Bool)
      (k id : String) (a : Assignment R) (spec : ProfileSpec R) (t : R)
      → current k rows ≡ some a
      → get_profile json false a.profile_id db ≡ some spec
      → IsMove now json db
          (current id rows)
          (current id (advanced_rows now refused k a spec t rows))
  advance-IsMove now json db rows true k id a spec t at got = keeps
  advance-IsMove now json db rows false k id a spec t at got =
      if-cases
        (λ (rows' : Dict (Assignment R)). IsMove now json db (current id rows) (current id rows'))
        (leb (length spec) (a.step_idx + 1))
        (λ over. rw (current-erase k id rows) (
          if-cases (IsMove now json db (current id rows)) (k == id)
            (λ e. rw (← eq_of_test k id e, at) (finishes got (ground arith))) (λ _. keeps)))
        (λ going. rw (current-insert now k id (advanced now a t) rows (own_id k a rows at)) (
          if-cases (IsMove now json db (current id rows)) (k == id)
            (λ e. rw (← eq_of_test k id e, at) (advances t got (ground arith))) (λ _. keeps)))

  -- The row of the fermenter after a write that is not refused.
  pub advanced_current :
      (now : Time) (k : String) (a : Assignment R) (spec : ProfileSpec R) (t : R)
      (rows : Dict (Assignment R))
      → current k rows ≡ some a
      → current k (advanced_rows now false k a spec t rows) ≡ (
          if leb (length spec) (a.step_idx + 1)
          then none
          else some (upserted now (advanced now a t)))
  advanced_current now k a spec t rows at =
      if-map (current k) (leb (length spec) (a.step_idx + 1))
        (current-erase k k rows ∙ if_true (k == k) _ (test_self k))
        (current-insert now k k (advanced now a t) rows (own_id k a rows at)
          ∙ if_true (k == k) _ (test_self k))

  -- Other fermenters' rows stay.
  advance_other :
      (now : Time) (rows : Dict (Assignment R)) (refused : Bool) (k id : String) (a : Assignment R)
      (spec : ProfileSpec R) (t : R)
      → current k rows ≡ some a
      → (k == id) ≡ false
      → current id (advanced_rows now refused k a spec t rows) ≡ current id rows
  advance_other now rows true k id a spec t at other = refl
  advance_other now rows false k id a spec t at other =
      if-cases (λ (rows' : Dict (Assignment R)). current id rows' ≡ current id rows)
        (leb (length spec) (a.step_idx + 1))
        (λ _. current-erase k id rows ∙ rw (other, if◌then◌else◌) refl)
        (λ _.
          current-insert now k id (advanced now a t) rows (own_id k a rows at)
          ∙ rw (other, if◌then◌else◌) refl)

  abbrev pub plan_of : Time → Fermenter R → Assignment R → ProfileStep R → R × Bool
  plan_of now x a s = plan_step x a s (wrap64 (unix now -ℤ a.step_started_ts))

  -- The tables after following a step.
  pub follow_rows :
      (now : Time) (e : Faults) (sys : SystemState R) (db : Db R) (x : Fermenter R)
      (a : Assignment R) (spec : ProfileSpec R) (s : ProfileStep R)
      → current x.id db.assignments ≡ some a
      → get_elem? spec a.step_idx ≡ some s
      → (out : SystemState R × Db R) × (follow now e x a spec (sys, db) ≡ some out)
        × (catalog out.1 ≡ catalog db)
        × (out.1.assignments ≡ (
            if (plan_of now x a s).1
            then advanced_rows now e.write x.id a spec (plan_of now x a s).0 db.assignments
            else db.assignments))
  unfolding follow
  follow_rows now e sys db x a spec s at found =
      let plan = plan_of now x a s in
      let moved = retarget now e.save_target x plan.0 (sys, db) in
      let tables = retarget-tables now e.save_target x plan.0 sys db in
      let next = if plan.1 then advance now e.write x.id a spec plan.0 moved.1 else moved.1 in
      let own = own_id x.id a db.assignments at in
      (
        (moved.0, next),
        rw (found, follow) refl,
        if-cases (λ (out : Db R). catalog out ≡ catalog db) plan.1
            (λ _. advance-profiles now e.write x.id a spec plan.0 moved.1 ∙ tables.1)
            (λ _. tables.1),
        if-map (λ (out : Db R). out.assignments) plan.1
            (advance-assignments now e.write x.id a spec plan.0 moved.1 own
              ∙ ap (advanced_rows now e.write x.id a spec plan.0) tables.0)
            tables.0,
      )

  -- What following a step that the profile has does to the tables.
  pub follow_moves :
      (json : Json R) (now : Time) (e : Faults) (sys : SystemState R) (db : Db R) (x : Fermenter R)
      (a : Assignment R) (spec : ProfileSpec R)
      → current x.id db.assignments ≡ some a
      → get_profile json false a.profile_id db ≡ some spec
      → a.step_idx < length spec
      → (out : SystemState R × Db R) × (follow now e x a spec (sys, db) ≡ some out)
        × (catalog out.1 ≡ catalog db)
        × ((id : String)
            → IsMove now json db (current id db.assignments) (current id out.1.assignments))
  follow_moves json now e sys db x a spec at got inside =
      let (s, found) = get_elem?_inside spec a.step_idx inside in
      let (out, ran, profiles, rows) = follow_rows now e sys db x a spec s at found in
      (
        out,
        ran,
        profiles,
        λ id. rw rows (
            if-cases
              (λ (rows' : Dict (Assignment R)).
                IsMove now json db (current id db.assignments) (current id rows'))
              (plan_of now x a s).1
              (λ _.
                advance-IsMove now json db db.assignments e.write x.id id a spec
                  (plan_of now x a s).0 at got)
              (λ _. keeps)),
      )

  -- A step that is not over keeps every row, and no step touches the rows of other fermenters.
  pub follow_keeps :
      (now : Time) (e : Faults) (sys : SystemState R) (db : Db R) (x : Fermenter R)
      (a : Assignment R) (spec : ProfileSpec R) (s : ProfileStep R) (id : String)
      (out : SystemState R × Db R)
      → current x.id db.assignments ≡ some a
      → get_elem? spec a.step_idx ≡ some s
      → follow now e x a spec (sys, db) ≡ some out
      → ((x.id == id) ≡ true → (plan_of now x a s).1 ≡ false)
      → current id out.1.assignments ≡ current id db.assignments
  follow_keeps now e sys db x a spec s id out at found done waits =
      let (out', ran, profiles, rows) = follow_rows now e sys db x a spec s at found in
      let same : out' ≡ out = some-injective _ _ (sym ran ∙ done) in
      rw (← same, rows)
        (if-cases (λ (rows' : Dict (Assignment R)). current id rows' ≡ current id db.assignments)
          (plan_of now x a s).1
          (λ over.
            advance_other now db.assignments e.write x.id id a spec (plan_of now x a s).0 at
              (ground (arith, waits, over)))
          (λ _. refl))

  -- A round that does not panic has found a step.
  pub follow_inside :
      (now : Time) (e : Faults) (x : Fermenter R) (a : Assignment R) (spec : ProfileSpec R)
      (sys : SystemState R) (db : Db R) (out : SystemState R × Db R)
      → follow now e x a spec (sys, db) ≡ some out
      → a.step_idx < length spec
  unfolding follow
  follow_inside now e x a spec sys db out done = elim (Option-cases (get_elem? spec a.step_idx)) [
    | inl missing ↦
        (let stuck : follow now e x a spec (sys, db) ≡ none = rw (missing, follow) refl in
          absurd (ground (arith, stuck, done)))
    | inr (s, found) ↦ get_elem?-inside spec a.step_idx found
  ]

  -- One round of the scheduler for any fermenter leads the assignment of every fermenter on by one
  -- move at most: it stays, or goes from a step to the next one of its profile with the present as its
  -- start, or, after the last step of the profile, it is deleted. Store calls may fail.
  pub schedule_moves :
      (json : Json R) (now : Time) (e : Faults) (i : ℕ) (sys : SystemState R) (db : Db R)
      (out : SystemState R × Db R) (id : String)
      → schedule json now e i (sys, db) ≡ some out
      → IsMove now json db (current id db.assignments) (current id out.1.assignments)
  schedule_moves json now e i sys db out id done = go (schedule-IsRound json now e i sys db) done
    where
      go :
          {o : Option (SystemState R × Db R)}
          → IsRound json now e sys db o
          → o ≡ some out
          → IsMove now json db (current id db.assignments) (current id out.1.assignments)
      go rests done = let same : (sys, db) ≡ out = some-injective _ _ done in rw (← same) keeps
      go (follows x a spec at on got steps) done =
          let (out', ran, profiles, moves) =
            follow_moves json now e sys db x a spec at got
              (follow_inside now e x a spec sys db out done) in
          let same : out' ≡ out = some-injective _ _ (sym ran ∙ done) in rw (← same) (moves id)
