-- ===== src/Process/Overlap/Reads.antt =====
-- What the parts of rounds and requests read fits the tables, and what a round writes keeps them
-- consistent.
use phb_open_ferm.Prelude.{
  ℕ, zero, suc, ◌+◌, ◌<◌, String, ◌≡◌, refl, sym, ◌∙◌, Bool, true, false, not, Option, none, some,
  [], ◌∷◌, ◌==◌, arith, if-cases, subst, length, get_elem?, get_elem?_inside, leb,
}
use phb_open_ferm.Prelude.Int.{ℤ, pos, negsuc}
use mathlib.Core.Option.{some-injective}
use phb_open_ferm.Time.{Time}
use phb_open_ferm.Float64.{Float64}
use phb_open_ferm.Control.{Fermenter, SystemState, mode_profile}
use phb_open_ferm.Store.{Db, ProfileSpec, Assignment, Json}
use phb_open_ferm.Store.Profiles.{get_assignment, get_profile}
use phb_open_ferm.Scheduler.{Faults, retarget, advance}
use phb_open_ferm.Scheduler.Rounds.{retarget-tables, get_profile_accepted, get_assignment_accepted}
use phb_open_ferm.Scheduler.Progress.{plan_of, advanced}
use phb_open_ferm.Scheduler.Consistency.{
  IsFitting, IsConsistent, IsConsistent-same, upsert_assignment-IsConsistent,
  delete_assignment-IsConsistent, get_profile-IsStored, IsStored,
}
use phb_open_ferm.Api.{App, Failures, reads_profile, reads_assignment}
use phb_open_ferm.Api.Profiles.{AssignBody, wanted_profile, assigned_row}
use phb_open_ferm.Process.Overlap.{
  Round, has_row, has_profile, has_moved, begin_round, continue_round, row_found, fermenter_found,
  profile_found, live, leaves, paused_row, pausing, assigning, assigning_with,
}
use phb_open_ferm.Process.Overlap.Parts.{continue_at}
use phb_open_ferm.Process.Overlap.Fitting.{
  RoundFits, OngoingFits, Grows-same, Grows-get_profile, Suits, upsert_assignment-Grows,
  delete_assignment-Grows,
}

module _ {R : Type 0} ⦃f : Float64 R⦄ where
  -- The write at the end of a round.
  advance-Suits :
      (json : Json R) (now : Time) (refused : Bool) (id : String) (a : Assignment R)
      (spec : ProfileSpec R) (t : R) (db : Db R)
      → IsStored a.profile_id db
      → get_profile json false a.profile_id db ≡ some spec
      → IsConsistent json db
      → Suits json db (advance now refused id a spec t db)
  unfolding advance
  advance-Suits json now refused id a spec t db below got h =
      if-cases (Suits json db) (leb (length spec) (a.step_idx + 1))
        (λ _. (
          delete_assignment-IsConsistent json refused id db h,
          delete_assignment-Grows json refused id db,
        ))
        (λ inside. (
          upsert_assignment-IsConsistent json now refused (advanced now a t) db
              (
                below,
                λ s found _.
                    let same : spec ≡ s = some-injective _ _ (sym got ∙ found) in
                    subst (λ (q : ProfileSpec R). a.step_idx + 1 < length q) same (ground arith),
              )
              h,
          upsert_assignment-Grows json now refused (advanced now a t) db,
        ))

  profile_found-OngoingFits :
      (json : Json R) (now : Time) (i : ℕ) (x : Fermenter R) (a : Assignment R) (db : Db R)
      (o : Option (ProfileSpec R)) (refused : Bool)
      → get_profile json refused a.profile_id db ≡ o
      → IsFitting json db a
      → OngoingFits json db (profile_found now i x a o)
  profile_found-OngoingFits json now i x a db none refused got h = tt
  profile_found-OngoingFits json now i x a db (some []) refused got h = tt
  profile_found-OngoingFits json now i x a db (some (step ∷ steps)) refused got h =
      let read = get_profile_accepted json refused a.profile_id db (step ∷ steps) got in
      (h.0, read, h.1 (step ∷ steps) read (omega arith))

  leaves-OngoingFits :
      (json : Json R) (now : Time) (x : Fermenter R) (a : Assignment R) (spec : ProfileSpec R)
      (plan : R × Bool) (db : Db R)
      → IsStored a.profile_id db
      → get_profile json false a.profile_id db ≡ some spec
      → OngoingFits json db (leaves now x a spec plan)
  leaves-OngoingFits json now x a spec (t, true) db below got = (below, got)
  leaves-OngoingFits json now x a spec (t, false) db below got = tt

  -- A part of a round that fits does not panic, and what it leaves fits again.
  pub continue_round-Suits :
      (json : Json R) (e : Faults) (r : Round R) (sys : SystemState R) (db : Db R)
      → IsConsistent json db
      → RoundFits json db r
      → (out : (SystemState R × Db R) × Option (Round R)) × (continue_round json e r (sys, db)
          ≡ some out)
        × Suits json db out.0.1
        × OngoingFits json out.0.1 out.1
  unfolding continue_round
  continue_round-Suits json e (has_row now i x a) sys db h fits = (
    _,
    refl,
    (h, Grows-same json db db refl),
    profile_found-OngoingFits json now i x a db _ e.get_profile refl fits,
  )
  continue_round-Suits json e (has_profile now i x a spec) sys db h fits =
      let (step, found) = get_elem?_inside spec a.step_idx fits.2 in
      let y = live i x sys in
      let plan = plan_of now y a step in
      let tables = retarget-tables now e.save_target y plan.0 sys db in
      let moved = (retarget now e.save_target y plan.0 (sys, db)).1 in
      let grown = Grows-same json db moved tables.1 in
      let (there, same) = Grows-get_profile a.profile_id grown fits.0 in
      (
        _,
        continue_at json now e i x a spec step sys db found,
        (IsConsistent-same json db moved tables.1 tables.0 h, grown),
        leaves-OngoingFits json now y a spec plan moved there (same ∙ fits.1),
      )
  continue_round-Suits json e (has_moved now id a spec t) sys db h fits =
      (_, refl, advance-Suits json now e.write id a spec t db fits.0 fits.1 h, tt)

  paused_row-IsFitting :
      (json : Json R) (refused : Bool) (id q : String) (db : Db R)
      (o : Option (Option (Assignment R))) (row : Assignment R)
      → get_assignment refused id db ≡ o
      → IsConsistent json db
      → paused_row q o ≡ some row
      → IsFitting json db row
  paused_row-IsFitting json refused id q db none row found h made = absurd (ground (arith, made))
  paused_row-IsFitting json refused id q db (some none) row found h made =
      absurd (ground (arith, made))
  paused_row-IsFitting json refused id q db (some (some a)) row found h made =
      subst (IsFitting json db) (some-injective _ _ made)
        (h.fitting id a (get_assignment_accepted refused id db a found))

  pub pausing-IsFitting :
      (json : Json R) (fails : Failures) (id q : String) (app : App R) (row : Assignment R)
      → IsConsistent json app.db
      → pausing fails id q app ≡ some row
      → IsFitting json app.db row
  unfolding pausing
  pausing-IsFitting json fails id q app row h =
      if-cases (λ o. o ≡ some row → IsFitting json app.db row) (id == "")
        (λ _ made. absurd (ground (arith, made)))
        (λ _. paused_row-IsFitting json (fails reads_assignment) id q app.db _ row refl h)

  assigned-IsFitting :
      (json : Json R) (now : Time) (refused : Bool) (id : String) (n : ℕ) (db : Db R)
      (row : Assignment R) (o : Option (ProfileSpec R)) (base : Option R)
      → get_profile json refused n db ≡ o
      → IsConsistent json db
      → elim o as (λ _. Option (Assignment R)) [
        | none ↦ none
        | some spec ↦ elim base [ none ↦ none | some t ↦ some (assigned_row now id n t) ]
      ]
        ≡ some row
      → IsFitting json db row
  assigned-IsFitting json now refused id n db row none base got h made =
      absurd (ground (arith, made))
  assigned-IsFitting json now refused id n db row (some spec) none got h made =
      absurd (ground (arith, made))
  assigned-IsFitting json now refused id n db row (some spec) (some t) got h made =
      subst (IsFitting json db) (some-injective _ _ made)
        (get_profile-IsStored json refused n db spec got, λ s _ steps. steps)

  assigning_with-IsFitting :
      (json : Json R) (now : Time) (fails : Failures) (id : String) (n : ℤ) (from_c : Option R)
      (app : App R) (row : Assignment R)
      → IsConsistent json app.db
      → assigning_with json now fails id n from_c app ≡ some row
      → IsFitting json app.db row
  unfolding assigning_with
  assigning_with-IsFitting json now fails id (negsuc n) from_c app row h made =
      absurd (ground (arith, made))
  assigning_with-IsFitting json now fails id (pos zero) from_c app row h made =
      absurd (ground (arith, made))
  assigning_with-IsFitting json now fails id (pos (suc n)) from_c app row h made =
      assigned-IsFitting json now (fails reads_profile) id (suc n) app.db row _ _ refl h made

  pub assigning-IsFitting :
      (json : Json R) (now : Time) (fails : Failures) (id q : String) (body : AssignBody R)
      (app : App R) (row : Assignment R)
      → IsConsistent json app.db
      → assigning json now fails id body q app ≡ some row
      → IsFitting json app.db row
  unfolding assigning
  assigning-IsFitting json now fails id q body app row h =
      if-cases (λ o. o ≡ some row → IsFitting json app.db row) (id == "")
        (λ _ made. absurd (ground (arith, made)))
        (λ _.
          assigning_with-IsFitting json now fails id (wanted_profile body.profile_id q) body.from_c
            app row h)

  pub begin_round-OngoingFits :
      (json : Json R) (now : Time) (e : Faults) (i : ℕ) (sys : SystemState R) (db : Db R)
      → IsConsistent json db
      → OngoingFits json db (begin_round now e i (sys, db))
  unfolding begin_round
  begin_round-OngoingFits json now e i sys db h = fermenter (get_elem? sys.fv i)
    where
      row :
          (x : Fermenter R) (o : Option (Option (Assignment R)))
          → get_assignment e.get_assignment x.id db ≡ o
          → OngoingFits json db (row_found now i x o)
      row x none found = tt
      row x (some none) found = tt
      row x (some (some a)) found =
          if-cases (OngoingFits json db) a.paused (λ _. tt)
            (λ _. h.fitting x.id a (get_assignment_accepted e.get_assignment x.id db a found))

      fermenter : (o : Option (Fermenter R)) → OngoingFits json db (fermenter_found now e i db o)
      fermenter none = tt
      fermenter (some x) =
          if-cases (OngoingFits json db) (not (x.mode == mode_profile)) (λ _. tt)
            (λ _. row x _ refl)
