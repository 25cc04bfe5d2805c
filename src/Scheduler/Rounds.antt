-- ===== src/Scheduler/Rounds.antt =====
-- One round of the scheduler: whose profile it follows, and which tables it can write.
use phb_open_ferm.Prelude.{
  ℕ, ◌<◌, String, ◌≡◌, refl, Bool, true, false, not, Option, none, some, List, [], ◌∷◌, ◌==◌, arith,
  length, get_elem?, if-cases,
}
use phb_open_ferm.Prelude.Int.{pos}
use phb_open_ferm.Prelude.Dict.{Dict, lookup}
use phb_open_ferm.Time.{Time}
use phb_open_ferm.Float64.{Float64}
use phb_open_ferm.Control.{Fermenter, SystemState, mode_profile}
use phb_open_ferm.Control.Setters.{TargetChange, set_target}
use phb_open_ferm.Store.Rows.{save_target, save_targets}
use phb_open_ferm.Store.{Db, ProfileRow, ProfileSpec, Assignment, Json}
use phb_open_ferm.Store.Profiles.{get_assignment, get_profile}
use phb_open_ferm.Scheduler.{
  Faults, retarget, follow, with_profile, with_assignment, with_fermenter, schedule,
}

module _ {R : Type 0} where
  -- The profiles, with the id of the next one.
  abbrev pub catalog : Db R → List ProfileRow × ℕ
  catalog db = (db.profiles, db.next_profile)

  -- The row of a fermenter, as GetAssignment reads it.
  abbrev pub current : String → Dict (Assignment R) → Option (Assignment R)
  current id rows = elim (lookup id rows) [ none ↦ none | some a ↦ some (record a { fv_id = id }) ]

module _ {R : Type 0} ⦃f : Float64 R⦄ where
  -- A round leaves both as they are, or follows the profile of a fermenter that is not paused.
  pub data IsRound (json : Json R) (now : Time) (e : Faults) (sys : SystemState R) (db : Db R)
      : Option (SystemState R × Db R) → Type 0 where
    rests : IsRound json now e sys db (some (sys, db))
    follows :
        (x : Fermenter R) (a : Assignment R) (spec : ProfileSpec R)
        → current x.id db.assignments ≡ some a
        → a.paused ≡ false
        → get_profile json false a.profile_id db ≡ some spec
        → 0 < length spec
        → IsRound json now e sys db (follow now e x a spec (sys, db))

  pub get_profile_accepted :
      (json : Json R) (refused : Bool) (id : ℕ) (db : Db R) (spec : ProfileSpec R)
      → get_profile json refused id db ≡ some spec
      → get_profile json false id db ≡ some spec
  unfolding get_profile
  get_profile_accepted json false id db spec e = e
  get_profile_accepted json true id db spec e = absurd (ground arith)

  pub get_assignment_accepted :
      (refused : Bool) (id : String) (db : Db R) (a : Assignment R)
      → get_assignment refused id db ≡ some (some a)
      → current id db.assignments ≡ some a
  unfolding get_assignment
  get_assignment_accepted refused id db a e = ground arith

  with_profile-IsRound :
      (json : Json R) (now : Time) (e : Faults) (sys : SystemState R) (db : Db R) (x : Fermenter R)
      (a : Assignment R) (o : Option (ProfileSpec R))
      → get_profile json e.get_profile a.profile_id db ≡ o
      → current x.id db.assignments ≡ some a
      → a.paused ≡ false
      → IsRound json now e sys db (with_profile now e x a (sys, db) o)
  unfolding with_profile
  with_profile-IsRound json now e sys db x a none got at on = rests
  with_profile-IsRound json now e sys db x a (some []) got at on = rests
  with_profile-IsRound json now e sys db x a (some (first ∷ steps)) got at on =
      follows x a (first ∷ steps) at on
        (get_profile_accepted json e.get_profile a.profile_id db (first ∷ steps) got) (omega arith)

  with_assignment-IsRound :
      (json : Json R) (now : Time) (e : Faults) (sys : SystemState R) (db : Db R) (x : Fermenter R)
      (o : Option (Option (Assignment R)))
      → get_assignment e.get_assignment x.id db ≡ o
      → IsRound json now e sys db (with_assignment json now e x (sys, db) o)
  unfolding with_assignment
  with_assignment-IsRound json now e sys db x none got = rests
  with_assignment-IsRound json now e sys db x (some none) got = rests
  with_assignment-IsRound json now e sys db x (some (some a)) got =
      if-cases (IsRound json now e sys db) a.paused (λ _. rests)
        (λ on.
          with_profile-IsRound json now e sys db x a
            (get_profile json e.get_profile a.profile_id db) refl
            (get_assignment_accepted e.get_assignment x.id db a got) on)

  with_fermenter-IsRound :
      (json : Json R) (now : Time) (e : Faults) (sys : SystemState R) (db : Db R)
      (o : Option (Fermenter R))
      → IsRound json now e sys db (with_fermenter json now e (sys, db) o)
  unfolding with_fermenter
  with_fermenter-IsRound json now e sys db none = rests
  with_fermenter-IsRound json now e sys db (some x) =
      if-cases (IsRound json now e sys db) (not (x.mode == mode_profile)) (λ _. rests)
        (λ _.
          with_assignment-IsRound json now e sys db x (get_assignment e.get_assignment x.id db)
            refl)

  pub schedule-IsRound :
      (json : Json R) (now : Time) (e : Faults) (i : ℕ) (sys : SystemState R) (db : Db R)
      → IsRound json now e sys db (schedule json now e i (sys, db))
  unfolding schedule
  schedule-IsRound json now e i sys db =
      with_fermenter-IsRound json now e sys db (get_elem? sys.fv i)

  -- The callback of SetTarget writes neither table of profiles.
  pub save_targets-tables :
      (now : Time) (refused : Bool) (calls : List (TargetChange R)) (db : Db R)
      → ((save_targets now refused calls db).assignments ≡ db.assignments)
        × (catalog (save_targets now refused calls db) ≡ catalog db)
  unfolding save_targets
  save_targets-tables now refused [] db = (refl, refl)
  save_targets-tables now true (c ∷ cs) db = save_targets-tables now true cs db
  save_targets-tables now false (c ∷ cs) db =
      save_targets-tables now false cs (save_target now false c db)

  pub retarget-tables :
      (now : Time) (refused : Bool) (x : Fermenter R) (t : R) (sys : SystemState R) (db : Db R)
      → ((retarget now refused x t (sys, db)).1.assignments ≡ db.assignments)
        × (catalog (retarget now refused x t (sys, db)).1 ≡ catalog db)
  unfolding retarget
  retarget-tables now refused x t sys db =
      if-cases
        (λ (w : SystemState R × Db R).
          (w.1.assignments ≡ db.assignments) × (catalog w.1 ≡ catalog db))
        (f.lt (f.decimal (pos 5) 2) (f.abs (f.sub t x.target_c)))
        (λ _. save_targets-tables now refused (set_target x.id t sys).1 db) (λ _. (refl, refl))
