-- ===== src/Scheduler/Consistency.antt =====
-- The tables of profiles and assignments fit together, whoever writes them.
use phb_open_ferm.Prelude.{
  ℕ, ◌+◌, ◌<◌, String, ◌≡◌, refl, sym, ap, ◌∙◌, Bool, true, false, Option, none, some, List, [],
  ◌∷◌, ◌++◌, ◌==◌, arith, if_true, if_false, subst, length, All, Bool-cases, Option-cases, inl, inr,
}
use mathlib.Core.Option.{some-injective}
use phb_open_ferm.Time.{Time}
use phb_open_ferm.Float64.{Float64}
use phb_open_ferm.Control.{SystemState}
use phb_open_ferm.Store.{Db, ProfileRow, ProfileSpec, Assignment, Json}
use phb_open_ferm.Store.Profiles.{
  find_row, create_profile, get_profile, upsert_assignment, upserted, delete_assignment,
}
use phb_open_ferm.Scheduler.{Faults, schedule}
use phb_open_ferm.Scheduler.Rounds.{catalog, current, IsRound, rests, follows, schedule-IsRound}
use phb_open_ferm.Scheduler.Progress.{
  IsMove, keeps, advances, finishes, current-insert, current-erase, follow_moves,
}
use phb_open_ferm.Scheduler.Safety.{get_profile_same, move_tracked}

-- A row that is added at the end hides none.
pub find_row_kept :
    (id : ℕ) (row p : ProfileRow) (ps : List ProfileRow)
    → find_row id ps ≡ some p
    → find_row id (ps ++ (row ∷ [])) ≡ some p
unfolding find_row
find_row_kept id row p [] e = absurd (ground arith)
find_row_kept id row p (q ∷ ps) e = ground (arith, find_row_kept id row p ps)

All-snoc :
    (P : ProfileRow → Type 0) (ps : List ProfileRow) (row : ProfileRow)
    → All P ps
    → P row
    → All P (ps ++ (row ∷ []))
All-snoc P [] row h last = (last, tt)
All-snoc P (q ∷ ps) row h last = (h.0, All-snoc P ps row h.1 last)

All-weaken :
    (n : ℕ) (ps : List ProfileRow)
    → All (λ (p : ProfileRow). p.id < n) ps
    → All (λ (p : ProfileRow). p.id < n + 1) ps
All-weaken n [] h = tt
All-weaken n (q ∷ ps) h = (omega (arith, h.0), All-weaken n ps h.1)

-- A profile with an id that is in the table.
abbrev pub IsStored : {R : Type 0} → ℕ → Db R → Type 0
IsStored id db = (p : ProfileRow) × (find_row id db.profiles ≡ some p)

pub get_profile-IsStored :
    {R : Type 0} (json : Json R) (refused : Bool) (id : ℕ) (db : Db R) (spec : ProfileSpec R)
    → get_profile json refused id db ≡ some spec
    → IsStored id db
unfolding get_profile
get_profile-IsStored json true id db spec e = absurd (ground (arith, e))
get_profile-IsStored json false id db spec e = elim (Option-cases (find_row id db.profiles)) [
  | inl missing ↦ absurd (ground (arith, missing))
  | inr (p, found) ↦ (p, found)
]

pub get_profile_kept :
    {R : Type 0} (json : Json R) (id : ℕ) (db db' : Db R) (p : ProfileRow)
    → find_row id db.profiles ≡ some p
    → find_row id db'.profiles ≡ some p
    → get_profile json false id db' ≡ get_profile json false id db
unfolding get_profile
get_profile_kept json id db db' p found found' = rw (found, found') refl

module _ {R : Type 0} ⦃f : Float64 R⦄ where
  -- An assignment that fits the profiles: its profile is in the table, and it stands at one of the
  -- profile's steps, if that can be read and has any.
  abbrev pub IsFitting : Json R → Db R → Assignment R → Type 0
  IsFitting json db a =
      IsStored a.profile_id db
      × ((spec : ProfileSpec R)
          → get_profile json false a.profile_id db ≡ some spec
          → 0 < length spec
          → a.step_idx < length spec)

  pub record IsConsistent (json : Json R) (db : Db R) : Type 0 where
    pub rows_below : All (λ (p : ProfileRow). p.id < db.next_profile) db.profiles
    pub fitting :
        (id : String) (a : Assignment R) → current id db.assignments ≡ some a → IsFitting json db a

  IsFitting-same :
      (json : Json R) (db db' : Db R) (a : Assignment R)
      → catalog db' ≡ catalog db
      → IsFitting json db a
      → IsFitting json db' a
  IsFitting-same json db db' a same h = (
    rw (ap (λ q. q.0) same) h.0,
    λ spec got.
        h.1 spec (sym (get_profile_same json a.profile_id db db' (ap (λ q. q.0) same)) ∙ got),
  )

  -- Writes to other tables change nothing.
  pub IsConsistent-same :
      (json : Json R) (db db' : Db R)
      → catalog db' ≡ catalog db
      → db'.assignments ≡ db.assignments
      → IsConsistent json db
      → IsConsistent json db'
  IsConsistent-same json db db' same rows h = record {
    rows_below = rw (ap (λ q. q.0) same, ap (λ q. q.1) same) h.rows_below;
    fitting = λ id a at.
        IsFitting-same json db db' a same (h.fitting id a (ap (current id) (sym rows) ∙ at));
  }

  pub create_profile-IsConsistent :
      (json : Json R) (now : Time) (refused : Bool) (name : String) (spec : ProfileSpec R)
      (db : Db R)
      → IsConsistent json db
      → IsConsistent json (create_profile json now refused name spec db).0
  unfolding create_profile get_profile
  create_profile-IsConsistent json now true name spec db h = h
  create_profile-IsConsistent json now false name spec db h = record {
    rows_below =
        All-snoc _ db.profiles _ (All-weaken db.next_profile db.profiles h.rows_below)
          (omega arith);
    fitting = λ id a at.
        (let ((p, found), inside) = h.fitting id a at in
          let found' = find_row_kept a.profile_id _ p db.profiles found in
          (
            (p, found'),
            λ s got. inside s (
                sym (
                  get_profile_kept json a.profile_id db
                    (create_profile json now false name spec db).0 p found found')
                ∙ got),
          ));
  }

  pub upsert_assignment-IsConsistent :
      (json : Json R) (now : Time) (refused : Bool) (a : Assignment R) (db : Db R)
      → IsFitting json db a
      → IsConsistent json db
      → IsConsistent json (upsert_assignment now refused a db).0
  unfolding upsert_assignment get_profile
  upsert_assignment-IsConsistent json now true a db fits h = h
  upsert_assignment-IsConsistent json now false a db fits h = record {
    rows_below = h.rows_below;
    fitting = λ id b at. elim (Bool-cases (a.fv_id == id)) [
      | inl e ↦
          (let same : upserted now a ≡ b =
              some-injective _ _
                (sym (current-insert now a.fv_id id a db.assignments refl ∙ if_true _ _ e) ∙ at) in
            subst (IsFitting json db) same fits)
      | inr e ↦
          h.fitting id b
            (sym (current-insert now a.fv_id id a db.assignments refl ∙ if_false _ _ e) ∙ at)
    ];
  }

  pub delete_assignment-IsConsistent :
      (json : Json R) (refused : Bool) (id : String) (db : Db R)
      → IsConsistent json db
      → IsConsistent json (delete_assignment refused id db).0
  unfolding delete_assignment get_profile
  delete_assignment-IsConsistent json true k db h = h
  delete_assignment-IsConsistent json false k db h = record {
    rows_below = h.rows_below;
    fitting = λ id b at. elim (Bool-cases (k == id)) [
      | inl e ↦
          (let gone : none ≡ some b =
              sym (current-erase k id db.assignments ∙ if_true _ _ e) ∙ at in
            absurd (ground (arith, gone)))
      | inr e ↦ h.fitting id b (sym (current-erase k id db.assignments ∙ if_false _ _ e) ∙ at)
    ];
  }

  -- A move keeps the id of the profile.
  move-IsStored :
      (json : Json R) (now : Time) (db : Db R) {o o' : Option (Assignment R)} (a : Assignment R)
      → ((b : Assignment R) → o ≡ some b → IsStored b.profile_id db)
      → IsMove now json db o o'
      → o' ≡ some a
      → IsStored a.profile_id db
  move-IsStored json now db a kept keeps here = kept a here
  move-IsStored json now db c kept (advances {a = b} t from inside) here =
      let same : b.profile_id ≡ c.profile_id =
        ap (λ (q : Assignment R). q.profile_id) (some-injective _ _ here) in
      subst (λ (n : ℕ). IsStored n db) same (kept b refl)
  move-IsStored json now db a kept (finishes from over) here = absurd (ground arith)

  move-IsFitting :
      (json : Json R) (now : Time) (db : Db R) {o o' : Option (Assignment R)} (a : Assignment R)
      → ((b : Assignment R) → o ≡ some b → IsFitting json db b)
      → IsMove now json db o o'
      → o' ≡ some a
      → IsFitting json db a
  move-IsFitting json now db a fits move at = (
    move-IsStored json now db a (λ b here. (fits b here).0) move at,
    λ s. move_tracked json now db a s (λ b r here. (fits b here).1 r) move at,
  )

  -- A round of the scheduler from consistent tables does not panic, and leaves consistent tables.
  pub schedule-IsConsistent :
      (json : Json R) (now : Time) (e : Faults) (i : ℕ) (sys : SystemState R) (db : Db R)
      → IsConsistent json db
      → (out : SystemState R × Db R) × (schedule json now e i (sys, db) ≡ some out)
        × IsConsistent json out.1
  schedule-IsConsistent json now e i sys db h = go (schedule-IsRound json now e i sys db)
    where
      go :
          {o : Option (SystemState R × Db R)}
          → IsRound json now e sys db o
          → (out : SystemState R × Db R) × (o ≡ some out) × IsConsistent json out.1
      go rests = ((sys, db), refl, h)
      go (follows x a spec at on got steps) =
          let (out, ran, same, moves) =
            follow_moves json now e sys db x a spec at got
              ((h.fitting x.id a at).1 spec got steps) in
          (
            out,
            ran,
            record {
              rows_below = rw (ap (λ q. q.0) same, ap (λ q. q.1) same) h.rows_below;
              fitting = λ id b at'.
                  IsFitting-same json db out.1 b same
                    (move-IsFitting json now db b (h.fitting id) (moves id) at');
            },
          )
