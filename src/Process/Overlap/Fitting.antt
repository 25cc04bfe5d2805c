-- ===== src/Process/Overlap/Fitting.antt =====
-- What has been read and not yet used fits the tables of profiles as they are now, whatever the
-- others have written since: profiles are only added.
use phb_open_ferm.Prelude.{
  ℕ, ◌<◌, String, ◌≡◌, refl, sym, ap, ◌∙◌, Bool, true, false, Option, none, some, List, if-cases,
  elim-cases, length, [], ◌∷◌, ◌==◌,
}
use phb_open_ferm.Time.{Time}
use phb_open_ferm.Float64.{Float64}
use phb_open_ferm.Store.{Db, ProfileRow, ProfileSpec, Assignment, Json}
use phb_open_ferm.Store.Profiles.{
  find_row, create_profile, get_profile, upsert_assignment, delete_assignment,
}
use phb_open_ferm.Scheduler.Rounds.{catalog}
use phb_open_ferm.Scheduler.Consistency.{
  IsFitting, IsConsistent, find_row_kept, get_profile_kept, IsStored, create_profile-IsConsistent,
  delete_assignment-IsConsistent,
}
use phb_open_ferm.Api.{App, Failures, Answer, creates_profile, deletes_assignment}
use phb_open_ferm.Api.Profiles.{handle_create_profile, handle_cancel_profile}
use phb_open_ferm.Process.Overlap.{Round, has_row, has_profile, has_moved, PendingWrite}

module _ {R : Type 0} ⦃f : Float64 R⦄ where
  -- Every profile that is in the table of `db` is in that of `db'`, with its row.
  pub record Grows (json : Json R) (db db' : Db R) : Type 0 where
    pub kept :
        (id : ℕ) (p : ProfileRow)
        → find_row id db.profiles ≡ some p
        → find_row id db'.profiles ≡ some p

  -- Such a profile reads the same.
  pub Grows-get_profile :
      {json : Json R} {db db' : Db R} (id : ℕ)
      → Grows json db db'
      → IsStored id db
      → IsStored id db' × (get_profile json false id db' ≡ get_profile json false id db)
  Grows-get_profile {json} {db} {db'} id g (p, found) =
      let found' = g.kept id p found in
      ((p, found'), get_profile_kept json id db db' p found found')

  pub Grows-IsFitting :
      {json : Json R} {db db' : Db R} (a : Assignment R)
      → Grows json db db'
      → IsFitting json db a
      → IsFitting json db' a
  Grows-IsFitting a g h = (
    (Grows-get_profile a.profile_id g h.0).0,
    λ spec got steps. h.1 spec (sym (Grows-get_profile a.profile_id g h.0).1 ∙ got) steps,
  )

  pub Grows-same : (json : Json R) (db db' : Db R) → catalog db' ≡ catalog db → Grows json db db'
  unfolding get_profile
  Grows-same json db db' same = record {
    kept = λ id p found. rw (ap (λ (q : List ProfileRow × ℕ). q.0) same) found;
  }

  -- What the scheduler has read fits the profiles of now.
  abbrev pub RoundFits : Json R → Db R → Round R → Type 0
  RoundFits json db (has_row now i x a) = IsFitting json db a
  RoundFits json db (has_profile now i x a spec) =
      IsStored a.profile_id db
      × (get_profile json false a.profile_id db ≡ some spec)
      × (a.step_idx < length spec)
  RoundFits json db (has_moved now id a spec t) =
      IsStored a.profile_id db × (get_profile json false a.profile_id db ≡ some spec)

  abbrev pub OngoingFits : Json R → Db R → Option (Round R) → Type 0
  OngoingFits json db none = Unit
  OngoingFits json db (some r) = RoundFits json db r

  abbrev pub WriteFits : Json R → Db R → PendingWrite R → Type 0
  WriteFits json db none = Unit
  WriteFits json db (some (_, row)) = IsFitting json db row

  Grows-RoundFits :
      {json : Json R} {db db' : Db R} (r : Round R)
      → Grows json db db'
      → RoundFits json db r
      → RoundFits json db' r
  Grows-RoundFits (has_row now i x a) g h = Grows-IsFitting a g h
  Grows-RoundFits (has_profile now i x a spec) g h =
      let (there, same) = Grows-get_profile a.profile_id g h.0 in (there, same ∙ h.1, h.2)
  Grows-RoundFits (has_moved now id a spec t) g h =
      let (there, same) = Grows-get_profile a.profile_id g h.0 in (there, same ∙ h.1)

  pub Grows-OngoingFits :
      {json : Json R} {db db' : Db R} (o : Option (Round R))
      → Grows json db db'
      → OngoingFits json db o
      → OngoingFits json db' o
  Grows-OngoingFits none g h = tt
  Grows-OngoingFits (some r) g h = Grows-RoundFits r g h

  pub Grows-WriteFits :
      {json : Json R} {db db' : Db R} (w : PendingWrite R)
      → Grows json db db'
      → WriteFits json db w
      → WriteFits json db' w
  Grows-WriteFits none g h = tt
  Grows-WriteFits (some (now, row)) g h = Grows-IsFitting row g h

  create_profile-Grows :
      (json : Json R) (now : Time) (refused : Bool) (name : String) (spec : ProfileSpec R)
      (db : Db R)
      → Grows json db (create_profile json now refused name spec db).0
  unfolding create_profile get_profile
  create_profile-Grows json now true name spec db = Grows-same json db db refl
  create_profile-Grows json now false name spec db = record {
    kept = λ id p found. find_row_kept id _ p db.profiles found;
  }

  pub upsert_assignment-Grows :
      (json : Json R) (now : Time) (refused : Bool) (a : Assignment R) (db : Db R)
      → Grows json db (upsert_assignment now refused a db).0
  unfolding upsert_assignment
  upsert_assignment-Grows json now true a db = Grows-same json db _ refl
  upsert_assignment-Grows json now false a db = Grows-same json db _ refl

  pub delete_assignment-Grows :
      (json : Json R) (refused : Bool) (id : String) (db : Db R)
      → Grows json db (delete_assignment refused id db).0
  unfolding delete_assignment
  delete_assignment-Grows json true id db = Grows-same json db _ refl
  delete_assignment-Grows json false id db = Grows-same json db _ refl

  -- A step from `db` that ends in consistent tables and keeps what others have read.
  abbrev pub Suits : Json R → Db R → Db R → Type 0
  Suits json db db' = IsConsistent json db' × Grows json db db'

  pub handle_cancel_profile-Suits :
      (json : Json R) (fails : Failures) (id : String) (app : App R)
      → IsConsistent json app.db
      → Suits json app.db (handle_cancel_profile fails id app).0.db
  unfolding handle_cancel_profile
  handle_cancel_profile-Suits json fails id app h =
      let P = λ (r : App R × Answer R). Suits json app.db r.0.db in
      let same : Suits json app.db app.db = (h, Grows-same json app.db app.db refl) in
      let refused = fails deletes_assignment in
      if-cases P (id == "") (λ _. same)
        (λ _.
          if-cases P (delete_assignment refused id app.db).1
            (λ _. (
              delete_assignment-IsConsistent json refused id app.db h,
              delete_assignment-Grows json refused id app.db,
            ))
            (λ _. same))

  pub handle_create_profile-Suits :
      (json : Json R) (now : Time) (fails : Failures) (body : Option (String × ProfileSpec R))
      (app : App R)
      → IsConsistent json app.db
      → Suits json app.db (handle_create_profile json now fails body app).0.db
  unfolding handle_create_profile
  handle_create_profile-Suits json now fails none app h = (h, Grows-same json app.db app.db refl)
  handle_create_profile-Suits json now fails (some (name, [])) app h =
      (h, Grows-same json app.db app.db refl)
  handle_create_profile-Suits json now fails (some (name, step ∷ steps)) app h =
      let refused = fails creates_profile in
      elim-cases (λ (r : App R × Answer R). Suits json app.db r.0.db)
        (create_profile json now refused name (step ∷ steps) app.db).1
        (λ _. (h, Grows-same json app.db app.db refl))
        (λ _ _. (
          create_profile-IsConsistent json now refused name (step ∷ steps) app.db h,
          create_profile-Grows json now refused name (step ∷ steps) app.db,
        ))
