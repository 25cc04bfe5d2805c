-- ===== src/Store/Profiles.antt =====
-- The profile tables of sqlite.go: profiles as JSON texts, and the one assignment of a fermenter.
use mathlib.Core.List.{reverse}
use phb_open_ferm.Prelude.{
  map, ℕ, ◌+◌, ◌<◌, String, ◌≡◌, ◌≢◌, refl, Bool, true, false, Option, none, some, List, [], ◌∷◌,
  ◌++◌, arith, eqb, if◌then◌else◌, All, test_self, test_of_ne,
}
use phb_open_ferm.Prelude.Int.{pos, eqb_ℤ}
use phb_open_ferm.Prelude.Dict.{lookup, insert, erase, lookup-insert}
use phb_open_ferm.Time.{Time, unix}
use phb_open_ferm.Store.{Db, ProfileRow, ProfileSpec, Assignment, Json}

-- WHERE id=?
unfoldable pub find_row : ℕ → List ProfileRow → Option ProfileRow
find_row id [] = none
find_row id (p ∷ ps) = if eqb p.id id then some p else find_row id ps

-- A new id is found at the end.
find_row_new :
    (n : ℕ) (row : ProfileRow) (ps : List ProfileRow)
    → row.id ≡ n
    → All (λ (p : ProfileRow). p.id < n) ps
    → find_row n (ps ++ (row ∷ [])) ≡ some row
unfolding find_row
find_row_new n row [] e below = ground arith
find_row_new n row (p ∷ ps) e below = ground (arith, find_row_new n row ps e below.1)

module _ {R : Type 0} where
  -- The id is one past the highest ever used (AUTOINCREMENT). `none` is an error.
  unfoldable pub create_profile :
      Json R → Time → Bool → String → ProfileSpec R → Db R → Db R × Option ℕ
  create_profile json now refused name spec db =
      let row : ProfileRow = record {
        id = db.next_profile;
        name = name;
        spec_json = json.marshal spec;
        created_at = unix now;
      } in
      if refused then (db, none) else (
        record db { profiles = db.profiles ++ (row ∷ []); next_profile = db.next_profile + 1 },
        some db.next_profile,
      )

  -- A missing row and a text that does not parse are errors too.
  unfoldable pub get_profile : Json R → Bool → ℕ → Db R → Option (ProfileSpec R)
  unfolding find_row
  get_profile json refused id db =
      if refused
      then none
      else elim (find_row id db.profiles) [ none ↦ none | some p ↦ json.unmarshal p.spec_json ]

  -- The ids and names, the latest first; `none` is an error.
  unfoldable pub list_profiles : Bool → Db R → Option (List (ℕ × String))
  list_profiles refused db =
      if refused
      then none
      else some (reverse (map (λ (p : ProfileRow). (p.id, p.name)) db.profiles))

  -- The error, or the assignment, or nil for none.
  unfoldable pub get_assignment : Bool → String → Db R → Option (Option (Assignment R))
  get_assignment refused fv_id db = if refused then none else elim (lookup fv_id db.assignments) [
    | none ↦ some none
    | some a ↦ some (some (record a { fv_id = fv_id }))
  ]

  -- The row that the statement leaves, whether or not there was one.
  abbrev pub upserted : Time → Assignment R → Assignment R
  upserted now a = record a {
    started_ts = if eqb_ℤ a.started_ts (pos 0) then unix now else a.started_ts;
  }

  -- The second component says whether the call returned nil.
  unfoldable pub upsert_assignment : Time → Bool → Assignment R → Db R → Db R × Bool
  upsert_assignment now refused a db =
      if refused
      then (db, false)
      else (record db { assignments = insert a.fv_id (upserted now a) db.assignments }, true)

  unfoldable pub delete_assignment : Bool → String → Db R → Db R × Bool
  delete_assignment refused fv_id db =
      if refused
      then (db, false)
      else (record db { assignments = erase fv_id db.assignments }, true)

  -- A profile that was created is read back, whatever else the database holds, as long as the ids in
  -- use lie below the next one and the JSON of the profile parses to the profile.
  pub create_profile-get_profile :
      (json : Json R) (now : Time) (name : String) (spec : ProfileSpec R) (db : Db R)
      → All (λ (p : ProfileRow). p.id < db.next_profile) db.profiles
      → json.unmarshal (json.marshal spec) ≡ some spec
      → get_profile json false db.next_profile (create_profile json now false name spec db).0
        ≡ some spec
  unfolding get_profile create_profile
  create_profile-get_profile json now name spec db below back =
      let row : ProfileRow = record {
        id = db.next_profile;
        name = name;
        spec_json = json.marshal spec;
        created_at = unix now;
      } in
      rw (find_row_new db.next_profile row db.profiles refl below, if◌then◌else◌) back

  -- A statement that SQLite accepts leaves the row that was written, whether or not the fermenter had
  -- one: it has the fermenter's id, and the time as its `started_ts` where that was zero. Other
  -- fermenters keep their rows.
  pub upsert-get_assignment :
      (now : Time) (a : Assignment R) (db : Db R) (id : String)
      → let db' = (upsert_assignment now false a db).0 in
        (get_assignment false a.fv_id db' ≡ some (some (upserted now a)))
        × (a.fv_id ≢ id → get_assignment false id db' ≡ get_assignment false id db)
  unfolding get_assignment upsert_assignment
  upsert-get_assignment now a db id = (
    rw
        (
          lookup-insert a.fv_id a.fv_id (upserted now a) db.assignments,
          test_self a.fv_id,
          if◌then◌else◌,
        )
        refl,
    λ other. rw (
      lookup-insert a.fv_id id (upserted now a) db.assignments,
      test_of_ne a.fv_id id other,
      if◌then◌else◌,
    ),
  )
