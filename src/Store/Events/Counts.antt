-- ===== src/Store/Events/Counts.antt =====
-- How many rows of a type the table of events holds.
use phb_open_ferm.Prelude.{
  ℕ, ◌+◌, String, ◌≡◌, ◌≢◌, refl, Bool, List, [], ◌∷◌, ◌++◌, arith, ◌==◌, if◌then◌else◌, if-cases,
  test_of_ne,
}
use phb_open_ferm.Time.{Time, unix}
use phb_open_ferm.Store.{Db, EventRow}
use phb_open_ferm.Store.Events.{add_event}

-- How many rows of a type there are.
unfoldable pub count_rows : String → List EventRow → ℕ
count_rows t [] = 0
count_rows t (e ∷ es) = (if e.type == t then 1 else 0) + count_rows t es

pub count_rows-append :
    (t : String) (es fs : List EventRow)
    → count_rows t (es ++ fs) ≡ count_rows t es + count_rows t fs
unfolding count_rows
count_rows-append t [] fs = omega arith
count_rows-append t (e ∷ es) fs = omega (arith, count_rows-append t es fs)

module _ {R : Type 0} where
  pub count_rows-add_event :
      (t : String) (now : Time) (refused : Bool) (typ id text : String) (db : Db R)
      → typ ≢ t
      → count_rows t (add_event now refused typ id text db).events ≡ count_rows t db.events
  unfolding add_event count_rows
  count_rows-add_event t now refused typ id text db other =
      if-cases (λ (d : Db R). count_rows t d.events ≡ count_rows t db.events) refused (λ _. refl)
        (λ _.
          let row : EventRow = record { ts = unix now; type = typ; fv_id = id; data_text = text } in
          let none_more : count_rows t (row ∷ []) ≡ 0 =
            rw (test_of_ne typ t other, if◌then◌else◌) refl in
          omega (arith, none_more, count_rows-append t db.events (row ∷ [])))

  abbrev pub opened_rows : Db R → ℕ
  opened_rows db = count_rows "ALARM_OPEN" db.events

  abbrev pub cleared_rows : Db R → ℕ
  cleared_rows db = count_rows "ALARM_CLEAR" db.events
