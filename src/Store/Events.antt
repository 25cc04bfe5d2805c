-- ===== src/Store/Events.antt =====
-- The table of events of sqlite.go. Rows of one second come in the order of the index, which is that
-- of their insertion.
pub mod Query
pub mod Counts
use mathlib.Core.List.{Perm}
use mathlib.Core.List.{reverse}
use phb_open_ferm.Prelude.{
  String, ◌≡◌, refl, Bool, false, ◌&&◌, ◌||◌, Option, none, some, List, [], ◌∷◌, ◌++◌, ◌==◌,
  if◌then◌else◌, take, keep,
}
use phb_open_ferm.Prelude.Int.{ℤ, pos, leb_ℤ, pos_part}
use phb_open_ferm.Prelude.Sort.{sort_by, IsSorted, sort_by-IsSorted, sort_by-perm}
use phb_open_ferm.Time.{Time, unix}
use phb_open_ferm.Store.{Db, EventRow}

abbrev pub ts_of : EventRow → ℤ
ts_of e = e.ts

-- Whether an event is of a fermenter, where the empty id stands for all, in a range of time.
abbrev pub in_query : String → ℤ → ℤ → EventRow → Bool
in_query fv_id from to e = (fv_id == "" || e.fv_id == fv_id) && (leb_ℤ from e.ts && leb_ℤ e.ts to)

-- The struct that ListEvents scans a row into.
pub record StoredEvent : Type 0 where
  pub ts : Time
  pub type : String
  pub fv_id : String
  pub data_text : String

-- rows.Scan; what database/sql makes of the integer `ts` where a time.Time is wanted is an argument,
-- and `none` is its error.
unfoldable pub scan_event : (ℤ → Option Time) → EventRow → Option StoredEvent
scan_event scan_time e = elim (scan_time e.ts) [
  | none ↦ none
  | some t ↦ some (record { ts = t; type = e.type; fv_id = e.fv_id; data_text = e.data_text })
]

-- The loop over the rows of ListEvents, which the first error ends.
unfoldable pub scan_events : (ℤ → Option Time) → List EventRow → Option (List StoredEvent)
unfolding scan_event
scan_events scan_time [] = some []
scan_events scan_time (e ∷ es) =
    let later = scan_events scan_time es in
    elim (scan_event scan_time e) [
      | none ↦ none
      | some x ↦ elim later [ none ↦ none | some xs ↦ some (x ∷ xs) ]
    ]

module _ {R : Type 0} where
  -- The error of the statement is dropped.
  unfoldable pub add_event : Time → Bool → String → String → String → Db R → Db R
  add_event now refused typ fv_id data_text db =
      let row : EventRow = record {
        ts = unix now;
        type = typ;
        fv_id = fv_id;
        data_text = data_text;
      } in
      if refused then db else record db { events = db.events ++ (row ∷ []) }

  -- The latest events, 50 of them where no positive number is asked for.
  unfoldable pub list_events : (ℤ → Option Time) → Bool → ℤ → Db R → Option (List StoredEvent)
  unfolding scan_events
  list_events scan_time refused limit db =
      let n = if leb_ℤ limit (pos 0) then 50 else pos_part limit in
      if refused then none else scan_events scan_time (take n (reverse (sort_by ts_of db.events)))

  unfoldable pub query_events : Bool → String → ℤ → ℤ → Db R → Option (List EventRow)
  query_events refused fv_id from to db =
      if refused then none else some (sort_by ts_of (keep (in_query fv_id from to) db.events))
