-- ===== src/Store/Samples.antt =====
-- The table of samples of sqlite.go, and the series that the charts draw. `AVG` is SQLite's.
pub mod Series
pub mod Table
use phb_open_ferm.Prelude.{
  ℕ, zero, suc, ◌+◌, ◌*◌, ◌/◌, String, Bool, true, false, not, ◌&&◌, Option, none, some, List, [],
  ◌∷◌, ◌++◌, map, ◌==◌, if◌then◌else◌, keep,
}
use phb_open_ferm.Prelude.Int.{ℤ, pos, leb_ℤ, eqb_ℤ, pos_part, neg_part, sub_ℕ, ◌-ℤ◌}
use phb_open_ferm.Prelude.Sort.{sort_by}
use phb_open_ferm.Time.{Time, Duration, unix, shift, minutes}
use phb_open_ferm.Float64.{Float64}
use phb_open_ferm.Control.{Fermenter, SystemState}
use phb_open_ferm.Store.{Db, SampleRow}

module _ {R : Type 0} where
  abbrev same_key : ℤ → String → SampleRow R → Bool
  same_key ts fv_id r = eqb_ℤ r.ts ts && r.fv_id == fv_id

  -- INSERT OR REPLACE, whose error is dropped.
  abbrev insert_sample : Bool → SampleRow R → List (SampleRow R) → List (SampleRow R)
  insert_sample refused r rows =
      if refused then rows else keep (λ old. not (same_key r.ts r.fv_id old)) rows ++ (r ∷ [])

  abbrev pub sample_of : Time → Fermenter R → SampleRow R
  sample_of now x = record {
    ts = unix now;
    fv_id = x.id;
    beer_c = x.beer_c;
    target_c = x.target_c;
    valve = x.valve;
  }

  unfoldable pub insert_all :
      Time → (String → Bool) → List (Fermenter R) → List (SampleRow R) → List (SampleRow R)
  insert_all now refused [] rows = rows
  insert_all now refused (x ∷ xs) rows =
      insert_all now refused xs (insert_sample (refused x.id) (sample_of now x) rows)

  -- One transaction: `failed` says that it could not be begun, prepared or committed.
  unfoldable pub insert_samples : Time → Bool → (String → Bool) → SystemState R → Db R → Db R × Bool
  unfolding insert_all
  insert_samples now failed refused s db =
      if failed
      then (db, false)
      else (record db { samples = insert_all now refused s.fv db.samples }, true)

  unfoldable pub prune_samples : Time → Bool → Duration → Db R → Db R × Bool
  unfolding ◌-ℤ◌
  prune_samples now refused max_age db =
      let cut = unix (shift now (pos 0 -ℤ max_age)) in
      if refused
      then (db, false)
      else (record db { samples = keep (λ r. leb_ℤ cut r.ts) db.samples }, true)

pub record SeriesPoint (R : Type 0) : Type 0 where
  pub t : ℤ
  pub beer_c : R
  pub target_c : R

-- Division of SQLite, towards zero, by a positive number.
abbrev pub bucket_of : ℕ → ℤ → ℤ
bucket_of n a = sub_ℕ (pos_part a / n * n) (neg_part a / n * n)

-- The first of each run of equal numbers.
unfoldable pub distinct : List ℤ → List ℤ
distinct [] = []
distinct (a ∷ []) = a ∷ []
distinct (a ∷ b ∷ rest) =
    let others = distinct (b ∷ rest) in if eqb_ℤ a b then others else a ∷ others

module _ {R : Type 0} where
  abbrev in_series : String → ℤ → ℤ → SampleRow R → Bool
  in_series fv_id from to r = r.fv_id == fv_id && (leb_ℤ from r.ts && leb_ℤ r.ts to)

  abbrev point : (List R → R) → ℕ → List (SampleRow R) → ℤ → SeriesPoint R
  point avg n rows b =
      let here = keep (λ r. eqb_ℤ (bucket_of n r.ts) b) rows in
      record {
        t = b;
        beer_c = avg (map (λ r. r.beer_c) here);
        target_c = avg (map (λ r. r.target_c) here);
      }

  -- GROUP BY and ORDER BY the start of the bucket. A bucket of no seconds makes it NULL, which cannot
  -- be scanned into an `int64`: an error, unless there are no rows.
  unfoldable pub series : (List R → R) → ℕ → List (SampleRow R) → Option (List (SeriesPoint R))
  unfolding distinct
  series avg zero [] = some []
  series avg zero (r ∷ rows) = none
  series avg (suc n) rows =
      let starts = distinct (sort_by (λ b. b) (map (λ r. bucket_of (suc n) r.ts) rows)) in
      some (map (point avg (suc n) rows) starts)

module _ {R : Type 0} ⦃f : Float64 R⦄ where
  -- `from` and `to` are the Unix seconds of the times.
  unfoldable pub query_series :
      (List R → R) → Bool → String → ℤ → ℤ → Duration → Db R → Option (List (SeriesPoint R))
  unfolding series
  query_series avg refused fv_id from to step db =
      let step' = if leb_ℤ step (pos 0) then minutes 1 else step in
      let bucket = pos_part (f.to_int (f.seconds step')) in
      if refused then none else series avg bucket (keep (in_series fv_id from to) db.samples)
