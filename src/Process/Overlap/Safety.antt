-- ===== src/Process/Overlap/Safety.antt =====
-- The tables of profiles stay consistent, and the scheduler inside the steps of its profiles, when
-- rounds and requests overlap between their statements.
use phb_open_ferm.Prelude.{ℕ, ◌≡◌, refl, sym, ◌∙◌, Option, none, some, if-cases, subst, eqb}
use mathlib.Core.Option.{some-injective}
use phb_open_ferm.Time.{Time}
use phb_open_ferm.Float64.{Float64}
use phb_open_ferm.Control.{SystemState}
use phb_open_ferm.Control.Config.{Config}
use phb_open_ferm.Store.{Db, Assignment, Json}
use phb_open_ferm.Store.Rows.{snapshot}
use phb_open_ferm.Scheduler.{Faults}
use phb_open_ferm.Scheduler.Consistency.{
  IsFitting, IsConsistent, IsConsistent-same, upsert_assignment-IsConsistent,
}
use phb_open_ferm.Api.{App}
use phb_open_ferm.Process.{BootFaults, Environment, start}
use phb_open_ferm.Process.Overlap.{
  Round, PendingWrite, Overlap, Step, Reach, update, idle, continue_round, begins_round, goes_on,
  reads_pause, reads_assign, finishes_write, cancels, creates, others, restarts, here, later,
}
use phb_open_ferm.Process.Overlap.Reads.{
  continue_round-Suits, pausing-IsFitting, assigning-IsFitting, begin_round-OngoingFits,
}
use phb_open_ferm.Process.Overlap.Fitting.{
  OngoingFits, WriteFits, Grows-same, Grows-OngoingFits, Grows-WriteFits, Suits,
  upsert_assignment-Grows, handle_cancel_profile-Suits, handle_create_profile-Suits,
}

module _ {R : Type 0} ⦃f : Float64 R⦄ where
  -- What holds of every state that overlapping rounds and requests reach.
  pub record IsSafe (json : Json R) (w : Overlap R) : Type 0 where
    pub consistent : IsConsistent json w.app.db
    pub ongoing : OngoingFits json w.app.db w.round
    pub pending : (k : ℕ) → WriteFits json w.app.db (w.writes k)

  update-WriteFits :
      (json : Json R) (db : Db R) (q : ℕ → PendingWrite R) (k : ℕ) (v : PendingWrite R) (j : ℕ)
      → WriteFits json db (q j)
      → WriteFits json db v
      → WriteFits json db (update q k v j)
  update-WriteFits json db q k v j old new =
      if-cases (WriteFits json db) (eqb k j) (λ _. new) (λ _. old)

  -- A step that leaves what the others have read.
  suited-IsSafe :
      {json : Json R} {w : Overlap R} (app : App R)
      → IsSafe json w
      → Suits json w.app.db app.db
      → IsSafe json (record w { app = app })
  suited-IsSafe {json} {w} app h s = record {
    consistent = s.0;
    ongoing = Grows-OngoingFits w.round s.1 h.ongoing;
    pending = λ k. Grows-WriteFits (w.writes k) s.1 (h.pending k);
  }

  read-IsSafe :
      {json : Json R} {w : Overlap R} (k : ℕ) (now : Time) (row : Assignment R)
      → IsSafe json w
      → IsFitting json w.app.db row
      → IsSafe json (record w { writes = update w.writes k (some (now, row)) })
  read-IsSafe {json} {w} k now row h fits = record {
    consistent = h.consistent;
    ongoing = h.ongoing;
    pending = λ j. update-WriteFits json w.app.db w.writes k _ j (h.pending j) fits;
  }

  started-IsSafe :
      (json : Json R) (now : Time) (e : BootFaults) (env : Environment) (cfg : Config R) (db : Db R)
      → IsConsistent json db
      → IsSafe json (idle (start now e env cfg db))
  unfolding start snapshot
  started-IsSafe json now e env cfg db h = record {
    consistent = IsConsistent-same json db _ refl refl h;
    ongoing = tt;
    pending = λ k. tt;
  }

  Step-IsSafe : {json : Json R} {w v : Overlap R} → Step json w v → IsSafe json w → IsSafe json v
  Step-IsSafe {json} {w} (begins_round now e i r free begun) h = record {
    consistent = h.consistent;
    ongoing =
        subst (OngoingFits json w.app.db) begun
          (begin_round-OngoingFits json now e i w.app.sys w.app.db h.consistent);
    pending = h.pending;
  }
  Step-IsSafe {json} {w} (goes_on e r out at ran) h =
      let (out', ran', suits, next) =
        continue_round-Suits json e r w.app.sys w.app.db h.consistent
          (subst (OngoingFits json w.app.db) at h.ongoing) in
      let same : out' ≡ out = some-injective _ _ (sym ran' ∙ ran) in
      let suits' =
        subst (λ (o : (SystemState R × Db R) × Option (Round R)). Suits json w.app.db o.0.1) same
          suits in
      record {
        consistent = suits'.0;
        ongoing =
            subst (λ (o : (SystemState R × Db R) × Option (Round R)). OngoingFits json o.0.1 o.1)
              same next;
        pending = λ k. Grows-WriteFits (w.writes k) suits'.1 (h.pending k);
      }
  Step-IsSafe {json} {w} (reads_pause now fails k id q row free made) h =
      read-IsSafe k now row h (pausing-IsFitting json fails id q w.app row h.consistent made)
  Step-IsSafe {json} {w} (reads_assign now fails k id q body row free made) h =
      read-IsSafe k now row h
        (assigning-IsFitting json now fails id q body w.app row h.consistent made)
  Step-IsSafe {json} {w} (finishes_write k now row refused at) h =
      let fits : IsFitting json w.app.db row = subst (WriteFits json w.app.db) at (h.pending k) in
      let grown = upsert_assignment-Grows json now refused row w.app.db in
      record {
        consistent = upsert_assignment-IsConsistent json now refused row w.app.db fits h.consistent;
        ongoing = Grows-OngoingFits w.round grown h.ongoing;
        pending = λ j.
            update-WriteFits json _ w.writes k none j
              (Grows-WriteFits (w.writes j) grown (h.pending j)) tt;
      }
  Step-IsSafe {json} {w} (cancels fails id) h =
      suited-IsSafe _ h (handle_cancel_profile-Suits json fails id w.app h.consistent)
  Step-IsSafe {json} {w} (creates now fails body) h =
      suited-IsSafe _ h (handle_create_profile-Suits json now fails body w.app h.consistent)
  Step-IsSafe {json} {w} (others app same rows) h = suited-IsSafe app h (
    IsConsistent-same json w.app.db app.db same rows h.consistent,
    Grows-same json w.app.db app.db same,
  )
  Step-IsSafe {json} {w} (restarts now e env cfg) h =
      started-IsSafe json now e env cfg w.app.db h.consistent

  Reach-IsSafe : {json : Json R} {w v : Overlap R} → Reach json w v → IsSafe json w → IsSafe json v
  Reach-IsSafe here h = h
  Reach-IsSafe (later r st) h = Step-IsSafe st (Reach-IsSafe r h)

  -- Start the program on a database whose profile tables are consistent. However the statements of
  -- rounds and of requests overlap, and whichever of them fail: the scheduler does not panic, whatever
  -- it has read before and whatever has been written since; and the tables are consistent.
  pub overlap_never_panics :
      {json : Json R} (began : Time) (boot : BootFaults) (env : Environment) (cfg : Config R)
      (db : Db R) {w : Overlap R}
      → IsConsistent json db
      → Reach json (idle (start began boot env cfg db)) w
      → IsConsistent json w.app.db
        × ((e : Faults) (r : Round R)
            → w.round ≡ some r
            → (out : (SystemState R × Db R) × Option (Round R)) × (continue_round json e r
                  (w.app.sys, w.app.db)
                ≡ some out))
  overlap_never_panics {json} began boot env cfg db {w} h path =
      let safe = Reach-IsSafe path (started-IsSafe json began boot env cfg db h) in
      (
        safe.consistent,
        λ e r at.
            let (out, ran, _, _) =
              continue_round-Suits json e r w.app.sys w.app.db safe.consistent
                (subst (OngoingFits json w.app.db) at safe.ongoing) in
            (out, ran),
      )
