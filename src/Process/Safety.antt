-- ===== src/Process/Safety.antt =====
-- What holds of every state that the running program reaches, over restarts.
use phb_open_ferm.Prelude.{ℕ, ◌≡◌, sym, ◌∙◌, Bool, true, some, [], arith, subst}
use mathlib.Core.Option.{some-injective}
use phb_open_ferm.Prelude.Dict.{lookup}
use phb_open_ferm.Time.{Time}
use phb_open_ferm.Float64.{Float64}
use phb_open_ferm.Control.{SystemState}
use phb_open_ferm.Control.Config.{Config, new_state}
use phb_open_ferm.Control.Invariant.{IsSound}
use phb_open_ferm.Control.Threads.Safety as Controllers
use phb_open_ferm.Alarm.Evaluate.{evaluate}
use phb_open_ferm.Store.{Db, Json}
use phb_open_ferm.Store.Rows.{boot}
use phb_open_ferm.Scheduler.{Faults, schedule}
use phb_open_ferm.Scheduler.Rounds.{current}
use phb_open_ferm.Scheduler.Consistency.{IsConsistent, schedule-IsConsistent}
use phb_open_ferm.Api.Requests.{add_event-IsConsistent}
use phb_open_ferm.Api.Routes.{serve}
use phb_open_ferm.Api.Serving.{serve-IsKept}
use phb_open_ferm.Process.Turns.{
  start-IsSound, schedule-IsSound, add_events-IsConsistent, snapshot-IsConsistent,
  insert_samples-IsConsistent, prune_samples-IsConsistent,
}
use phb_open_ferm.Process.{
  BootFaults, Environment, Process, Step, Reach, start, started, controllers, controls, serves,
  schedules, evaluates, samples, prunes, snapshots, logs, restarts, here, later,
}

module _ {R : Type 0} ⦃f : Float64 R⦄ where
  pub record IsSafe (json : Json R) (p : Process R) : Type 0 where
    pub working : Controllers.IsSafe (controllers p)
    pub consistent : IsConsistent json p.app.db

  -- A step that leaves the controllers' state.
  with_tables :
      {json : Json R} {p : Process R} (db : Db R)
      → IsSafe json p
      → IsConsistent json db
      → IsSafe json (record p { app = record p.app { db = db } })
  with_tables db h tables = record {
    working = record { sound = h.working.sound; plans = h.working.plans };
    consistent = tables;
  }

  started-IsSafe :
      (json : Json R) (now : Time) (e : BootFaults) (env : Environment) (cfg : Config R) (db : Db R)
      → IsConsistent json db
      → IsSafe json (started now e env cfg db)
  unfolding start
  started-IsSafe json now e env cfg db h =
      let resumed = boot e.targets e.modes db (new_state now cfg) in
      let hooked : SystemState R = record resumed { on_target_change = true } in
      record {
        working = record { sound = start-IsSound now e env cfg db; plans = λ i. tt };
        consistent = snapshot-IsConsistent json now e.snapshots hooked db h;
      }

  Step-IsSafe :
      {json : Json R} {noop : Bool} {p q : Process R}
      → Step json noop p q
      → IsSafe json p
      → IsSafe json q
  Step-IsSafe {json} {noop} {p} (controls st) h =
      let kept = Controllers.Step-IsSafe st h.working in
      record {
        working = record { sound = kept.sound; plans = kept.plans };
        consistent = h.consistent;
      }
  Step-IsSafe {json} {noop} {p} (serves c r same) h =
      let kept = serve-IsKept c r p.app (
        h.working.sound,
        subst (λ (j : Json R). IsConsistent j p.app.db) (sym same) h.consistent,
      ) in
      record {
        working = record { sound = kept.0; plans = h.working.plans };
        consistent = subst (λ (j : Json R). IsConsistent j (serve c r p.app).0.db) same kept.1;
      }
  Step-IsSafe {json} {noop} {p} (schedules now e i out ran) h =
      let (out', ran', kept) = schedule-IsConsistent json now e i p.app.sys p.app.db h.consistent in
      record {
        working = record {
          sound = schedule-IsSound json now e i p.app.sys p.app.db out h.working.sound ran;
          plans = h.working.plans;
        };
        consistent =
            subst (λ (w : SystemState R × Db R). IsConsistent json w.1)
              (some-injective _ _ (sym ran' ∙ ran)) kept;
      }
  Step-IsSafe {json} {noop} {p} (evaluates now refused) h = record {
    working = record { sound = h.working.sound; plans = h.working.plans };
    consistent =
        add_events-IsConsistent json now refused (evaluate now p.app.sys p.app.alarms).1 p.app.db
          h.consistent;
  }
  Step-IsSafe {json} {noop} {p} (samples now failed refused) h =
      with_tables _ h
        (insert_samples-IsConsistent json now failed refused p.app.sys p.app.db h.consistent)
  Step-IsSafe {json} {noop} {p} (prunes now refused age) h =
      with_tables _ h (prune_samples-IsConsistent json now refused age p.app.db h.consistent)
  Step-IsSafe {json} {noop} {p} (snapshots now refused) h =
      with_tables _ h (snapshot-IsConsistent json now refused p.app.sys p.app.db h.consistent)
  Step-IsSafe {json} {noop} {p} (logs now refused typ id text) h =
      with_tables _ h (add_event-IsConsistent json now refused typ id text p.app.db h.consistent)
  Step-IsSafe {json} {noop} {p} (restarts now e env cfg) h =
      started-IsSafe json now e env cfg p.app.db h.consistent

  Reach-IsSafe :
      {json : Json R} {noop : Bool} {p q : Process R}
      → Reach json noop p q
      → IsSafe json p
      → IsSafe json q
  Reach-IsSafe here h = h
  Reach-IsSafe (later r st) h = Step-IsSafe st (Reach-IsSafe r h)

  -- Start the program on a database whose profile tables are consistent, as empty ones are. Then,
  -- whatever requests come, whichever statements of the store fail, and however ticks, rounds,
  -- requests, samples, snapshots and restarts follow each other, no round of the scheduler panics.
  pub scheduler_never_panics :
      {json : Json R} {noop : Bool} (began : Time) (e : BootFaults) (env : Environment)
      (cfg : Config R) (db : Db R) {p : Process R}
      → IsConsistent json db
      → Reach json noop (started began e env cfg db) p
      → (now : Time) (faults : Faults) (i : ℕ)
      → (out : SystemState R × Db R) × (schedule json now faults i (p.app.sys, p.app.db) ≡ some out)
  scheduler_never_panics {json} began e env cfg db {p} h path now faults i =
      let safe = Reach-IsSafe path (started-IsSafe json began e env cfg db h) in
      let (out, ran, _) =
        schedule-IsConsistent json now faults i p.app.sys p.app.db safe.consistent in
      (out, ran)

  -- And in every state of such a run, valves and overrides are told by the texts that the code writes.
  pub process-IsSound :
      {json : Json R} {noop : Bool} (began : Time) (e : BootFaults) (env : Environment)
      (cfg : Config R) (db : Db R) {p : Process R}
      → IsConsistent json db
      → Reach json noop (started began e env cfg db) p
      → IsSound p.app.sys
  process-IsSound {json} began e env cfg db h path =
      (Reach-IsSafe path (started-IsSafe json began e env cfg db h)).working.sound

  -- An empty database is consistent.
  pub empty-IsConsistent :
      (json : Json R) (db : Db R) → db.profiles ≡ [] → db.assignments ≡ [] → IsConsistent json db
  unfolding lookup
  empty-IsConsistent json db ps rows = record {
    rows_below = rw ps tt;
    fitting = λ id a at.
        (let gone : current id [] ≡ some a = subst (λ r. current id r ≡ some a) rows at in
          absurd (ground (arith, gone)));
  }
