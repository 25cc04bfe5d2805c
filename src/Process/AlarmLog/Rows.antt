-- ===== src/Process/AlarmLog/Rows.antt =====
-- What a round of the scheduler, samples and the alarms' hook do to the table of events.
use phb_open_ferm.Prelude.{
  ◌+◌, String, ◌≡◌, refl, sym, ◌∙◌, false, Bool, none, some, List, [], ◌∷◌, ◌++◌, arith,
  if◌then◌else◌, if-cases, Option-cases, inl, inr, get_elem?, subst, Option,
}
use mathlib.Core.Option.{some-injective}
use phb_open_ferm.Time.{Time, Duration, unix}
use phb_open_ferm.Float64.{Float64}
use phb_open_ferm.Control.{Fermenter, SystemState}
use phb_open_ferm.Control.Setters.{set_target}
use phb_open_ferm.Alarm as Alarms
use phb_open_ferm.Alarm.Accounting.{count_events}
use phb_open_ferm.Store.{Db, EventRow, Json, Assignment, ProfileSpec}
use phb_open_ferm.Store.Events.{add_event}
use phb_open_ferm.Store.Events.Counts.{count_rows, count_rows-append}
use phb_open_ferm.Store.Profiles.{upsert_assignment, delete_assignment}
use phb_open_ferm.Store.Samples.{insert_samples, prune_samples}
use phb_open_ferm.Scheduler.{Faults, retarget, advance, follow}
use phb_open_ferm.Scheduler.Rounds.{IsRound, rests, follows}
use phb_open_ferm.Scheduler.Progress.{plan_of}
use phb_open_ferm.Api.Records.{add_events}
use phb_open_ferm.Api.Logging.{save_targets-events}

module _ {R : Type 0} where
  pub count_rows-add_events :
      (t : String) (now : Time) (refused : Alarms.Event → Bool) (es : List Alarms.Event) (db : Db R)
      → ((e : Alarms.Event) → refused e ≡ false)
      → count_rows t (add_events now refused es db).events
        ≡ count_rows t db.events + count_events t es
  unfolding add_events add_event count_rows count_events
  count_rows-add_events t now refused [] db takes = omega arith
  count_rows-add_events t now refused (e ∷ es) db takes =
      let row : EventRow = record {
        ts = unix now;
        type = e.typ;
        fv_id = e.fv_id;
        data_text = e.data_text;
      } in
      let db' : Db R = record db { events = db.events ++ (row ∷ []) } in
      rw (add_events, add_event, takes e, if◌then◌else◌)
        (omega (
          arith,
          count_rows-add_events t now refused es db' takes,
          count_rows-append t db.events (row ∷ []),
        ))

module _ {R : Type 0} ⦃f : Float64 R⦄ where
  abbrev SameEvents : Db R → SystemState R × Db R → Type 0
  SameEvents db w = w.1.events ≡ db.events

  retarget-events :
      (now : Time) (refused : Bool) (x : Fermenter R) (t : R) (sys : SystemState R) (db : Db R)
      → SameEvents db (retarget now refused x t (sys, db))
  unfolding retarget
  retarget-events now refused x t sys db =
      if-cases (SameEvents db) _ (λ _. save_targets-events now refused (set_target x.id t sys).1 db)
        (λ _. refl)

  advance-events :
      (now : Time) (refused : Bool) (id : String) (a : Assignment R) (spec : ProfileSpec R) (t : R)
      (db : Db R)
      → (advance now refused id a spec t db).events ≡ db.events
  unfolding advance upsert_assignment delete_assignment
  advance-events now refused id a spec t db = ground arith

  follow-events :
      (now : Time) (e : Faults) (x : Fermenter R) (a : Assignment R) (spec : ProfileSpec R)
      (sys : SystemState R) (db : Db R) (out : SystemState R × Db R)
      → follow now e x a spec (sys, db) ≡ some out
      → SameEvents db out
  unfolding follow
  follow-events now e x a spec sys db out done = elim (Option-cases (get_elem? spec a.step_idx)) [
    | inl missing ↦
        (let stuck : follow now e x a spec (sys, db) ≡ none = rw (missing, follow) refl in
          absurd (ground (arith, stuck, done)))
    | inr (step, found) ↦
        (let plan = plan_of now x a step in
          let moved = retarget now e.save_target x plan.0 (sys, db) in
          let next = if plan.1 then advance now e.write x.id a spec plan.0 moved.1 else moved.1 in
          let ran : follow now e x a spec (sys, db) ≡ some (moved.0, next) =
            rw (found, follow) refl in
          let set = retarget-events now e.save_target x plan.0 sys db in
          let kept : next.events ≡ db.events =
            if-cases (λ (d : Db R). d.events ≡ db.events) plan.1
              (λ _. advance-events now e.write x.id a spec plan.0 moved.1 ∙ set) (λ _. set) in
          subst (SameEvents db) (some-injective _ _ (sym ran ∙ done)) kept)
  ]

  pub schedule-events :
      (json : Json R) (now : Time) (e : Faults) (sys : SystemState R) (db : Db R)
      (out : SystemState R × Db R) {o : Option (SystemState R × Db R)}
      → IsRound json now e sys db o
      → o ≡ some out
      → SameEvents db out
  schedule-events json now e sys db out rests ran =
      subst (SameEvents db) (some-injective _ _ ran) refl
  schedule-events json now e sys db out (follows x a spec at on got steps) ran =
      follow-events now e x a spec sys db out ran

  pub insert_samples-events :
      (now : Time) (failed : Bool) (refused : String → Bool) (sys : SystemState R) (db : Db R)
      → (insert_samples now failed refused sys db).0.events ≡ db.events
  unfolding insert_samples
  insert_samples-events now failed refused sys db = ground arith

  pub prune_samples-events :
      (now : Time) (refused : Bool) (age : Duration) (db : Db R)
      → (prune_samples now refused age db).0.events ≡ db.events
  unfolding prune_samples
  prune_samples-events now refused age db = ground arith
