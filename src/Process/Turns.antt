-- ===== src/Process/Turns.antt =====
-- What the turns of the goroutines keep, apart from ticks and requests.
use phb_open_ferm.Prelude.{
  ℕ, String, ◌≡◌, refl, sym, ◌∙◌, Bool, true, false, Option, none, some, List, [], ◌∷◌, arith,
  if◌then◌else◌, if-cases, Option-cases, inl, inr, get_elem?, subst,
}
use mathlib.Core.Option.{some-injective}
use phb_open_ferm.Prelude.Dict.{Dict}
use phb_open_ferm.Time.{Time, Duration}
use phb_open_ferm.Float64.{Float64}
use phb_open_ferm.Control.{Fermenter, SystemState}
use phb_open_ferm.Control.Config.{Config, new_state, new_state-IsSound}
use phb_open_ferm.Control.Invariant.{
  IsSound, set_mode-IsSound, set_target-IsSound, apply_controller_settings-IsSound,
}
use phb_open_ferm.Alarm as Alarms
use phb_open_ferm.Store.{Db, StateRow, ProfileSpec, Assignment, Json}
use phb_open_ferm.Store.Rows.{resume_modes, apply_saved_modes, apply_saved_targets, boot, snapshot}
use phb_open_ferm.Store.Settings.{configured, load_controller_settings, or_else, boot_settings}
use phb_open_ferm.Store.Samples.{insert_samples, prune_samples}
use phb_open_ferm.Scheduler.{Faults, retarget, advance, follow, schedule}
use phb_open_ferm.Scheduler.Rounds.{IsRound, rests, follows, schedule-IsRound}
use phb_open_ferm.Scheduler.Progress.{plan_of}
use phb_open_ferm.Scheduler.Consistency.{IsConsistent, IsConsistent-same}
use phb_open_ferm.Api.Records.{add_events}
use phb_open_ferm.Api.Requests.{add_event-IsConsistent}
use phb_open_ferm.Process.{BootFaults, Environment, start}

module _ {R : Type 0} ⦃f : Float64 R⦄ where
  resume_modes-IsSound :
      (rows : Dict (StateRow R)) (s : SystemState R) → IsSound s → IsSound (resume_modes rows s)
  unfolding resume_modes
  resume_modes-IsSound [] s h = h
  resume_modes-IsSound ((id, r) ∷ rows) s h =
      resume_modes-IsSound rows _ (set_mode-IsSound id r.mode s h)

  boot-IsSound :
      (targets modes : Bool) (db : Db R) (s : SystemState R)
      → IsSound s
      → IsSound (boot targets modes db s)
  unfolding boot apply_saved_targets apply_saved_modes
  boot-IsSound targets modes db s h =
      let first = if-cases IsSound targets (λ _. h) (λ _. h) in
      if-cases IsSound modes (λ _. first) (λ _. resume_modes-IsSound db.states _ first)

  boot_settings-IsSound :
      (refused : String → Bool) (cfg : Config R) (db : Db R) (s : SystemState R)
      → IsSound s
      → IsSound (boot_settings refused cfg db s)
  unfolding boot_settings
  boot_settings-IsSound refused cfg db s h =
      let cs = or_else (load_controller_settings refused db) (configured cfg) in
      apply_controller_settings-IsSound cs.band_c cs.min_change_s cs.max_open s h

  pub start-IsSound :
      (now : Time) (e : BootFaults) (env : Environment) (cfg : Config R) (db : Db R)
      → IsSound (start now e env cfg db).sys
  unfolding start
  start-IsSound now e env cfg db =
      let resumed = boot e.targets e.modes db (new_state now cfg) in
      let hooked : SystemState R = record resumed { on_target_change = true } in
      boot_settings-IsSound e.settings cfg (snapshot now e.snapshots hooked db) hooked
        (boot-IsSound e.targets e.modes db (new_state now cfg) (new_state-IsSound now cfg))

  -- The target that a round sets.
  retarget-IsSound :
      (now : Time) (refused : Bool) (x : Fermenter R) (t : R) (sys : SystemState R) (db : Db R)
      → IsSound sys
      → IsSound (retarget now refused x t (sys, db)).0
  unfolding retarget
  retarget-IsSound now refused x t sys db h =
      if-cases (λ (w : SystemState R × Db R). IsSound w.0) _ (λ _. set_target-IsSound x.id t sys h)
        (λ _. h)

  follow-IsSound :
      (now : Time) (e : Faults) (x : Fermenter R) (a : Assignment R) (spec : ProfileSpec R)
      (sys : SystemState R) (db : Db R) (out : SystemState R × Db R)
      → IsSound sys
      → follow now e x a spec (sys, db) ≡ some out
      → IsSound out.0
  unfolding follow
  follow-IsSound now e x a spec sys db out h done =
      elim (Option-cases (get_elem? spec a.step_idx)) [
        | inl missing ↦
            (let stuck : follow now e x a spec (sys, db) ≡ none = rw (missing, follow) refl in
              absurd (ground (arith, stuck, done)))
        | inr (step, found) ↦
            (let plan = plan_of now x a step in
              let moved = retarget now e.save_target x plan.0 (sys, db) in
              let next =
                if plan.1 then advance now e.write x.id a spec plan.0 moved.1 else moved.1 in
              let ran : follow now e x a spec (sys, db) ≡ some (moved.0, next) =
                rw (found, follow) refl in
              subst (λ (w : SystemState R × Db R). IsSound w.0)
                (some-injective _ _ (sym ran ∙ done))
                (retarget-IsSound now e.save_target x plan.0 sys db h))
      ]

  pub schedule-IsSound :
      (json : Json R) (now : Time) (e : Faults) (i : ℕ) (sys : SystemState R) (db : Db R)
      (out : SystemState R × Db R)
      → IsSound sys
      → schedule json now e i (sys, db) ≡ some out
      → IsSound out.0
  schedule-IsSound json now e i sys db out h done = go (schedule-IsRound json now e i sys db) done
    where
      go :
          {o : Option (SystemState R × Db R)}
          → IsRound json now e sys db o
          → o ≡ some out
          → IsSound out.0
      go rests ran = subst (λ (w : SystemState R × Db R). IsSound w.0) (some-injective _ _ ran) h
      go (follows x a spec at on got steps) ran = follow-IsSound now e x a spec sys db out h ran

  pub add_events-IsConsistent :
      (json : Json R) (now : Time) (refused : Alarms.Event → Bool) (es : List Alarms.Event)
      (db : Db R)
      → IsConsistent json db
      → IsConsistent json (add_events now refused es db)
  unfolding add_events
  add_events-IsConsistent json now refused [] db h = h
  add_events-IsConsistent json now refused (e ∷ es) db h =
      add_events-IsConsistent json now refused es _
        (add_event-IsConsistent json now (refused e) e.typ e.fv_id e.data_text db h)

  pub snapshot-IsConsistent :
      (json : Json R) (now : Time) (refused : String → Bool) (sys : SystemState R) (db : Db R)
      → IsConsistent json db
      → IsConsistent json (snapshot now refused sys db)
  unfolding snapshot
  snapshot-IsConsistent json now refused sys db h = IsConsistent-same json db _ refl refl h

  pub insert_samples-IsConsistent :
      (json : Json R) (now : Time) (failed : Bool) (refused : String → Bool) (sys : SystemState R)
      (db : Db R)
      → IsConsistent json db
      → IsConsistent json (insert_samples now failed refused sys db).0
  unfolding insert_samples
  insert_samples-IsConsistent json now true refused sys db h = h
  insert_samples-IsConsistent json now false refused sys db h =
      IsConsistent-same json db _ refl refl h

  pub prune_samples-IsConsistent :
      (json : Json R) (now : Time) (refused : Bool) (age : Duration) (db : Db R)
      → IsConsistent json db
      → IsConsistent json (prune_samples now refused age db).0
  unfolding prune_samples
  prune_samples-IsConsistent json now true age db h = h
  prune_samples-IsConsistent json now false age db h = IsConsistent-same json db _ refl refl h
