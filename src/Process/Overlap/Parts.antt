-- ===== src/Process/Overlap/Parts.antt =====
-- The parts, one after the other with nothing in between, make up the round and the requests.
use phb_open_ferm.Prelude.{
  ℕ, zero, suc, String, ◌≡◌, refl, sym, ap, ◌∙◌, Bool, true, false, not, Option, none, some, [],
  ◌∷◌, ◌==◌, if◌then◌else◌, if_true, if_false, Bool-cases, Option-cases, inl, inr, get_elem?,
}
use phb_open_ferm.Prelude.Int.{ℤ, pos, negsuc}
use phb_open_ferm.Time.{Time}
use phb_open_ferm.Float64.{Float64}
use phb_open_ferm.Control.{Fermenter, SystemState, mode_profile}
use phb_open_ferm.Store.{Db, ProfileSpec, ProfileStep, Assignment, Json}
use phb_open_ferm.Store.Profiles.{get_profile, upsert_assignment}
use phb_open_ferm.Scheduler.{
  Faults, schedule, with_fermenter, with_assignment, with_profile, follow, retarget, advance,
}
use phb_open_ferm.Scheduler.Progress.{plan_of}
use phb_open_ferm.Api.{App, Failures, writes_assignment, Answer, reads_profile}
use phb_open_ferm.Api.Profiles.{
  AssignBody, paused_of, assigned_row, handle_pause_profile, handle_assign_profile, pause_found,
  assign_profile, write_assignment, wanted_profile,
}
use phb_open_ferm.Process.Overlap.{
  Round, has_row, has_profile, begin_round, continue_round, row_found, fermenter_found,
  profile_found, live, leaves, paused_row, pausing, assigning, assigning_with, written,
}

module _ {R : Type 0} ⦃f : Float64 R⦄ where
  -- A round from where it stands to its end; the number bounds its parts.
  unfoldable pub complete :
      ℕ → Json R → Faults → Option (Round R) → SystemState R × Db R → Option (SystemState R × Db R)
  complete n json e none w = some w
  complete zero json e (some r) w = none
  complete (suc n) json e (some r) w = elim (continue_round json e r w) [
    | none ↦ none
    | some out ↦ complete n json e out.1 out.0
  ]

  complete_done :
      (n : ℕ) (json : Json R) (e : Faults) (w : SystemState R × Db R)
      → complete n json e none w ≡ some w
  unfolding complete
  complete_done zero json e w = refl
  complete_done (suc n) json e w = refl

  complete_panic :
      (n : ℕ) (json : Json R) (e : Faults) (r : Round R) (w : SystemState R × Db R)
      → continue_round json e r w ≡ none
      → complete (suc n) json e (some r) w ≡ none
  unfolding complete
  complete_panic n json e r w stuck = rw (stuck, complete)

  complete_step :
      (n : ℕ) (json : Json R) (e : Faults) (r : Round R) (w : SystemState R × Db R)
      (out : (SystemState R × Db R) × Option (Round R))
      → continue_round json e r w ≡ some out
      → complete (suc n) json e (some r) w ≡ complete n json e out.1 out.0
  unfolding complete
  complete_step n json e r w out ran = rw (ran, complete)

  -- The part from the profile on, at a step of it.
  pub continue_at :
      (json : Json R) (now : Time) (e : Faults) (i : ℕ) (x : Fermenter R) (a : Assignment R)
      (spec : ProfileSpec R) (step : ProfileStep R) (sys : SystemState R) (db : Db R)
      → get_elem? spec a.step_idx ≡ some step
      → continue_round json e (has_profile now i x a spec) (sys, db) ≡ (
          let y = live i x sys in
          let plan = plan_of now y a step in
          some (retarget now e.save_target y plan.0 (sys, db), leaves now y a spec plan))
  unfolding continue_round
  continue_at json now e i x a spec step sys db found = rw (found, continue_round)

  -- The write at the end, if there is one.
  left_alone :
      (json : Json R) (now : Time) (e : Faults) (x : Fermenter R) (a : Assignment R)
      (spec : ProfileSpec R) (plan : R × Bool) (w : SystemState R × Db R)
      → complete 1 json e (leaves now x a spec plan) w
        ≡ some (w.0, if plan.1 then advance now e.write x.id a spec plan.0 w.1 else w.1)
  unfolding continue_round
  left_alone json now e x a spec (t, true) w =
      complete_step 0 json e _ w _ refl ∙ complete_done 0 json e _
  left_alone json now e x a spec (t, false) w = complete_done 1 json e w

  -- The last two parts.
  followed_alone :
      (json : Json R) (now : Time) (e : Faults) (i : ℕ) (sys : SystemState R) (db : Db R)
      (x : Fermenter R) (a : Assignment R) (spec : ProfileSpec R)
      → get_elem? sys.fv i ≡ some x
      → complete 2 json e (some (has_profile now i x a spec)) (sys, db)
        ≡ follow now e x a spec (sys, db)
  unfolding continue_round follow
  followed_alone json now e i sys db x a spec at = elim (Option-cases (get_elem? spec a.step_idx)) [
    | inl missing ↦
        complete_panic 1 json e _ (sys, db) (rw (missing, continue_round) refl)
        ∙ rw (missing, follow) refl
    | inr (step, found) ↦
        (let here : live i x sys ≡ x = rw (at, live) refl in
          complete_step 1 json e _ (sys, db) _ (continue_at json now e i x a spec step sys db found)
          ∙ rw here
              (left_alone json now e x a spec (plan_of now x a step) _ ∙ rw (found, follow) refl))
  ]

  known_alone :
      (json : Json R) (now : Time) (e : Faults) (i : ℕ) (sys : SystemState R) (db : Db R)
      (x : Fermenter R) (a : Assignment R) (o : Option (ProfileSpec R))
      → get_elem? sys.fv i ≡ some x
      → complete 2 json e (profile_found now i x a o) (sys, db) ≡ with_profile now e x a (sys, db) o
  unfolding with_profile
  known_alone json now e i sys db x a none at = complete_done 2 json e (sys, db)
  known_alone json now e i sys db x a (some []) at = complete_done 2 json e (sys, db)
  known_alone json now e i sys db x a (some (step ∷ steps)) at =
      followed_alone json now e i sys db x a (step ∷ steps) at

  row_alone :
      (json : Json R) (now : Time) (e : Faults) (i : ℕ) (sys : SystemState R) (db : Db R)
      (x : Fermenter R) (o : Option (Option (Assignment R)))
      → get_elem? sys.fv i ≡ some x
      → complete 3 json e (row_found now i x o) (sys, db) ≡ with_assignment json now e x (sys, db) o
  unfolding with_assignment continue_round
  row_alone json now e i sys db x none at = complete_done 3 json e (sys, db)
  row_alone json now e i sys db x (some none) at = complete_done 3 json e (sys, db)
  row_alone json now e i sys db x (some (some a)) at = elim (Bool-cases a.paused) [
    | inl paused ↦
        ap (λ o. complete 3 json e o (sys, db)) (if_true a.paused _ paused)
        ∙ complete_done 3 json e (sys, db)
        ∙ sym (if_true a.paused _ paused)
    | inr on ↦
        ap (λ o. complete 3 json e o (sys, db)) (if_false a.paused none on)
        ∙ complete_step 2 json e (has_row now i x a) (sys, db) _ refl
        ∙ known_alone json now e i sys db x a _ at
        ∙ sym (if_false a.paused (some (sys, db)) on)
  ]

  fermenter_alone :
      (json : Json R) (now : Time) (e : Faults) (i : ℕ) (sys : SystemState R) (db : Db R)
      (o : Option (Fermenter R))
      → get_elem? sys.fv i ≡ o
      → complete 3 json e (fermenter_found now e i db o) (sys, db)
        ≡ with_fermenter json now e (sys, db) o
  unfolding with_fermenter
  fermenter_alone json now e i sys db none at = complete_done 3 json e (sys, db)
  fermenter_alone json now e i sys db (some x) at =
      elim (Bool-cases (not (x.mode == mode_profile))) [
        | inl other ↦ rw (other, with_fermenter, if◌then◌else◌) (complete_done 3 json e (sys, db))
        | inr own ↦ rw (own, with_fermenter, if◌then◌else◌) (row_alone json now e i sys db x _ at)
      ]

  -- A round whose parts follow each other with nothing in between does what the loop's body does, on
  -- every branch and whichever statements fail, the panic included; three parts after the first read
  -- are enough.
  pub round_alone :
      (json : Json R) (now : Time) (e : Faults) (i : ℕ) (w : SystemState R × Db R)
      → complete 3 json e (begin_round now e i w) w ≡ schedule json now e i w
  unfolding begin_round schedule
  round_alone json now e i (sys, db) = fermenter_alone json now e i sys db _ refl

  -- The end of a request that has read.
  abbrev pub finish_request : Time → Failures → Option (Assignment R) → App R → App R
  finish_request now fails none app = app
  finish_request now fails (some row) app = written now (fails writes_assignment) row app

  -- A refused write leaves the database, so the state is the same whatever is answered.
  write_alone :
      (now : Time) (refused : Bool) (row : Assignment R) (app : App R) (good bad : Answer R)
      → let r : App R × Answer R =
          if (upsert_assignment now refused row app.db).1
          then (written now refused row app, good)
          else (app, bad) in
        r.0 ≡ written now refused row app
  unfolding upsert_assignment
  write_alone now true row app good bad = refl
  write_alone now false row app good bad = refl

  pause_found_alone :
      (now : Time) (fails : Failures) (q : String) (o : Option (Option (Assignment R)))
      (app : App R)
      → (pause_found now fails q o app).0 ≡ finish_request now fails (paused_row q o) app
  unfolding pause_found
  pause_found_alone now fails q none app = refl
  pause_found_alone now fails q (some none) app = refl
  pause_found_alone now fails q (some (some a)) app =
      write_alone now (fails writes_assignment) (record a { paused = paused_of q a.paused }) app _ _

  -- A request that pauses leaves the state that its write makes of the row from its read.
  pub pause_alone :
      (now : Time) (fails : Failures) (fv_id q : String) (app : App R)
      → (handle_pause_profile now fails fv_id q app).0
        ≡ finish_request now fails (pausing fails fv_id q app) app
  unfolding handle_pause_profile pausing
  pause_alone now fails fv_id q app = elim (Bool-cases (fv_id == "")) [
    | inl e ↦
        ap (λ (r : App R × Answer R). r.0) (if_true (fv_id == "") _ e)
        ∙ ap (λ o. finish_request now fails o app) (sym (if_true (fv_id == "") _ e))
    | inr e ↦
        ap (λ (r : App R × Answer R). r.0) (if_false (fv_id == "") _ e)
        ∙ pause_found_alone now fails q _ app
        ∙ ap (λ o. finish_request now fails o app) (sym (if_false (fv_id == "") none e))
  ]

  assign_cases :
      (now : Time) (fails : Failures) (fv_id : String) (n : ℕ) (app : App R) (bad worse : Answer R)
      (o : Option (ProfileSpec R)) (base : Option R)
      → let r : App R × Answer R = elim o [
        | none ↦ (app, bad)
        | some spec ↦ elim base [
          | none ↦ (app, worse)
          | some t ↦ write_assignment now fails fv_id n t app
        ]
      ] in
        let row : Option (Assignment R) = elim o [
          | none ↦ none
          | some spec ↦ elim base [ none ↦ none | some t ↦ some (assigned_row now fv_id n t) ]
        ] in
        r.0 ≡ finish_request now fails row app
  unfolding write_assignment
  assign_cases now fails fv_id n app bad worse none base = refl
  assign_cases now fails fv_id n app bad worse (some spec) none = refl
  assign_cases now fails fv_id n app bad worse (some spec) (some t) =
      write_alone now (fails writes_assignment) (assigned_row now fv_id n t) app _ _

  assign_profile_alone :
      (json : Json R) (now : Time) (fails : Failures) (fv_id : String) (n : ℤ) (from_c : Option R)
      (app : App R)
      → (assign_profile json now fails fv_id n from_c app).0
        ≡ finish_request now fails (assigning_with json now fails fv_id n from_c app) app
  unfolding assign_profile assigning_with
  assign_profile_alone json now fails fv_id (negsuc n) from_c app = refl
  assign_profile_alone json now fails fv_id (pos zero) from_c app = refl
  assign_profile_alone json now fails fv_id (pos (suc n)) from_c app =
      assign_cases now fails fv_id (suc n) app _ _
        (get_profile json (fails reads_profile) (suc n) app.db) _

  -- And a request that assigns.
  pub assign_alone :
      (json : Json R) (now : Time) (fails : Failures) (fv_id q : String) (body : AssignBody R)
      (app : App R)
      → (handle_assign_profile json now fails fv_id body q app).0
        ≡ finish_request now fails (assigning json now fails fv_id body q app) app
  unfolding handle_assign_profile assigning
  assign_alone json now fails fv_id q body app = elim (Bool-cases (fv_id == "")) [
    | inl e ↦
        ap (λ (r : App R × Answer R). r.0) (if_true (fv_id == "") _ e)
        ∙ ap (λ o. finish_request now fails o app) (sym (if_true (fv_id == "") _ e))
    | inr e ↦
        ap (λ (r : App R × Answer R). r.0) (if_false (fv_id == "") _ e)
        ∙ assign_profile_alone json now fails fv_id (wanted_profile body.profile_id q) body.from_c
            app
        ∙ ap (λ o. finish_request now fails o app) (sym (if_false (fv_id == "") none e))
  ]
