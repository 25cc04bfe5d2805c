-- ===== src/Control/Invariant.antt =====
-- What every operation of `SystemState` and every tick keeps: the texts by which valves and overrides
-- are told stay among those that the code writes, and the fleet keeps its fermenters.
use phb_open_ferm.Prelude.{
  ℕ, String, ◌≡◌, refl, ◌⊎◌, inl, inr, Bool, true, false, not, ◌&&◌, arith, ◌==◌, if◌then◌else◌,
  eq_iff, All, All-get_elem?, All-set, All-map, get_elem?, Option-cases, Bool-cases,
}
use phb_open_ferm.Prelude.Int.{ℤ}
use phb_open_ferm.Time.{Time, Duration}
use phb_open_ferm.Float64.{Float64}
use phb_open_ferm.Control.{Fermenter, SystemState, ControlMode, valve_open, valve_closed}
use phb_open_ferm.Control.Fleet.{find, update_first, All-update_first}
use phb_open_ferm.Control.Setters.{
  set_first, with_mode, with_override, set_mode, force_valve, clear_override,
  set_valve_override_until, update_beer_temp, set_target, with_target, apply_controller_settings,
  with_band, with_min_change,
}
use phb_open_ferm.Control.Tick.{
  Plan, done, fail_safe, force, change, plan_tick, plan_current, commit, begin_tick, finish_tick,
  expire, drift, plan_auto, change_to,
}
use phb_open_ferm.Control.Tick.Frame.{plan_tick_cases, drift-valve, drift-override}

abbrev pub IsValve : String → Type 0
IsValve v = (v ≡ valve_open) ⊎ (v ≡ valve_closed)

-- The plans that a tick makes.
abbrev pub IsPlan : Plan → Type 0
IsPlan (change v) = IsValve v
IsPlan _ = Unit {0}

IsPlan-of_change : (p : Plan) → ((v : String) → p ≡ change v → IsValve v) → IsPlan p
IsPlan-of_change done h = tt
IsPlan-of_change fail_safe h = tt
IsPlan-of_change (force want) h = tt
IsPlan-of_change (change v) h = h v refl

IsValve-state_cases :
    (st : String) → (not (st == valve_open) && not (st == valve_closed)) ≡ false → IsValve st
IsValve-state_cases st h = ground (arith, eq_iff st valve_open, eq_iff st valve_closed)

module _ {R : Type 0} where
  pub record IsWellFormed (x : Fermenter R) : Type 0 where
    pub valve_known : IsValve x.valve
    pub override_known : (x.override.state ≡ "") ⊎ IsValve x.override.state

  abbrev pub IsSound : SystemState R → Type 0
  IsSound s = All IsWellFormed s.fv

  expire-IsWellFormed :
      (now : Time) (x : Fermenter R) → IsWellFormed x → IsWellFormed (expire now x)
  unfolding expire
  expire-IsWellFormed now x w = ground arith

  update_first-IsSound :
      (id : String) (g : Fermenter R → Fermenter R) (s : SystemState R)
      → ((x : Fermenter R) → IsWellFormed x → IsWellFormed (g x))
      → IsSound s
      → IsSound (record s { fv = update_first id g s.fv })
  update_first-IsSound id g s keep h = All-update_first IsWellFormed id g s.fv keep h

  pub set_first-IsSound :
      (id : String) (g : Fermenter R → Fermenter R) (s : SystemState R)
      → ((x : Fermenter R) → IsWellFormed x → IsWellFormed (g x))
      → IsSound s
      → IsSound (set_first id g s).0
  unfolding set_first
  set_first-IsSound id g s keep h = elim (Option-cases (find id s.fv)) [
    | inl e ↦ rw (e, set_first) h
    | inr (x, e) ↦ rw (e, set_first) (update_first-IsSound id g s keep h)
  ]

  pub set_mode-IsSound :
      (id : String) (m : ControlMode) (s : SystemState R) → IsSound s → IsSound (set_mode id m s).0
  unfolding set_mode
  set_mode-IsSound id m s h = set_first-IsSound id (with_mode m) s (λ x w. ground arith) h

  with_override-IsWellFormed :
      (st : String) (until : Time) (x : Fermenter R)
      → IsValve st
      → IsWellFormed x
      → IsWellFormed (with_override st until x)
  with_override-IsWellFormed st until x v w = ground arith

  pub set_valve_override_until-IsSound :
      (id st : String) (until : Time) (s : SystemState R)
      → IsSound s
      → IsSound (set_valve_override_until id st until s).0
  unfolding set_valve_override_until
  set_valve_override_until-IsSound id st until s h =
      elim (Bool-cases (not (st == valve_open) && not (st == valve_closed))) [
        | inl e ↦ rw (e, if◌then◌else◌) h
        | inr e ↦
            rw (e, if◌then◌else◌)
              (set_first-IsSound id (with_override st until) s
                (λ x. with_override-IsWellFormed st until x (IsValve-state_cases st e)) h)
      ]

  pub force_valve-IsSound :
      (now : Time) (id st : String) (ttl : Duration) (s : SystemState R)
      → IsSound s
      → IsSound (force_valve now id st ttl s).0
  unfolding force_valve
  force_valve-IsSound now id st ttl s h =
      elim (Bool-cases (not (st == valve_open) && not (st == valve_closed))) [
        | inl e ↦ rw (e, if◌then◌else◌) h
        | inr e ↦
            rw (e, if◌then◌else◌)
              (set_first-IsSound id _ s
                (λ x. with_override-IsWellFormed st _ x (IsValve-state_cases st e)) h)
      ]

  pub clear_override-IsSound :
      (id : String) (s : SystemState R) → IsSound s → IsSound (clear_override id s)
  unfolding clear_override
  clear_override-IsSound id s h = update_first-IsSound id _ s (λ x w. ground arith) h

  pub update_beer_temp-IsSound :
      (now : Time) (id : String) (c : R) (s : SystemState R)
      → IsSound s
      → IsSound (update_beer_temp now id c s)
  unfolding update_beer_temp
  update_beer_temp-IsSound now id c s h = update_first-IsSound id _ s (λ x w. ground arith) h

module _ {R : Type 0} ⦃f : Float64 R⦄ where
  pub set_target-IsSound :
      (id : String) (t : R) (s : SystemState R) → IsSound s → IsSound (set_target id t s).0
  unfolding set_target
  set_target-IsSound id t s h = elim (Option-cases (find id s.fv)) [
    | inl e ↦ rw (e, set_target) h
    | inr (x, e) ↦
        rw (e, set_target) (update_first-IsSound id (with_target t) s (λ y w. ground arith) h)
  ]

  settings-IsWellFormed :
      (band_c : R) (n : ℤ) (x : Fermenter R)
      → IsWellFormed x
      → IsWellFormed (with_min_change n (with_band band_c x))
  settings-IsWellFormed band_c n x w = ground arith

  pub apply_controller_settings-IsSound :
      (band_c : R) (n m : ℤ) (s : SystemState R)
      → IsSound s
      → IsSound (apply_controller_settings band_c n m s)
  unfolding apply_controller_settings
  apply_controller_settings-IsSound band_c n m s h =
      All-map IsWellFormed IsWellFormed _ s.fv (settings-IsWellFormed band_c n) h

  drift-IsWellFormed :
      (noop : Bool) (x : Fermenter R) → IsWellFormed x → IsWellFormed (drift noop x)
  drift-IsWellFormed noop x w = ground (arith, drift-valve noop x, drift-override noop x)

  change_to_cases :
      (now : Time) (s : SystemState R) (x : Fermenter R)
      → (change_to now s x ≡ "") ⊎ IsValve (change_to now s x)
  unfolding change_to
  change_to_cases now s x = ground arith

  plan_current_change :
      (now : Time) (noop : Bool) (s : SystemState R) (x : Fermenter R) (v : String)
      → (plan_current now noop s x).1 ≡ change v
      → IsValve v
  unfolding plan_current plan_auto
  plan_current_change now noop s x v e =
      ground (arith, change_to_cases now s x, eq_iff (change_to now s x) "")

  pub plan_tick-IsPlan :
      (now : Time) (noop : Bool) (s : SystemState R) (x : Fermenter R)
      → IsPlan (plan_tick now noop s x).1
  unfolding plan_tick
  plan_tick-IsPlan now noop s x =
      IsPlan-of_change (plan_tick now noop s x).1 (plan_current_change now noop s (expire now x))

  plan_tick-IsWellFormed :
      (now : Time) (noop : Bool) (s : SystemState R) (x : Fermenter R)
      → IsWellFormed x
      → IsWellFormed (plan_tick now noop s x).0
  plan_tick-IsWellFormed now noop s x w = elim (plan_tick_cases now noop s x) [
    | inl e ↦ rw e (expire-IsWellFormed now x w)
    | inr e ↦ rw e (drift-IsWellFormed noop (expire now x) (expire-IsWellFormed now x w))
  ]

  commit-IsWellFormed :
      (now : Time) (noop : Bool) (p : Plan) (sent : Bool) (x : Fermenter R)
      → IsPlan p
      → IsWellFormed x
      → IsWellFormed (commit now noop p sent x)
  unfolding commit
  commit-IsWellFormed now noop done sent x h w = w
  commit-IsWellFormed now noop fail_safe sent x h w = ground arith
  commit-IsWellFormed now noop (force want) sent x h w = ground arith
  commit-IsWellFormed now noop (change v) true x h w = ground arith
  commit-IsWellFormed now noop (change v) false x h w = drift-IsWellFormed noop x w

  -- The first locked part of a tick keeps the system sound, and plans what `finish_tick` may do.
  pub begin_tick-IsSound :
      (now : Time) (noop : Bool) (i : ℕ) (s : SystemState R)
      → IsSound s
      → IsSound (begin_tick now noop i s).0 × IsPlan (begin_tick now noop i s).1
  unfolding begin_tick
  begin_tick-IsSound now noop i s h = elim (Option-cases (get_elem? s.fv i)) [
    | inl e ↦ rw (e, begin_tick) (h, tt)
    | inr (x, e) ↦
        rw (e, begin_tick)
          (
            All-set IsWellFormed s.fv i _ h
                (plan_tick-IsWellFormed now noop s x (All-get_elem? IsWellFormed s.fv i h e)),
            plan_tick-IsPlan now noop s x,
          )
  ]

  pub finish_tick-IsSound :
      (now : Time) (noop : Bool) (p : Plan) (sent : Bool) (i : ℕ) (s : SystemState R)
      → IsPlan p
      → IsSound s
      → IsSound (finish_tick now noop p sent i s)
  unfolding finish_tick
  finish_tick-IsSound now noop p sent i s q h = elim (Option-cases (get_elem? s.fv i)) [
    | inl e ↦ rw (e, finish_tick) h
    | inr (x, e) ↦
        rw (e, finish_tick)
          (All-set IsWellFormed s.fv i _ h
            (commit-IsWellFormed now noop p sent x q (All-get_elem? IsWellFormed s.fv i h e)))
  ]
