-- ===== src/Control/Tick/Overrides.antt =====
-- Valve overrides under `RunController`.
use phb_open_ferm.Prelude.{◌≡◌, ◌≢◌, refl, ◌∙◌, true, false, arith, ◌==◌, eq_iff}
use phb_open_ferm.Time.{Time}
use phb_open_ferm.Float64.{Float64}
use phb_open_ferm.Control.{Fermenter, SystemState, mode_valve, valve_open, valve_closed}
use phb_open_ferm.Control.Invariant.{IsWellFormed}
use phb_open_ferm.Control.Tick.{ValveDriver, is_stale, tick_fermenter, plan_current, commit, expire}
use phb_open_ferm.Control.Tick.Frame.{
  is_stale-expire, mode-expire, expire_in_force, tick_current, tick_fermenter-current,
}

module _ {R : Type 0} ⦃f : Float64 R⦄ (d : ValveDriver) (now : Time) (s : SystemState R)
    (x : Fermenter R) where
  override_current :
      IsWellFormed x
      → is_stale now x ≡ false
      → x.override.state ≢ ""
      → ((tick_current d now s x).valve ≡ x.override.state)
        × ((tick_current d now s x).beer_c ≡ x.beer_c)
  unfolding tick_current plan_current commit
  override_current well fresh h = ground (
    arith,
    eq_iff x.valve valve_closed,
    eq_iff x.valve valve_open,
    eq_iff x.override.state valve_open,
    eq_iff x.override.state valve_closed,
    eq_iff x.override.state "",
  )

  valve_mode_current :
      is_stale now x ≡ false
      → x.mode ≡ mode_valve
      → x.override.state ≡ ""
      → tick_current d now s x ≡ x
  unfolding tick_current plan_current commit
  valve_mode_current fresh m h =
      let manual : (x.mode == mode_valve) ≡ true = rw m refl in
      let not_open : (x.override.state == valve_open) ≡ false = rw h refl in
      let not_closed : (x.override.state == valve_closed) ≡ false = rw h refl in ground arith

module _ {R : Type 0} ⦃f : Float64 R⦄ (d : ValveDriver) (now : Time) (s : SystemState R)
    (x : Fermenter R) where
  -- While the sensor is fresh, a tick brings the valve of a well-formed fermenter to the state of
  -- an override that has not run out, in every mode and whatever the driver answers, and leaves the
  -- beer temperature alone.
  pub override_obeyed :
      IsWellFormed x
      → is_stale now x ≡ false
      → (expire now x).override.state ≢ ""
      → ((tick_fermenter d now s x).valve ≡ x.override.state)
        × ((tick_fermenter d now s x).beer_c ≡ x.beer_c)
  override_obeyed well fresh h =
      let same = expire_in_force now x h in
      rw (tick_fermenter-current d now s x, same)
        (override_current d now s x well fresh (rw same at h))

  -- In valve mode with a fresh sensor and no override in force, a tick changes nothing but that an
  -- override which has run out is dropped: neither the valve, nor the time of its last change, nor a
  -- temperature.
  pub valve_mode_keeps :
      is_stale now x ≡ false
      → x.mode ≡ mode_valve
      → (expire now x).override.state ≡ ""
      → tick_fermenter d now s x ≡ expire now x
  valve_mode_keeps fresh m h =
      tick_fermenter-current d now s x
      ∙ valve_mode_current d now s (expire now x) (is_stale-expire now x ∙ fresh)
          (mode-expire now x ∙ m) h
