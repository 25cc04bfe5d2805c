-- ===== src/Control/Operations.antt =====
-- The operations by which the rest of the program changes a `SystemState`: the setters of
-- controller.go, and the watchdog of cmd/fermenter/main.go.
use phb_open_ferm.Prelude.{String, map, arith, All-map}
use phb_open_ferm.Prelude.Int.{ℤ}
use phb_open_ferm.Time.{Time, Duration}
use phb_open_ferm.Float64.{Float64}
use phb_open_ferm.Control.{Fermenter, SystemState, ControlMode, valve_closed}
use phb_open_ferm.Control.Setters.{
  set_mode, force_valve, clear_override, set_valve_override_until, update_beer_temp, set_target,
  apply_controller_settings,
}
use phb_open_ferm.Control.Invariant.{
  IsWellFormed, IsSound, set_mode-IsSound, force_valve-IsSound, clear_override-IsSound,
  set_valve_override_until-IsSound, update_beer_temp-IsSound, set_target-IsSound,
  apply_controller_settings-IsSound,
}

module _ {R : Type 0} where
  abbrev shut : Fermenter R → Fermenter R
  shut x = record x { valve = valve_closed }

  -- The watchdog: a driver call for each fermenter, whose error is dropped, and the valve is closed.
  unfoldable pub close_all : SystemState R → SystemState R
  close_all s = record s { fv = map shut s.fv }

  close_all-IsSound : (s : SystemState R) → IsSound s → IsSound (close_all s)
  unfolding close_all
  close_all-IsSound s h = All-map IsWellFormed IsWellFormed shut s.fv (λ x w. ground arith) h

pub data Operation (R : Type 0) : Type 0 where
  sets_target : String → R → Operation R
  sets_mode : String → ControlMode → Operation R
  forces_valve : Time → String → String → Duration → Operation R
  clears_override : String → Operation R
  overrides_until : String → String → Time → Operation R
  reads_temp : Time → String → R → Operation R
  applies_settings : R → ℤ → ℤ → Operation R
  closes_all : Operation R

module _ {R : Type 0} ⦃f : Float64 R⦄ where
  unfoldable pub perform : Operation R → SystemState R → SystemState R
  perform (sets_target id t) s = (set_target id t s).0
  perform (sets_mode id m) s = (set_mode id m s).0
  perform (forces_valve now id st ttl) s = (force_valve now id st ttl s).0
  perform (clears_override id) s = clear_override id s
  perform (overrides_until id st until) s = (set_valve_override_until id st until s).0
  perform (reads_temp now id c) s = update_beer_temp now id c s
  perform (applies_settings band_c n m) s = apply_controller_settings band_c n m s
  perform closes_all s = close_all s

  pub perform-IsSound : (o : Operation R) (s : SystemState R) → IsSound s → IsSound (perform o s)
  unfolding perform
  perform-IsSound (sets_target id t) s h = set_target-IsSound id t s h
  perform-IsSound (sets_mode id m) s h = set_mode-IsSound id m s h
  perform-IsSound (forces_valve now id st ttl) s h = force_valve-IsSound now id st ttl s h
  perform-IsSound (clears_override id) s h = clear_override-IsSound id s h
  perform-IsSound (overrides_until id st until) s h =
      set_valve_override_until-IsSound id st until s h
  perform-IsSound (reads_temp now id c) s h = update_beer_temp-IsSound now id c s h
  perform-IsSound (applies_settings band_c n m) s h =
      apply_controller_settings-IsSound band_c n m s h
  perform-IsSound closes_all s h = close_all-IsSound s h
