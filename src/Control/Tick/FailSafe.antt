-- ===== src/Control/Tick/FailSafe.antt =====
-- The fail-safe of `RunController`: a sensor that has gone silent.
use phb_open_ferm.Prelude.{◌≡◌, ◌≢◌, refl, sym, ap, ◌∙◌, true, false, arith, ◌==◌, eq_iff}
use phb_open_ferm.Time.{Time, is_zero}
use phb_open_ferm.Float64.{Float64}
use phb_open_ferm.Control.{Fermenter, SystemState, valve_open, valve_closed}
use phb_open_ferm.Control.Tick.{
  ValveDriver, is_stale, settle, tick_fermenter, plan_current, commit, expire,
}
use phb_open_ferm.Control.Tick.Frame.{
  is_stale-expire, valve-expire, expire_endless, tick_current, tick_fermenter-current,
}

module _ {R : Type 0} ⦃f : Float64 R⦄ (d : ValveDriver) (now : Time) (s : SystemState R) where
  fail_safe_current :
      (x : Fermenter R)
      → is_stale now x ≡ true
      → x.valve ≢ valve_closed
      → tick_current d now s x ≡ settle now valve_closed x
  unfolding tick_current plan_current commit
  fail_safe_current x stale h = ground (arith, eq_iff x.valve valve_closed)

  -- If the last reading is more than two minutes old and the valve is not closed, the tick closes it,
  -- in every mode, under every override and whatever the driver answers; apart from an override that
  -- has run out, the time of the change and the flag for an immediate change, nothing else moves.
  pub fail_safe_closes :
      (x : Fermenter R)
      → is_stale now x ≡ true
      → x.valve ≢ valve_closed
      → tick_fermenter d now s x ≡ settle now valve_closed (expire now x)
  fail_safe_closes x stale h =
      tick_fermenter-current d now s x
      ∙ fail_safe_current (expire now x) (is_stale-expire now x ∙ stale)
          (λ e. h (sym (valve-expire now x) ∙ e))

  stale_override_current :
      (x : Fermenter R)
      → x.valve ≡ valve_closed
      → x.override.state ≡ valve_open
      → tick_current d now s x ≡ settle now valve_open x
  unfolding tick_current plan_current commit
  stale_override_current x h o =
      let not_open : (x.valve == valve_open) ≡ false = rw h refl in
      let is_closed : (x.valve == valve_closed) ≡ true = rw h refl in
      let wanted : (x.override.state == valve_open) ≡ true = rw o refl in
      let set : (x.override.state == "") ≡ false = rw o refl in
      rw (is_closed, wanted, set, not_open) (ground arith)

  stale_override_opens :
      (x : Fermenter R)
      → x.valve ≡ valve_closed
      → x.override.state ≡ valve_open
      → is_zero x.override.until ≡ true
      → tick_fermenter d now s x ≡ settle now valve_open x
  stale_override_opens x h o z =
      tick_fermenter-current d now s x ∙ rw (expire_endless now x z) (stale_override_current x h o)

module _ {R : Type 0} ⦃f : Float64 R⦄ where
  -- The fail-safe does not hold a valve closed: with a silent sensor and an override "open" that has
  -- no end, a tick opens the closed valve, and the next tick closes it again.
  pub stale_override_flaps :
      (d : ValveDriver) (now later : Time) (s s' : SystemState R) (x : Fermenter R)
      → is_stale now x ≡ true
      → is_stale later x ≡ true
      → x.valve ≡ valve_closed
      → x.override.state ≡ valve_open
      → is_zero x.override.until ≡ true
      → ((tick_fermenter d now s x).valve ≡ valve_open)
        × ((tick_fermenter d later s' (tick_fermenter d now s x)).valve ≡ valve_closed)
  unfolding is_stale
  stale_override_flaps d now later s s' x stale stale' h o z =
      rw (stale_override_opens d now s x h o z) (
        refl,
        ap (λ (y : Fermenter R). y.valve)
            (fail_safe_closes d later s' (settle now valve_open x) stale' (λ e. cc)),
      )
