-- ===== src/Tests/Controllers.antt =====
-- Ticks of one controller at concrete states.
use phb_open_ferm.Prelude.{◌≡◌, ◌≢◌, refl, sym, ◌∙◌, inl, inr, ne_of_test}
use phb_open_ferm.Prelude.Int.{ℤ, pos}
use phb_open_ferm.Time.{zero_time, since}
use phb_open_ferm.Float64.Scaled.{scaled}
use phb_open_ferm.Control.{Fermenter, mode_fixed, mode_valve, valve_open, valve_closed}
use phb_open_ferm.Control.Fleet.{count_open, open≢closed}
use phb_open_ferm.Control.Tick.{
  is_stale, expire, settle, tick_fermenter, plan_tick, plan_current, plan_auto, change_to, commit,
}
use phb_open_ferm.Control.Tick.FailSafe.{fail_safe_closes, stale_override_flaps}
use phb_open_ferm.Control.Tick.Overrides.{override_obeyed}
use phb_open_ferm.Control.Tick.Hysteresis.{IsAutomatic, IsJustified, auto_change-IsJustified}
use phb_open_ferm.Tests.{at, driver, failing_driver, warm, two}

fixed≢valve : mode_fixed ≢ mode_valve
fixed≢valve = ne_of_test mode_fixed mode_valve refl

abbrev open_fv : Fermenter ℤ
open_fv = record warm { valve = valve_open }

abbrev cold_open : Fermenter ℤ
cold_open = record open_fv { beer_c = pos 17000 }

abbrev held_open : Fermenter ℤ
held_open = record warm { override = record { state = valve_open; until = zero_time } }

fail_safe_closes_example :
    tick_fermenter failing_driver (at 200) two open_fv
    ≡ settle (at 200) valve_closed (expire (at 200) open_fv)
unfolding is_stale since
fail_safe_closes_example =
    fail_safe_closes failing_driver (at 200) two open_fv refl (λ e. open≢closed e)

stale_override_flaps_example :
    ((tick_fermenter driver (at 200) two held_open).valve ≡ valve_open)
    × ((tick_fermenter driver (at 202) two (tick_fermenter driver (at 200) two held_open)).valve
        ≡ valve_closed)
unfolding is_stale since
stale_override_flaps_example =
    stale_override_flaps driver (at 200) (at 202) two two held_open refl refl refl refl refl

override_obeyed_example :
    ((tick_fermenter failing_driver (at 10) two held_open).valve ≡ valve_open)
    × ((tick_fermenter failing_driver (at 10) two held_open).beer_c ≡ pos 20000)
unfolding is_stale since expire
override_obeyed_example =
    override_obeyed failing_driver (at 10) two held_open
      (record { valve_known = inr refl; override_known = inr (inl refl) }) refl
      (ne_of_test valve_open "" refl)

warm-IsAutomatic : IsAutomatic (at 10) warm
unfolding is_stale since
warm-IsAutomatic = record { fresh = refl; mode_not_valve = fixed≢valve; free = refl }

cold-IsAutomatic : IsAutomatic (at 10) cold_open
unfolding is_stale since
cold-IsAutomatic = record { fresh = refl; mode_not_valve = fixed≢valve; free = refl }

opened : (tick_fermenter driver (at 10) two warm).valve ≡ valve_open
unfolding tick_fermenter plan_tick plan_current plan_auto change_to commit expire is_stale since
    scaled count_open
opened = refl

auto_change-IsJustified_example :
    IsJustified driver (at 10) two warm (tick_fermenter driver (at 10) two warm)
auto_change-IsJustified_example =
    auto_change-IsJustified driver (at 10) two warm warm-IsAutomatic
      (λ e. open≢closed (sym opened ∙ e))
