-- ===== src/Tests.antt =====
-- Concrete fermenters, systems and tables on which the definitions run, in thousandths of a degree.
pub mod Controllers
pub mod Limits
pub mod Alarms
pub mod Access
pub mod Profiles
pub mod Requests
pub mod Process
pub mod Overlaps
pub mod Plants
pub mod Launches
use phb_open_ferm.Prelude.{ℕ, ◌*◌, ◌+◌, String, true, false, List, [], ◌∷◌}
use phb_open_ferm.Prelude.Int.{ℤ, pos}
use phb_open_ferm.Time.{Time, nanos, minutes, zero_time}
use phb_open_ferm.Control.{Fermenter, SystemState, mode_fixed, no_override, valve_closed}
use phb_open_ferm.Control.Tick.{ValveDriver}

-- A moment: seconds since year 1.
abbrev pub at : ℕ → Time
at s = (63_900_000_000 + s) * nanos

abbrev pub driver : ValveDriver
driver = record { is_noop = false; set_valve = λ _ _. true }

abbrev pub failing_driver : ValveDriver
failing_driver = record { is_noop = false; set_valve = λ _ _. false }

-- 20 degrees with a target of 18, read at the start.
abbrev pub warm : Fermenter ℤ
warm = record {
  id = "fv1";
  name = "First";
  target_c = pos 18000;
  beer_c = pos 20000;
  valve = valve_closed;
  band_c = pos 300;
  min_change = minutes 5;
  last_change = zero_time;
  last_update = at 0;
  allow_immediate = false;
  mode = mode_fixed;
  override_until = zero_time;
  override = no_override;
}

abbrev pub second : Fermenter ℤ
second = record warm { id = "fv2"; name = "Second" }

abbrev pub two : SystemState ℤ
two = record { fv = warm ∷ second ∷ []; max_open = pos 1; on_target_change = true }
