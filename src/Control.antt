-- ===== src/Control.antt =====
-- runtime-pi/internal/control/controller.go: fermenters, the system's state and its construction.
pub mod Fleet
pub mod Setters
pub mod Tick
pub mod Invariant
pub mod Run
pub mod Operations
pub mod Config
pub mod Threads
pub mod Export
use phb_open_ferm.Prelude.{ℕ, String, Bool, true, false, List, [], ◌∷◌, ◌==◌}
use phb_open_ferm.Prelude.Int.{ℤ}
use phb_open_ferm.Time.{Time, Duration, zero_time}

-- type ControlMode string
abbrev pub ControlMode : Type 0
ControlMode = String

abbrev pub mode_fixed : ControlMode
mode_fixed = "fixed"

abbrev pub mode_profile : ControlMode
mode_profile = "profile"

abbrev pub mode_valve : ControlMode
mode_valve = "valve"

abbrev pub valve_open : String
valve_open = "open"

abbrev pub valve_closed : String
valve_closed = "closed"

-- `state` is "open", "closed" or empty; the zero `until` means no end.
pub record ValveOverride : Type 0 where
  pub state : String
  pub until : Time

abbrev pub no_override : ValveOverride
no_override = record { state = ""; until = zero_time }

pub record Fermenter (R : Type 0) : Type 0 where
  pub id : String
  pub name : String
  pub target_c : R
  pub beer_c : R
  pub valve : String
  pub band_c : R
  pub min_change : Duration
  pub last_change : Time
  pub last_update : Time
  pub allow_immediate : Bool
  pub mode : ControlMode
  pub override_until : Time
  pub override : ValveOverride

-- The mutex is the granularity of the operations. `on_target_change` says whether the callback is
-- set; the calls that it gets are results of the operations.
pub record SystemState (R : Type 0) : Type 0 where
  pub fv : List (Fermenter R)
  pub max_open : ℤ
  pub on_target_change : Bool
