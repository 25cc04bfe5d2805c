-- ===== src/Tests/Limits.antt =====
-- Runs of several controllers at concrete states.
use phb_open_ferm.Prelude.{
  ◌≡◌, ◌≢◌, ◌≤◌, refl, false, some, ne_of_test, List, [], ◌∷◌, get_elem?, arith,
}
use phb_open_ferm.Prelude.Int.{ℤ, pos}
use phb_open_ferm.Time.{since}
use phb_open_ferm.Float64.Scaled.{scaled}
use phb_open_ferm.Control.{Fermenter, SystemState, mode_fixed, mode_valve, valve_closed}
use phb_open_ferm.Control.Fleet.{count_open}
use phb_open_ferm.Control.Tick.{is_stale}
use phb_open_ferm.Control.Config.{Config, new_state}
use phb_open_ferm.Control.Operations.{perform, sets_mode}
use phb_open_ferm.Control.Run.{Turn, run}
use phb_open_ferm.Control.Run.Cycling.{no_short_cycling}
use phb_open_ferm.Control.Run.Capacity.{run_within_limit}
use phb_open_ferm.Control.Threads.{World, Reach, idle}
use phb_open_ferm.Control.Threads.Overshoot.{WantsOpen, limit_overshoot}
use phb_open_ferm.Tests.{at, driver, warm, second, two}

fixed≢valve : mode_fixed ≢ mode_valve
fixed≢valve = ne_of_test mode_fixed mode_valve refl

abbrev just_closed : Fermenter ℤ
just_closed = record warm { last_change = at 0 }

abbrev waiting : SystemState ℤ
waiting = record two { fv = just_closed ∷ second ∷ [] }

abbrev turns : List Turn
turns =
    record { index = 0; now = at 10; driver = driver }
    ∷ record { index = 1; now = at 11; driver = driver }
    ∷ record { index = 0; now = at 20; driver = driver }
    ∷ []

no_short_cycling_example :
    (z : Fermenter ℤ) × (get_elem? (run turns waiting).fv 0 ≡ some z)
    × (z.valve ≡ valve_closed)
    × (z.last_change ≡ at 0)
unfolding is_stale since
no_short_cycling_example = no_short_cycling just_closed fixed≢valve refl refl 0 turns waiting refl (
  (λ _. record { early = refl; fresh = refl }),
  (
    (λ _. record { early = refl; fresh = refl }),
    ((λ _. record { early = refl; fresh = refl }), tt),
  ),
)

run_within_limit_example : count_open (run turns two).fv ≤ 1
unfolding count_open
run_within_limit_example =
    run_within_limit 1 turns two (omega arith) refl
      (
        record { mode_not_valve = fixed≢valve; no_override = refl },
        (record { mode_not_valve = fixed≢valve; no_override = refl }, tt),
      )
      (omega arith)

abbrev pub config : Config ℤ
config = record {
  addr = ":8080";
  device = "/dev/ttyACM0";
  baud = pos 115200;
  fermenters = record { id = "fv1"; name = "First"; target_c = pos 18000 } ∷ [];
  band_c = pos 300;
  min_change_s = pos 300;
  max_open_valves = pos 1;
  high_margin_c = pos 1500;
  low_margin_c = pos 1500;
  debounce_s = pos 30;
}

abbrev start : World ℤ
start = record { sys = new_state (at 0) config; pending = idle }

abbrev set_to_valve : World ℤ
set_to_valve = record start { sys = perform (sets_mode "fv1" mode_valve) start.sys }

abbrev both : World ℤ
both = record { sys = two; pending = idle }

warm_wants : WantsOpen (at 10) warm
unfolding is_stale since scaled
warm_wants = record {
  automatic = record { fresh = refl; mode_not_valve = fixed≢valve; free = refl };
  ready = refl;
  hot = refl;
  shut = refl;
}

second_wants : WantsOpen (at 11) second
unfolding is_stale since scaled
second_wants = record {
  automatic = record { fresh = refl; mode_not_valve = fixed≢valve; free = refl };
  ready = refl;
  hot = refl;
  shut = refl;
}

limit_overshoot_example : (v : World ℤ) × Reach false both v × (count_open v.sys.fv ≡ 2)
unfolding count_open
limit_overshoot_example =
    limit_overshoot false both 0 1 1 (at 10) (at 11) warm second (λ e. ground arith) refl refl refl
      refl warm_wants second_wants refl refl
