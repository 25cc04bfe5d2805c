-- ===== src/Tests/Plants.antt =====
-- A plant: two controllers over a device.
use phb_open_ferm.Prelude.{◌≡◌, refl, true, false, some, List, [], ◌∷◌, get_elem?, ne_of_test}
use phb_open_ferm.Prelude.Int.{ℤ, pos}
use phb_open_ferm.Time.{since}
use phb_open_ferm.Float64.Scaled.{scaled}
use phb_open_ferm.Control.{Fermenter, mode_valve, mode_fixed, valve_open, valve_closed}
use phb_open_ferm.Control.Tick.{
  is_stale, finish_tick, plan_tick, plan_current, plan_auto, expire, change_to,
}
use phb_open_ferm.Control.Fleet.{count_open, find, update_first}
use phb_open_ferm.Control.Operations.{sets_mode, closes_all, perform}
use phb_open_ferm.Control.Setters.{set_mode}
use phb_open_ferm.Serial.{set_valve}
use phb_open_ferm.Serial.Device.{Device}
use phb_open_ferm.Serial.Plant.{Plant, Happening, ticks, pings, performs, run, tick_on, told}
use phb_open_ferm.Serial.Plant.Mirror.{IsMirrored}
use phb_open_ferm.Serial.Plant.Refused.{refused_close_forgotten}
use phb_open_ferm.Serial.Plant.Between.{interrupted, interrupted_tick_parts}
use phb_open_ferm.Process.Ending.{Exit, signalled, finish, finish_leaves_open}
use phb_open_ferm.Tests.{at, warm, second, two}

abbrev device : Device
device = record { last_seen = at 0; is_closed = false; wire = [] }

abbrev plant : Plant ℤ
plant = record { sys = two; device = device }

plant-IsMirrored : IsMirrored plant
unfolding told
plant-IsMirrored = record {
  distinct = ((ne_of_test "fv1" "fv2" refl, tt), (tt, tt));
  shown = (refl, (refl, tt));
}

abbrev day : List (Happening ℤ)
day = ticks true (at 10) 0 ∷ pings (at 11) ∷ performs closes_all ∷ ticks true (at 12) 1 ∷ []

-- At the target, open, and silent for ten minutes.
abbrev silent : Fermenter ℤ
silent = record warm { beer_c = pos 18000; valve = valve_open }

abbrev opened : Plant ℤ
opened = record {
  sys = record two { fv = silent ∷ second ∷ [] };
  device = record device { wire = set_valve "fv1" "open" ∷ [] };
}

opened-IsMirrored : IsMirrored opened
unfolding told
opened-IsMirrored = record {
  distinct = ((ne_of_test "fv1" "fv2" refl, tt), (tt, tt));
  shown = (refl, (refl, tt));
}

abbrev pinged : List (Happening ℤ)
pinged = pings (at 11) ∷ performs (sets_mode "fv2" mode_valve) ∷ []

finish_leaves_open_example :
    (out : Exit) × (d : Device) × (finish
        (signalled true)
        (record { driver = some (run pinged opened).device; store_open = true })
      ≡ some out)
    × (out.held.driver ≡ some d)
    × (told "fv1" d.wire ≡ valve_open)
unfolding run perform set_mode find update_first
finish_leaves_open_example =
    finish_leaves_open pinged opened 0 silent (signalled true) (tt, (tt, tt)) opened-IsMirrored refl
      refl

abbrev routine : List (Happening ℤ)
routine = ticks true (at 601) 0 ∷ ticks false (at 602) 1 ∷ pings (at 603) ∷ []

refused_close_forgotten_example :
    let q = run routine (tick_on false (at 600) 0 opened) in
    ((y : Fermenter ℤ) × (get_elem? q.sys.fv 0 ≡ some y) × (y.valve ≡ valve_closed))
    × (told "fv1" q.device.wire ≡ valve_open)
unfolding told is_stale since scaled
refused_close_forgotten_example =
    refused_close_forgotten opened 0 silent (at 600) routine refl
      ((ne_of_test "fv1" "fv2" refl, tt), (tt, tt)) refl refl refl refl
      (ne_of_test mode_fixed mode_valve refl) refl (tt, (tt, (tt, tt)))

interrupted_tick_parts_example :
    let (q, plan) = interrupted (at 10) 0 warm plant in
    ((y : Fermenter ℤ) × (get_elem? (finish_tick (at 10) false plan true 0 q.sys).fv 0 ≡ some y)
      × (y.valve ≡ valve_open))
    × (told "fv1" q.device.wire ≡ valve_closed)
unfolding plan_tick plan_current plan_auto expire change_to is_stale since scaled count_open
interrupted_tick_parts_example = interrupted_tick_parts (at 10) 0 warm plant refl refl
