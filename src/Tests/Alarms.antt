-- ===== src/Tests/Alarms.antt =====
-- Alarms at concrete states.
use phb_open_ferm.Prelude.{◌≡◌, refl, true, none, some, [], ◌∷◌, inl, inr, ne_of_test}
use phb_open_ferm.Prelude.Int.{ℤ, pos}
use phb_open_ferm.Prelude.Dict.{lookup}
use phb_open_ferm.Time.{since}
use phb_open_ferm.Float64.Scaled.{scaled}
use phb_open_ferm.Control.{SystemState}
use phb_open_ferm.Alarm.{Alarm, Manager, key, high_temp}
use phb_open_ferm.Alarm.Evaluate.{evaluate}
use phb_open_ferm.Alarm.Laws.{above, evaluate_raises}
use phb_open_ferm.Alarm.Keys.{evaluate_clears}
use phb_open_ferm.Tests.{at, warm, second, two}

abbrev quiet : Manager ℤ
quiet = record {
  active = [];
  high_marg = pos 1500;
  low_marg = pos 1500;
  debounce = pos 30_000_000_000;
  has_hook = true;
}

abbrev alarm : Alarm ℤ
alarm = record {
  id = key high_temp "fv1";
  type = high_temp;
  fv_id = "fv1";
  started = at 0;
  last_seen = at 5;
  acknowledged = true;
  message = "hot";
  value = pos 20000;
}

abbrev ringing : Manager ℤ
ringing = record quiet { active = (key high_temp "fv1", alarm) ∷ [] }

abbrev cooled : SystemState ℤ
cooled = record two { fv = record warm { beer_c = pos 18000 } ∷ second ∷ [] }

evaluate_raises_example :
    (a : Alarm ℤ) × (lookup (key high_temp "fv1") (evaluate (at 10) two quiet).0.active ≡ some a)
    × (a.last_seen ≡ at 10)
unfolding scaled
evaluate_raises_example = evaluate_raises above (at 10) two quiet 0 warm refl refl refl

evaluate_clears_example :
    lookup (key high_temp "fv1") (evaluate (at 60) cooled ringing).0.active ≡ none
unfolding lookup key since scaled
evaluate_clears_example =
    evaluate_clears above (at 60) cooled ringing 0 (record warm { beer_c = pos 18000 }) alarm refl
      refl (inr refl, (inl (ne_of_test "fv2" "fv1" refl), tt)) refl refl
