-- ===== src/Control/Export.antt =====
-- What controller.go shows of the state: `Export`, for the page, and `SnapshotControllerSettings`.
use phb_open_ferm.Prelude.{
  ◌/◌, String, not, ◌&&◌, ◌||◌, Option, none, some, List, [], ◌∷◌, map, ◌==◌, if◌then◌else◌,
}
use phb_open_ferm.Prelude.Int.{ℤ, pos, ltb_ℤ, pos_part, neg_part, sub_ℕ}
use phb_open_ferm.Time.{Time, Duration, is_zero, before, since, unix, nanos}
use phb_open_ferm.Float64.{Float64}
use phb_open_ferm.Control.{Fermenter, SystemState, ControlMode, ValveOverride}

pub record FermenterView (R : Type 0) : Type 0 where
  pub id : String
  pub name : String
  pub beer_c : R
  pub target_c : R
  pub valve : String
  pub age_s : ℤ
  pub mode : ControlMode
  pub override : Option (String × ℤ)
  pub override_until_s : ℤ

-- 0 for the zero time.
abbrev pub unix_or_zero : Time → ℤ
unix_or_zero t = if is_zero t then pos 0 else unix t

-- The state and the end of an override that is in force.
unfoldable pub live_override : Time → ValveOverride → Option (String × ℤ)
live_override now ov =
    if not (ov.state == "") && (is_zero ov.until || before now ov.until)
    then some (ov.state, unix_or_zero ov.until)
    else none

module _ {R : Type 0} ⦃f : Float64 R⦄ where
  abbrev pub view_of : Time → Fermenter R → FermenterView R
  view_of now x =
      let age = f.to_int (f.seconds (since now x.last_update)) in
      record {
        id = x.id;
        name = x.name;
        beer_c = x.beer_c;
        target_c = x.target_c;
        valve = x.valve;
        age_s = if ltb_ℤ age (pos 0) then pos 0 else age;
        mode = if x.mode == "" then "auto" else x.mode;
        override = live_override now x.override;
        override_until_s = unix_or_zero x.override_until;
      }

  unfoldable pub export : Time → SystemState R → List (FermenterView R)
  export now s = map (view_of now) s.fv

pub record ControllerSnapshot (R : Type 0) : Type 0 where
  pub band_c : R
  pub min_change_s : ℤ
  pub max_open : ℤ

-- d / time.Second, towards zero.
abbrev whole_seconds : Duration → ℤ
whole_seconds d = sub_ℕ (pos_part d / nanos) (neg_part d / nanos)

module _ {R : Type 0} ⦃f : Float64 R⦄ where
  abbrev snapshot_of : ℤ → List (Fermenter R) → ControllerSnapshot R
  snapshot_of max_open [] = record {
    band_c = f.decimal (pos 0) 0;
    min_change_s = pos 0;
    max_open = max_open;
  }
  snapshot_of max_open (x ∷ xs) = record {
    band_c = x.band_c;
    min_change_s = whole_seconds x.min_change;
    max_open = max_open;
  }

  -- The settings of the first fermenter.
  unfoldable pub snapshot_controller_settings : SystemState R → ControllerSnapshot R
  snapshot_controller_settings s = snapshot_of s.max_open s.fv
