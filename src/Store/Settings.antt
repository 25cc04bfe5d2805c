-- ===== src/Store/Settings.antt =====
-- The table of settings of sqlite.go, and what `main` makes of it when it starts.
pub mod Survival
use phb_open_ferm.Prelude.{
  String, Bool, true, false, not, Option, none, some, ◌==◌, ◌&&◌, if◌then◌else◌,
}
use phb_open_ferm.Prelude.Int.{ℤ, pos, leb_ℤ, eqb_ℤ}
use phb_open_ferm.Prelude.Dict.{lookup, insert}
use phb_open_ferm.Decimal.{parse_int, format_int}
use phb_open_ferm.Float64.{Float64}
use phb_open_ferm.Control.{SystemState}
use phb_open_ferm.Control.Config.{Config}
use phb_open_ferm.Control.Setters.{apply_controller_settings}
use phb_open_ferm.Store.{Db}

pub record ControllerSettings (R : Type 0) : Type 0 where
  pub band_c : R
  pub min_change_s : ℤ
  pub max_open : ℤ

abbrev pub int_setting : String → ℤ
int_setting v = let n = (parse_int v).0 in if not (v == "") && leb_ℤ (pos 0) n then n else pos 0

module _ {R : Type 0} where
  -- The text, which is empty for a missing row and beside an error.
  unfoldable pub get_setting : Bool → String → Db R → String
  get_setting refused key db =
      if refused then "" else elim (lookup key db.settings) [ none ↦ "" | some v ↦ v ]

  -- The second component says whether the call returned nil.
  unfoldable pub set_setting : Bool → String → String → Db R → Db R × Bool
  set_setting refused key val db =
      if refused then (db, false) else (record db { settings = insert key val db.settings }, true)

module _ {R : Type 0} ⦃f : Float64 R⦄ where
  abbrev pub float_setting : String → R
  float_setting v =
      let x = f.parse_float v in
      if not (v == "") && f.lt (f.decimal (pos 0) 0) x then x else f.decimal (pos 0) 0

  -- `refused` says of each key whether its statement fails. The function itself returns no error.
  unfoldable pub load_controller_settings : (String → Bool) → Db R → ControllerSettings R
  unfolding get_setting
  load_controller_settings refused db = record {
    band_c = float_setting (get_setting (refused "band_c") "band_c" db);
    min_change_s = int_setting (get_setting (refused "min_change_s") "min_change_s" db);
    max_open = int_setting (get_setting (refused "max_open") "max_open" db);
  }

  -- The first error ends the sequence.
  unfoldable pub save_controller_settings :
      (String → Bool) → ControllerSettings R → Db R → Db R × Bool
  unfolding set_setting
  save_controller_settings refused cs db =
      let first = set_setting (refused "band_c") "band_c" (f.general cs.band_c) db in
      let second =
        set_setting (refused "min_change_s") "min_change_s" (format_int cs.min_change_s) first.0 in
      let third = set_setting (refused "max_open") "max_open" (format_int cs.max_open) second.0 in
      if first.1 then (if second.1 then third else second) else first

  -- What the database does not hold is taken from elsewhere: `main` takes the configuration, and the
  -- API the live values.
  unfoldable pub or_else : ControllerSettings R → ControllerSettings R → ControllerSettings R
  or_else cs other = record {
    band_c = if f.eq cs.band_c (f.decimal (pos 0) 0) then other.band_c else cs.band_c;
    min_change_s = if eqb_ℤ cs.min_change_s (pos 0) then other.min_change_s else cs.min_change_s;
    max_open = if eqb_ℤ cs.max_open (pos 0) then other.max_open else cs.max_open;
  }

  abbrev pub configured : Config R → ControllerSettings R
  configured cfg = record {
    band_c = cfg.band_c;
    min_change_s = cfg.min_change_s;
    max_open = cfg.max_open_valves;
  }

  -- The settings of the first seconds of `main`.
  unfoldable pub boot_settings : (String → Bool) → Config R → Db R → SystemState R → SystemState R
  unfolding load_controller_settings or_else apply_controller_settings
  boot_settings refused cfg db s =
      let cs = or_else (load_controller_settings refused db) (configured cfg) in
      apply_controller_settings cs.band_c cs.min_change_s cs.max_open s
