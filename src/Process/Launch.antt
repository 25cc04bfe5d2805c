-- ===== src/Process/Launch.antt =====
-- What runtime-pi/cmd/fermenter/main.go does before its goroutines: the file of the configuration, the
-- database, the start and the driver; the first error ends the program. What sql.Open and the
-- statements of `ensure` return are arguments, and of the port what serial.Open does.
pub mod Ready
use Prim.Native.String.{◌++◌}
use phb_open_ferm.Prelude.{String, Bool, Option, none, some, inl, inr, ◌⊎◌, ◌==◌, if◌then◌else◌}
use phb_open_ferm.Prelude.Int.{ℤ}
use phb_open_ferm.Time.{Time}
use phb_open_ferm.Float64.{Float64}
use phb_open_ferm.Control.Config.{Config, Files, load_config}
use phb_open_ferm.Store.{Db}
use phb_open_ferm.Serial.Device.{Device, choose_driver}
use phb_open_ferm.Process.{BootFaults, Environment, Process, start, started}

-- PHB_CONFIG, or else the flag.
unfoldable pub config_path : String → String → String
config_path env flag = if env == "" then flag else env

-- A database whose tables cannot be made is closed again.
unfoldable pub open_store {ℓ} : {A : Type ℓ} → String ⊎ A → Option String → String ⊎ A
open_store (inl e) ensured = inl e
open_store (inr db) none = inr db
open_store (inr db) (some e) = inl e

-- The texts of log.Fatalf.
abbrev pub config_error : String → String → String
config_error path e = "config (" ++ (path ++ ("): " ++ e))

abbrev pub store_error : String → String
store_error e = "store open (/var/lib/openbrew/phb.db): " ++ e

pub record Launched (R : Type 0) : Type 0 where
  pub config : Config R
  pub process : Process R
  pub driver : Option Device

-- What the program finds when it starts.
pub record Surroundings (Bytes R : Type 0) : Type 0 where
  pub phb_config : String
  pub flag : String
  pub io : Files Bytes R
  pub opened : String ⊎ Db R
  pub ensured : Option String
  pub faults : BootFaults
  pub environment : Environment
  pub serial : String → ℤ → Bool

module _ {Bytes R : Type 0} ⦃f : Float64 R⦄ where
  abbrev pub chosen_config : Surroundings Bytes R → String ⊎ Config R
  chosen_config o = load_config o.io (config_path o.phb_config o.flag)

  unfoldable pub with_store :
      Time → Surroundings Bytes R → Config R → String ⊎ Db R → String ⊎ Launched R
  unfolding start choose_driver
  with_store now o cfg (inl e) = inl (store_error e)
  with_store now o cfg (inr db) = inr (record {
    config = cfg;
    process = started now o.faults o.environment cfg db;
    driver = choose_driver o.serial now cfg.device cfg.baud;
  })

  unfoldable pub with_config : Time → Surroundings Bytes R → String ⊎ Config R → String ⊎ Launched R
  unfolding with_store config_path open_store
  with_config now o (inl e) = inl (config_error (config_path o.phb_config o.flag) e)
  with_config now o (inr cfg) = with_store now o cfg (open_store o.opened o.ensured)

  unfoldable pub launch : Time → Surroundings Bytes R → String ⊎ Launched R
  unfolding with_config load_config
  launch now o = with_config now o (chosen_config o)
