-- ===== src/Tests/Launches.antt =====
-- Starts of the program: with the second place of the configuration, over a device.
use phb_open_ferm.Prelude.{
  String, ◌≡◌, refl, true, false, ◌⊎◌, inl, inr, none, some, List, [], ◌∷◌, ◌==◌, if◌then◌else◌,
}
use phb_open_ferm.Prelude.Int.{ℤ}
use phb_open_ferm.Float64.Scaled.{scaled}
use phb_open_ferm.Control.Config.{Config, Files, load_config, with_defaults}
use phb_open_ferm.Control.Operations.{closes_all}
use phb_open_ferm.Serial.Plant.{Happening, ticks, pings, performs, run}
use phb_open_ferm.Serial.Device.{Device, choose_driver, open_device}
use phb_open_ferm.Serial.Plant.Mirror.{IsMirrored}
use phb_open_ferm.Process.Launch.{
  Surroundings, Launched, launch, chosen_config, config_path, open_store, config_error, store_error,
}
use phb_open_ferm.Process.Launch.Ready.{DoesNotOpen, IsReady, launch_exact, launch_mirrors}
use phb_open_ferm.Tests.{at}
use phb_open_ferm.Tests.Limits.{config}
use phb_open_ferm.Tests.Process.{no_boot_faults, no_pin}
use phb_open_ferm.Tests.Profiles.{empty}

-- The file that the flag names is not there.
abbrev files : Files String ℤ
files = record {
  read_file = λ path. if path == "config.phb.yaml" then inr "text" else inl "no such file";
  unmarshal = λ _. inr config;
}

abbrev outside : Surroundings String ℤ
outside = record {
  phb_config = "";
  flag = "config.yaml";
  io = files;
  opened = inr empty;
  ensured = none;
  faults = no_boot_faults;
  environment = no_pin;
  serial = λ _ _. true;
}

abbrev device : Device
device = record { last_seen = at 0; is_closed = false; wire = [] }

abbrev day : List (Happening ℤ)
day = ticks true (at 10) 0 ∷ pings (at 11) ∷ performs closes_all ∷ []

outside_loads : chosen_config outside ≡ inr (with_defaults config)
unfolding load_config config_path
outside_loads = refl

launch_exact_example :
    ((e : String) × (chosen_config outside ≡ inl e)
      × (launch (at 0) outside ≡ inl (config_error (config_path "" "config.yaml") e)))
    ⊎ ((cfg : Config ℤ) × (e : String) × (chosen_config outside ≡ inr cfg)
        × DoesNotOpen outside e
        × (launch (at 0) outside ≡ inl (store_error e)))
    ⊎ ((q : Launched ℤ) × (launch (at 0) outside ≡ inr q) × IsReady outside q)
launch_exact_example = launch_exact (at 0) outside

launch_mirrors_example :
    (q : Launched ℤ) × (launch (at 0) outside ≡ inr q)
    × (q.driver ≡ some device)
    × IsMirrored (run day (record { sys = q.process.app.sys; device = device }))
unfolding open_store choose_driver open_device with_defaults scaled
launch_mirrors_example =
    launch_mirrors (at 0) outside (with_defaults config) empty device day outside_loads refl refl
      (tt, tt) (refl, (tt, (tt, tt)))
