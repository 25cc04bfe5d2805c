-- ===== src/Process/Launch/Ready.antt =====
-- What a start leaves: each outcome of a launch, and a launch over a serial device.
use phb_open_ferm.Prelude.{
  String, ◌≡◌, refl, sym, ap, ◌∙◌, Bool, true, none, some, inl, inr, ◌⊎◌, List, [], ◌∷◌, map, arith,
  Sum-cases, Option-cases, if-cases, All, subst,
}
use phb_open_ferm.Prelude.Dict.{Dict}
use phb_open_ferm.Prelude.Int.{ℤ}
use phb_open_ferm.Time.{Time}
use phb_open_ferm.Float64.{Float64}
use phb_open_ferm.Control.{SystemState, valve_closed}
use phb_open_ferm.Control.Config.{Config, FermenterConfig, new_state, new_fermenter}
use phb_open_ferm.Control.Operations.{perform, sets_mode, applies_settings}
use phb_open_ferm.Alarm.{new_manager}
use phb_open_ferm.Session.{new_server}
use phb_open_ferm.Store.{Db, StateRow}
use phb_open_ferm.Store.Rows.{boot, resume_modes, apply_saved_modes, apply_saved_targets, snapshot}
use phb_open_ferm.Store.Settings.{boot_settings, load_controller_settings, or_else, configured}
use phb_open_ferm.Control.Threads as Threads
use phb_open_ferm.Serial.{Command}
use phb_open_ferm.Serial.Device.{Device, open_device, choose_driver}
use phb_open_ferm.Serial.Plant.{Happening, run, told}
use phb_open_ferm.Serial.Plant.Labels.{Label, IsDistinct, labels, labels-perform}
use phb_open_ferm.Serial.Plant.Mirror.{IsMirrored, IsTaken, Shows, run-IsMirrored}
use phb_open_ferm.Process.{BootFaults, Environment, start, started}
use phb_open_ferm.Process.Launch.{
  config_path, open_store, config_error, store_error, Launched, Surroundings, chosen_config, launch,
  with_config, with_store,
}

fresh_wire :
    (opened : String → ℤ → Bool) (now : Time) (dev : String) (baud : ℤ) (d : Device)
    → choose_driver opened now dev baud ≡ some d
    → d.wire ≡ []
unfolding choose_driver open_device
fresh_wire opened now dev baud d e = ground arith

module _ {R : Type 0} where
  -- What a configuration says of a fermenter's id, with the valve that it starts with.
  abbrev pub config_label : FermenterConfig R → Label
  config_label c = (c.id, valve_closed)

module _ {R : Type 0} ⦃f : Float64 R⦄ where
  labels-resume_modes :
      (rows : Dict (StateRow R)) (s : SystemState R) → labels (resume_modes rows s).fv ≡ labels s.fv
  unfolding resume_modes perform
  labels-resume_modes [] s = refl
  labels-resume_modes ((id, r) ∷ rows) s =
      labels-resume_modes rows _ ∙ labels-perform (sets_mode id r.mode) s (λ e. cc)

  labels-boot :
      (targets modes : Bool) (db : Db R) (s : SystemState R)
      → labels (boot targets modes db s).fv ≡ labels s.fv
  unfolding boot apply_saved_targets apply_saved_modes
  labels-boot targets modes db s =
      let Same = λ (x : SystemState R). labels x.fv ≡ labels s.fv in
      let first = if-cases Same targets (λ _. refl) (λ _. refl) in
      if-cases Same modes (λ _. first) (λ _. labels-resume_modes db.states _ ∙ first)

  labels-boot_settings :
      (refused : String → Bool) (cfg : Config R) (db : Db R) (s : SystemState R)
      → labels (boot_settings refused cfg db s).fv ≡ labels s.fv
  unfolding boot_settings perform
  labels-boot_settings refused cfg db s =
      let cs = or_else (load_controller_settings refused db) (configured cfg) in
      labels-perform (applies_settings cs.band_c cs.min_change_s cs.max_open) s (λ e. cc)

  labels-new_state :
      (now : Time) (cfg : Config R) (cs : List (FermenterConfig R))
      → labels (map (new_fermenter now cfg) cs) ≡ map config_label cs
  labels-new_state now cfg [] = refl
  labels-new_state now cfg (c ∷ cs) = ap (◌∷◌ (config_label c)) (labels-new_state now cfg cs)

  labels-start :
      (now : Time) (e : BootFaults) (env : Environment) (cfg : Config R) (db : Db R)
      → labels (start now e env cfg db).sys.fv ≡ map config_label cfg.fermenters
  unfolding start new_state
  labels-start now e env cfg db =
      let resumed = boot e.targets e.modes db (new_state now cfg) in
      let hooked : SystemState R = record resumed { on_target_change = true } in
      labels-boot_settings e.settings cfg (snapshot now e.snapshots hooked db) hooked
      ∙ labels-boot e.targets e.modes db (new_state now cfg)
      ∙ labels-new_state now cfg cfg.fermenters

  -- A wire on which nothing was sent shows closed valves.
  silent_shows : (cs : List (FermenterConfig R)) → All (Shows []) (map config_label cs)
  unfolding told
  silent_shows [] = tt
  silent_shows (c ∷ cs) = (refl, silent_shows cs)

module _ {Bytes R : Type 0} ⦃f : Float64 R⦄ where
  abbrev launched : Time → Surroundings Bytes R → Config R → Db R → Launched R
  launched now o cfg db = record {
    config = cfg;
    process = started now o.faults o.environment cfg db;
    driver = choose_driver o.serial now cfg.device cfg.baud;
  }

  launch_at :
      (now : Time) (o : Surroundings Bytes R) (cfg : Config R) (db : Db R)
      → chosen_config o ≡ inr cfg
      → open_store o.opened o.ensured ≡ inr db
      → launch now o ≡ inr (launched now o cfg db)
  unfolding launch with_config with_store
  launch_at now o cfg db loads opens =
      ap (with_config now o) loads ∙ ap (with_store now o cfg) opens

  -- The database does not open with an error: it is sql.Open's, or that of the statements that make the
  -- tables.
  abbrev pub DoesNotOpen : Surroundings Bytes R → String → Type 0
  DoesNotOpen o e = (o.opened ≡ inl e) ⊎ ((db : Db R) × (o.opened ≡ inr db) × (o.ensured ≡ some e))

  open_store_cases :
      (o : Surroundings Bytes R)
      → ((e : String) × DoesNotOpen o e × (open_store o.opened o.ensured ≡ inl e))
        ⊎ ((db : Db R) × (o.opened ≡ inr db)
            × (o.ensured ≡ none)
            × (open_store o.opened o.ensured ≡ inr db))
  unfolding open_store
  open_store_cases o = elim (Sum-cases o.opened) [
    | inl (e, fails) ↦ inl (e, inl fails, rw (fails) refl)
    | inr (db, opens) ↦ elim (Option-cases o.ensured) [
      | inl ensures ↦ inr (db, opens, ensures, rw (opens, ensures) refl)
      | inr (e, fails) ↦ inl (e, inr (db, opens, fails), rw (opens, fails) refl)
    ]
  ]

  -- A program that is ready: the configuration was read and the database opened, and its tables of
  -- profiles, assignments and events are used; the fermenters of the configuration with closed valves,
  -- nobody logged in, no alarm, and no controller inside a call.
  pub record IsReady (o : Surroundings Bytes R) (q : Launched R) : Type 0 where
    pub loads : chosen_config o ≡ inr q.config
    pub base : Db R
    pub opens : o.opened ≡ inr base
    pub ensures : o.ensured ≡ none
    pub tables :
        (q.process.app.db.profiles ≡ base.profiles)
        × (q.process.app.db.assignments ≡ base.assignments)
        × (q.process.app.db.events ≡ base.events)
    pub fermenters : labels q.process.app.sys.fv ≡ map config_label q.config.fermenters
    pub logged_out : q.process.app.server.sessions ≡ []
    pub calm : q.process.app.alarms.active ≡ []
    pub resting : q.process.pending ≡ Threads.idle

  -- If the configuration cannot be read, the program stops with its path and that error; if it can but
  -- the database cannot be opened or its tables cannot be made, with that error; and if both are
  -- there, it is ready: it has the
  -- database's profiles, assignments and events, its fermenters are those of the configuration in their
  -- order, with closed valves, nobody is logged in, there is no alarm, and no controller is inside a
  -- call.
  pub launch_exact :
      (now : Time) (o : Surroundings Bytes R)
      → ((e : String) × (chosen_config o ≡ inl e)
          × (launch now o ≡ inl (config_error (config_path o.phb_config o.flag) e)))
        ⊎ ((cfg : Config R) × (e : String) × (chosen_config o ≡ inr cfg)
            × DoesNotOpen o e
            × (launch now o ≡ inl (store_error e)))
        ⊎ ((q : Launched R) × (launch now o ≡ inr q) × IsReady o q)
  unfolding launch with_config with_store start snapshot new_manager new_server
  launch_exact now o = elim (Sum-cases (chosen_config o)) [
    | inl (e, fails) ↦ inl (e, fails, ap (with_config now o) fails)
    | inr (cfg, loads) ↦ elim (open_store_cases o) [
      | inl (e, because, fails) ↦ inr (
          inl (
            cfg,
            e,
            loads,
            because,
            ap (with_config now o) loads ∙ ap (with_store now o cfg) fails,
          ))
      | inr (db, opens, ensures, stored) ↦ inr (
          inr (
            launched now o cfg db,
            launch_at now o cfg db loads stored,
            record {
              loads = loads;
              base = db;
              opens = opens;
              ensures = ensures;
              tables = (refl, refl, refl);
              fermenters = labels-start now o.faults o.environment cfg db;
              logged_out = refl;
              calm = refl;
              resting = refl;
            },
          ))
    ]
  ]

  -- If the configuration and the database are found, no id stands twice in the configuration and the
  -- serial port opens, the program starts over that device, and whatever ticks, pings, requests,
  -- readings and interventions of the watchdog follow each other, each valve of the state is as the
  -- device was last told as long as the port takes every line.
  pub launch_mirrors :
      (now : Time) (o : Surroundings Bytes R) (cfg : Config R) (db : Db R) (d : Device)
      (es : List (Happening R))
      → chosen_config o ≡ inr cfg
      → open_store o.opened o.ensured ≡ inr db
      → choose_driver o.serial now cfg.device cfg.baud ≡ some d
      → IsDistinct (map config_label cfg.fermenters)
      → All IsTaken es
      → (q : Launched R) × (launch now o ≡ inr q)
        × (q.driver ≡ some d)
        × IsMirrored (run es (record { sys = q.process.app.sys; device = d }))
  launch_mirrors now o cfg db d es loads opens chosen distinct taken =
      let q = launched now o cfg db in
      let begun = labels-start now o.faults o.environment cfg db in
      let quiet = fresh_wire o.serial now cfg.device cfg.baud d chosen in
      let shown =
        subst (λ (w : List Command). All (Shows w) (map config_label cfg.fermenters)) (sym quiet)
          (silent_shows cfg.fermenters) in
      (
        q,
        launch_at now o cfg db loads opens,
        chosen,
        run-IsMirrored es (record { sys = q.process.app.sys; device = d }) taken
            (record {
              distinct = subst IsDistinct (sym begun) distinct;
              shown = subst (All (Shows d.wire)) (sym begun) shown;
            }),
      )
