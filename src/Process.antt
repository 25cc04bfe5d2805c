-- ===== src/Process.antt =====
-- runtime-pi/cmd/fermenter/main.go: how the parts are put together. A process is what its goroutines
-- share; each step is one turn of one of them, and a request or a round is served without another in
-- between. A restart keeps the database alone.
pub mod Turns
pub mod Safety
pub mod Overlap
pub mod Launch
pub mod AlarmLog
pub mod Ending
pub mod Streams
use phb_open_ferm.Prelude.{ℕ, String, ◌≡◌, Bool, true, Option, some}
use phb_open_ferm.Prelude.Int.{ℤ}
use phb_open_ferm.Time.{Time, Duration, of_seconds}
use phb_open_ferm.Float64.{Float64}
use phb_open_ferm.Control.{SystemState}
use phb_open_ferm.Control.Config.{Config, new_state}
use phb_open_ferm.Control.Threads as Threads
use phb_open_ferm.Alarm.{Event, new_manager}
use phb_open_ferm.Alarm.Evaluate.{evaluate}
use phb_open_ferm.Store.{Db, Json}
use phb_open_ferm.Store.Rows.{boot, snapshot}
use phb_open_ferm.Store.Settings.{boot_settings}
use phb_open_ferm.Store.Events.{add_event}
use phb_open_ferm.Store.Samples.{insert_samples, prune_samples}
use phb_open_ferm.Scheduler.{Faults, schedule}
use phb_open_ferm.Session.{new_server}
use phb_open_ferm.Api.{App}
use phb_open_ferm.Api.Records.{add_events}
use phb_open_ferm.Api.Routes.{Context, Route, serve}

-- Which statements fail while the program starts.
pub record BootFaults : Type 0 where
  pub targets : Bool
  pub modes : Bool
  pub snapshots : String → Bool
  pub settings : String → Bool

-- PHB_PIN, and the number in PHB_SESSION_MINUTES if there is one.
pub record Environment : Type 0 where
  pub pin : String
  pub session_minutes : Option ℤ

pub record Process (R : Type 0) : Type 0 where
  pub app : App R
  pub pending : ℕ → Threads.Pending

module _ {R : Type 0} ⦃f : Float64 R⦄ where
  -- The start of `main`, up to the server, with the defaults of `NewServer`.
  unfoldable pub start : Time → BootFaults → Environment → Config R → Db R → App R
  unfolding new_state boot snapshot boot_settings new_server
  start now e env cfg db =
      let resumed = boot e.targets e.modes db (new_state now cfg) in
      let hooked : SystemState R = record resumed { on_target_change = true } in
      let db' = snapshot now e.snapshots hooked db in
      record {
        sys = boot_settings e.settings cfg db' hooked;
        db = db';
        alarms = new_manager cfg.high_margin_c cfg.low_margin_c (of_seconds cfg.debounce_s) true;
        server = new_server env.pin env.session_minutes;
        units = "C";
        locale = "en";
      }

  abbrev pub started : Time → BootFaults → Environment → Config R → Db R → Process R
  started now e env cfg db = record { app = start now e env cfg db; pending = Threads.idle }

  abbrev pub controllers : Process R → Threads.World R
  controllers p = record { sys = p.app.sys; pending = p.pending }

  abbrev pub with_db : Db R → Process R → Process R
  with_db db p = record p { app = record p.app { db = db } }

  abbrev pub evaluated : Time → (Event → Bool) → App R → App R
  evaluated now refused app =
      let (alarms', events) = evaluate now app.sys app.alarms in
      record app { alarms = alarms'; db = add_events now refused events app.db }

  -- `noop`: the driver is the simulator's.
  pub data Step (json : Json R) (noop : Bool) (p : Process R) : Process R → Type 0 where
    controls :
        {w : Threads.World R}
        → Threads.Step noop (controllers p) w
        → Step json noop p (record { app = record p.app { sys = w.sys }; pending = w.pending })
    serves :
        (c : Context R) (r : Route R)
        → c.json ≡ json
        → Step json noop p (record p { app = (serve c r p.app).0 })
    schedules :
        (now : Time) (e : Faults) (i : ℕ) (out : SystemState R × Db R)
        → schedule json now e i (p.app.sys, p.app.db) ≡ some out
        → Step json noop p (record p { app = record p.app { sys = out.0; db = out.1 } })
    evaluates :
        (now : Time) (refused : Event → Bool)
        → Step json noop p (record p { app = evaluated now refused p.app })
    samples :
        (now : Time) (failed : Bool) (refused : String → Bool)
        → Step json noop p (with_db (insert_samples now failed refused p.app.sys p.app.db).0 p)
    prunes :
        (now : Time) (refused : Bool) (age : Duration)
        → Step json noop p (with_db (prune_samples now refused age p.app.db).0 p)
    snapshots :
        (now : Time) (refused : String → Bool)
        → Step json noop p (with_db (snapshot now refused p.app.sys p.app.db) p)
    logs :
        (now : Time) (refused : Bool) (typ id text : String)
        → Step json noop p (with_db (add_event now refused typ id text p.app.db) p)
    restarts :
        (now : Time) (e : BootFaults) (env : Environment) (cfg : Config R)
        → Step json noop p (started now e env cfg p.app.db)

  pub data Reach (json : Json R) (noop : Bool) (p : Process R) : Process R → Type 0 where
    here : Reach json noop p p
    later : {q r : Process R} → Reach json noop p q → Step json noop q r → Reach json noop p r
