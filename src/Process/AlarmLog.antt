-- ===== src/Process/AlarmLog.antt =====
-- The table of events against the open alarms, over all that the goroutines of
-- runtime-pi/cmd/fermenter/main.go do between two starts.
pub mod Rows
use phb_open_ferm.Prelude.{◌+◌, ◌≡◌, ◌≢◌, refl, ◌∙◌, true, false, Bool, arith}
use phb_open_ferm.Prelude.Dict.{Unique}
use phb_open_ferm.Time.{Time}
use phb_open_ferm.Float64.{Float64}
use phb_open_ferm.Control.Config.{Config}
use phb_open_ferm.Alarm.{active_count, new_manager}
use phb_open_ferm.Alarm as Alarms
use phb_open_ferm.Alarm.Evaluate.{evaluate}
use phb_open_ferm.Alarm.Accounting.{evaluate-Accounts}
use phb_open_ferm.Store.{Db, Json}
use phb_open_ferm.Store.Events.{add_event}
use phb_open_ferm.Store.Events.Counts.{count_rows-add_event, opened_rows, cleared_rows}
use phb_open_ferm.Store.Rows.{snapshot}
use phb_open_ferm.Store.Samples.{insert_samples, prune_samples}
use phb_open_ferm.Scheduler.Rounds.{schedule-IsRound}
use phb_open_ferm.Api.{App}
use phb_open_ferm.Api.Routes.{serve}
use phb_open_ferm.Api.Logging.{serve-KeepsAlarms}
use phb_open_ferm.Process.{
  BootFaults, Environment, Process, Step, Reach, controls, serves, schedules, evaluates, samples,
  prunes, snapshots, logs, restarts, evaluated, here, later, start, started,
}
use phb_open_ferm.Process.AlarmLog.Rows.{
  count_rows-add_events, schedule-events, insert_samples-events, prune_samples-events,
}

module _ {R : Type 0} ⦃f : Float64 R⦄ where
  -- The rows of openings less those of clearings are the open alarms.
  pub record IsBalanced (app : App R) : Type 0 where
    pub balance : opened_rows app.db ≡ cleared_rows app.db + active_count app.alarms
    pub unique : Unique app.alarms.active
    pub hook : app.alarms.has_hook ≡ true

  IsBalanced-same :
      (app app' : App R)
      → (app'.alarms ≡ app.alarms)
        × (opened_rows app'.db ≡ opened_rows app.db)
        × (cleared_rows app'.db ≡ cleared_rows app.db)
      → IsBalanced app
      → IsBalanced app'
  IsBalanced-same app app' (alarms, opens, clears) h = record {
    balance = rw (alarms, opens, clears) h.balance;
    unique = rw alarms h.unique;
    hook = rw alarms h.hook;
  }

  with_rows :
      (app app' : App R)
      → app'.alarms ≡ app.alarms
      → app'.db.events ≡ app.db.events
      → IsBalanced app
      → IsBalanced app'
  with_rows app app' alarms rows h = IsBalanced-same app app' (ground (arith, alarms, rows)) h

  evaluated-IsBalanced :
      (now : Time) (refused : Alarms.Event → Bool) (app : App R)
      → ((e : Alarms.Event) → refused e ≡ false)
      → IsBalanced app
      → IsBalanced (evaluated now refused app)
  evaluated-IsBalanced now refused app takes h =
      let es = (evaluate now app.sys app.alarms).1 in
      let told = evaluate-Accounts now app.sys app.alarms h.hook h.unique in
      record {
        balance = omega (
          arith,
          h.balance,
          told.balance,
          count_rows-add_events "ALARM_OPEN" now refused es app.db takes,
          count_rows-add_events "ALARM_CLEAR" now refused es app.db takes,
        );
        unique = told.unique;
        hook = told.hook ∙ h.hook;
      }

  -- The statements of the alarms' events succeed, the events of the watchdog are of other types, and
  -- the program is not started again.
  abbrev pub IsLogging :
      {json : Json R} {noop : Bool} {p q : Process R} → Step json noop p q → Type 0
  IsLogging (evaluates now refused) = (e : Alarms.Event) → refused e ≡ false
  IsLogging (logs now refused typ id text) = (typ ≢ "ALARM_OPEN") × (typ ≢ "ALARM_CLEAR")
  IsLogging (restarts now e env cfg) = ⊥
  IsLogging _ = Unit {0}

  abbrev pub AllLogging :
      {json : Json R} {noop : Bool} {p q : Process R} → Reach json noop p q → Type 0
  AllLogging here = Unit {0}
  AllLogging (later r st) = AllLogging r × IsLogging st

  Step-IsBalanced :
      {json : Json R} {noop : Bool} {p q : Process R} (st : Step json noop p q)
      → IsLogging st
      → IsBalanced p.app
      → IsBalanced q.app
  unfolding snapshot
  Step-IsBalanced {p} (controls st) taken h = with_rows p.app _ refl refl h
  Step-IsBalanced {p} (serves c r same) taken h =
      IsBalanced-same p.app (serve c r p.app).0 (serve-KeepsAlarms c r p.app) h
  Step-IsBalanced {json} {p} (schedules now e i out ran) taken h =
      with_rows p.app (record p.app { sys = out.0; db = out.1 }) refl
        (schedule-events json now e p.app.sys p.app.db out
          (schedule-IsRound json now e i p.app.sys p.app.db) ran)
        h
  Step-IsBalanced {p} (evaluates now refused) taken h =
      evaluated-IsBalanced now refused p.app taken h
  Step-IsBalanced {p} (samples now failed refused) taken h =
      with_rows p.app
        (record p.app { db = (insert_samples now failed refused p.app.sys p.app.db).0 }) refl
        (insert_samples-events now failed refused p.app.sys p.app.db) h
  Step-IsBalanced {p} (prunes now refused age) taken h =
      with_rows p.app (record p.app { db = (prune_samples now refused age p.app.db).0 }) refl
        (prune_samples-events now refused age p.app.db) h
  Step-IsBalanced {p} (snapshots now refused) taken h =
      with_rows p.app (record p.app { db = snapshot now refused p.app.sys p.app.db }) refl refl h
  Step-IsBalanced {p} (logs now refused typ id text) taken h =
      IsBalanced-same p.app (record p.app { db = add_event now refused typ id text p.app.db })
        (
          refl,
          count_rows-add_event "ALARM_OPEN" now refused typ id text p.app.db taken.0,
          count_rows-add_event "ALARM_CLEAR" now refused typ id text p.app.db taken.1,
        )
        h
  Step-IsBalanced (restarts now e env cfg) taken h = absurd taken

  Reach-IsBalanced :
      {json : Json R} {noop : Bool} {p q : Process R} (r : Reach json noop p q)
      → AllLogging r
      → IsBalanced p.app
      → IsBalanced q.app
  Reach-IsBalanced here taken h = h
  Reach-IsBalanced (later r st) taken h = Step-IsBalanced st taken.1 (Reach-IsBalanced r taken.0 h)

  -- Start the program on a database that holds as many openings of alarms as clearings, as an empty one
  -- does. Then, whatever the controllers, the scheduler and requests do, and as long as SQLite takes
  -- the alarms' events, the watchdog logs events of other types, and the program is not started again,
  -- the openings of alarms in the table of events less the clearings are the alarms that are open.
  pub log_tells_alarms :
      {json : Json R} {noop : Bool} (began : Time) (e : BootFaults) (env : Environment)
      (cfg : Config R) (db : Db R) {p : Process R}
      (r : Reach json noop (started began e env cfg db) p)
      → opened_rows db ≡ cleared_rows db
      → AllLogging r
      → opened_rows p.app.db ≡ cleared_rows p.app.db + active_count p.app.alarms
  unfolding start snapshot new_manager active_count
  log_tells_alarms began e env cfg db r even taken =
      let begun : IsBalanced (start began e env cfg db) = record {
        balance = omega (arith, even);
        unique = tt;
        hook = refl;
      } in
      (Reach-IsBalanced r taken begun).balance
