-- ===== src/Tests/Process.antt =====
-- A run of the program: a start on an empty database, then a profile that is created over the API.
use mathlib.Core.List.{Sublist, Perm}
use phb_open_ferm.Alarm.{Event, active_count}
use phb_open_ferm.Store.Events.Counts.{count_rows, opened_rows, cleared_rows}
use phb_open_ferm.Process.AlarmLog.{log_tells_alarms}
use phb_open_ferm.Prelude.{
  String, Bool, ◌+◌, ℕ, ◌≤◌, ◌≡◌, refl, true, false, none, some, List, [], ◌∷◌, ◌++◌, map, arith,
  All, ne_of_test, length, ◌==◌,
}
use phb_open_ferm.Prelude.Int.{ℤ, pos, ltb_ℤ, ◌-ℤ◌}
use phb_open_ferm.Prelude.Sort.{IsSorted}
use phb_open_ferm.Time.{since, unix, shift, hours}
use phb_open_ferm.Float64.Scaled.{scaled}
use phb_open_ferm.Control.{Fermenter, valve_closed}
use phb_open_ferm.Control.Setters.{apply_controller_settings}
use phb_open_ferm.Store.{EventRow, SampleRow}
use phb_open_ferm.Store.Settings.{ControllerSettings, save_controller_settings, boot_settings}
use phb_open_ferm.Store.Settings.Survival.{settings_survive}
use phb_open_ferm.Store.Samples.{SeriesPoint, series, sample_of, insert_samples, prune_samples}
use phb_open_ferm.Store.Samples.Table.{row_at, samples_map}
use phb_open_ferm.Store.Samples.Series.{IsAscending, includes, buckets, series_covers}
use phb_open_ferm.Store.Events.{query_events, ts_of, add_event}
use phb_open_ferm.Store.Events.Query.{Matches, query_events_exact}
use phb_open_ferm.Api.Routes.{writes, post_profile, serve}
use phb_open_ferm.Process.{
  BootFaults, Environment, Process, started, evaluated, with_db, evaluates, logs, Reach, here,
  later, serves,
}
use phb_open_ferm.Sse.{Hub, new_hub, capacity}
use phb_open_ferm.Sse as Sse
use phb_open_ferm.Process.Streams.{
  StreamTurn, shows, joins, writes, leaves, stream_turn, shown_states, streams_show_states,
}
use phb_open_ferm.Control.Export.{FermenterView}
use phb_open_ferm.Serial.{Lines, Link, Occasion, line_at, run, watch, telemetry_limit}
use phb_open_ferm.Serial.Watchdog.{last_heard, closings, watch_exact}
use phb_open_ferm.Tests.{at, warm, two}
use phb_open_ferm.Tests.Limits.{config}
use phb_open_ferm.Tests.Profiles.{json, empty, profile, stored}
use phb_open_ferm.Tests.Requests.{context}

abbrev pub no_boot_faults : BootFaults
no_boot_faults = record {
  targets = false;
  modes = false;
  snapshots = λ _. false;
  settings = λ _. false;
}

abbrev pub no_pin : Environment
no_pin = record { pin = ""; session_minutes = none }

abbrev first : Process ℤ
first = started (at 0) no_boot_faults no_pin config empty

-- The alarm goroutine's first second, an event of the watchdog, and a request.
abbrev took_all : Event → Bool
took_all e = false

abbrev rung : Process ℤ
rung = record first { app = evaluated (at 1) took_all first.app }

abbrev warned : Process ℤ
warned = with_db (add_event (at 15) false "serial_timeout" "" "silent" rung.app.db) rung

abbrev profiled : Process ℤ
profiled = record warned {
  app = (serve context (writes (post_profile (some ("Ale", profile)))) warned.app).0;
}

abbrev morning : Reach json true first profiled
morning =
    later
      (later (later here (evaluates (at 1) took_all))
        (logs (at 15) false "serial_timeout" "" "silent"))
      (serves context (writes (post_profile (some ("Ale", profile)))) refl)

log_tells_alarms_example :
    opened_rows profiled.app.db ≡ cleared_rows profiled.app.db + active_count profiled.app.alarms
unfolding count_rows
log_tells_alarms_example =
    log_tells_alarms (at 0) no_boot_faults no_pin config empty morning refl
      (((tt, λ e. refl), (ne_of_test _ _ refl, ne_of_test _ _ refl)), tt)

abbrev spoken : List (FermenterView ℤ) → String
spoken [] = "{}"
spoken (x ∷ xs) = x.valve

abbrev seconds : List (StreamTurn ℤ)
seconds = joins ∷ shows (at 1) two ∷ writes 0 true ∷ shows (at 2) two ∷ leaves 0 ∷ []

streams_show_states_example :
    (h : Hub) × (Sse.run (map (stream_turn spoken) seconds) new_hub ≡ some h)
    × ((c : ℕ)
        → Sublist ((h.channels c).written ++ (h.channels c).queue) (shown_states spoken seconds)
          × (length (h.channels c).queue ≤ capacity))
streams_show_states_example = streams_show_states spoken seconds

abbrev lines : Lines ℤ
lines = record {
  kind = λ _. some "telemetry";
  telemetry = λ _. some (record { type = "telemetry"; fv = "fv1"; beer_c = pos 19000 });
}

abbrev link : Link ℤ
link = record { last_seen = at 0; last_telem = at 0; sys = two; db = empty; sent = [] }

abbrev occasions : List Occasion
occasions = line_at (at 3) (some "line") ∷ []

watch_exact_example :
    let before = run lines occasions link in
    let after = watch (at 60) (λ _. true) false before in
    let silent = ltb_ℤ telemetry_limit (since (at 60) (last_heard lines occasions (at 0))) in
    (silent ≡ true
      → All (λ (x : Fermenter ℤ). x.valve ≡ valve_closed) after.sys.fv
        × (after.sent ≡ closings (λ _. true) before.sys.fv ++ before.sent)
        × (after.db
            ≡ add_event
                (at 60)
                false
                "serial_timeout"
                ""
                "no telemetry >30s; all valves closed"
                before.db))
    × (silent ≡ false → after ≡ before)
watch_exact_example = watch_exact lines occasions link (at 60) (λ _. true) false

abbrev sample : SampleRow ℤ
sample = record {
  ts = pos 1_700_000_030;
  fv_id = "fv1";
  beer_c = pos 19000;
  target_c = pos 18000;
  valve = "open";
}

abbrev samples : List (SampleRow ℤ)
samples = sample ∷ record sample { ts = pos 1_700_000_010 } ∷ []

series_covers_example :
    (points : List (SeriesPoint ℤ)) × (series (λ _. pos 0) 60 samples ≡ some points)
    × IsAscending (map (λ (p : SeriesPoint ℤ). p.t) points)
    × ((b : ℤ)
        → includes b (map (λ (p : SeriesPoint ℤ). p.t) points) ≡ includes b (buckets 60 samples))
series_covers_example = series_covers (λ _. pos 0) 59 samples

query_events_exact_example :
    (out : List EventRow) × (rest : List EventRow) × (query_events false "fv1"
        (pos 0)
        (pos 10)
        stored
      ≡ some out)
    × Perm (out ++ rest) stored.events
    × All (Matches "fv1" (pos 0) (pos 10)) out
    × All (λ (e : EventRow). ¬ (Matches "fv1" (pos 0) (pos 10) e)) rest
    × IsSorted ts_of out
query_events_exact_example = query_events_exact "fv1" (pos 0) (pos 10) stored

abbrev chosen : ControllerSettings ℤ
chosen = record { band_c = pos 3; min_change_s = pos 120; max_open = pos 2 }

settings_survive_example :
    ((save_controller_settings (λ _. false) chosen empty).1 ≡ true)
    × (boot_settings (λ _. false) config (save_controller_settings (λ _. false) chosen empty).0 two
        ≡ apply_controller_settings (pos 3) (pos 120) (pos 2) two)
unfolding scaled
settings_survive_example =
    settings_survive chosen empty config two
      (record {
        positive = refl;
        nonzero = refl;
        printed = ne_of_test "+|||" "" refl;
        reads = refl;
      })
      (omega arith) (omega arith) (omega arith) (omega arith)

-- Two fermenters, one of whose statements is refused, and an hour's samples kept.
samples_map_example :
    (row_at
        (unix (at 9))
        "fv1"
        (insert_samples (at 9) false (λ id. id == "fv2") two stored).0.samples
      ≡ some (sample_of (at 9) warm))
    × ((insert_samples (at 9) true (λ id. id == "fv2") two stored).0 ≡ stored)
    × (row_at (unix (at 9)) "fv1" (prune_samples (at 9) false (hours 1) stored).0.samples ≡ none)
unfolding unix shift ◌-ℤ◌
samples_map_example =
    samples_map (at 9) (λ id. id == "fv2") two stored (hours 1) (unix (at 9)) "fv1"
