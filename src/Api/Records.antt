-- ===== src/Api/Records.antt =====
-- The handlers of alarms.go, events.go and history.go. The texts are those of the query string, empty
-- where it has no such key. `step` is the duration that time.ParseDuration reads, if it reads one.
use phb_open_ferm.Prelude.{String, Bool, Option, none, some, List, [], ◌∷◌, ◌==◌, if◌then◌else◌}
use phb_open_ferm.Prelude.Int.{ℤ, pos, ltb_ℤ, eqb_ℤ, ◌-ℤ◌, wrap64}
use phb_open_ferm.Decimal.{NumError, ok, syntax, range, parse_int}
use phb_open_ferm.Time.{Time, Duration, hours, minutes, shift, unix}
use phb_open_ferm.Float64.{Float64}
use phb_open_ferm.Alarm as Alarms
use phb_open_ferm.Store.Events.{add_event, list_events, query_events}
use phb_open_ferm.Store.Samples.{query_series}
use phb_open_ferm.Store.{Db}
use phb_open_ferm.Api.{
  App, Failures, adds_event, reads_events, reads_samples, Answer, no_content, error, failed, json,
  shows_alarms, shows_events, shows_history, shows_series,
}

-- The start and the end that a query for events asks for. Errors of parsing are dropped, and what the
-- parser returns beside them is used.
unfoldable pub events_range : Time → String → String → ℤ × ℤ
unfolding parse_int ◌-ℤ◌ wrap64
events_range now from to =
    let to_s = (parse_int to).0 in
    let until = if eqb_ℤ to_s (pos 0) then unix now else to_s in
    let from_s = (parse_int from).0 in
    ((if eqb_ℤ from_s (pos 0) then wrap64 (until -ℤ pos 21_600) else from_s), until)

abbrev parsed_or : ℤ → ℤ × NumError → ℤ
parsed_or default (sec, ok) = sec
parsed_or default (sec, syntax) = default
parsed_or default (sec, range) = default

-- A moment of the query of a chart, in Unix seconds.
unfoldable pub moment_of : ℤ → String → ℤ
unfolding parse_int
moment_of default v = if v == "" then default else parsed_or default (parse_int v)

-- The width of the buckets of a chart.
abbrev pub step_of : Option Duration → Duration
step_of none = minutes 1
step_of (some d) = if ltb_ℤ (pos 0) d then d else minutes 1

module _ {R : Type 0} where
  -- GET /api/alarms/history; an error of parsing is dropped.
  unfoldable pub handle_get_alarm_history : (ℤ → Option Time) → Failures → String → App R → Answer R
  unfolding list_events parse_int
  handle_get_alarm_history scan_time fails limit app =
      elim (list_events scan_time (fails reads_events) (parse_int limit).0 app.db) [
        | none ↦ failed
        | some es ↦ json (shows_history es)
      ]

  unfoldable pub handle_get_alarm : App R → Answer R
  handle_get_alarm app = json (shows_alarms (Alarms.active_list app.alarms))

  -- The alarms' `addEvent` is the store's.
  unfoldable pub add_events : Time → (Alarms.Event → Bool) → List Alarms.Event → Db R → Db R
  unfolding add_event
  add_events now refused [] db = db
  add_events now refused (e ∷ es) db =
      add_events now refused es (add_event now (refused e) e.typ e.fv_id e.data_text db)

  -- No route leads to this handler.
  unfoldable pub handle_set_alarm : Time → Failures → String → App R → App R × Answer R
  unfolding add_events Alarms.ack
  handle_set_alarm now fails id app =
      let (alarms', events, acked) = Alarms.ack id app.alarms in
      let app' : App R = record app {
        alarms = alarms';
        db = add_events now (λ _. fails adds_event) events app.db;
      } in
      if id == ""
      then (app, error 404 "not found")
      else if acked
      then (app', no_content)
      else (app', error 404 "not found")

  unfoldable pub handle_events : Time → Failures → String → String → String → App R → Answer R
  unfolding events_range query_events
  handle_events now fails fv from to app =
      let asked = events_range now from to in
      elim (query_events (fails reads_events) fv asked.0 asked.1 app.db) [
        | none ↦ failed
        | some es ↦ json (shows_events es)
      ]

module _ {R : Type 0} ⦃f : Float64 R⦄ where
  -- `avg` is SQLite's AVG.
  unfoldable pub handle_history :
      (List R → R) → Time → Failures → String → String → String → Option Duration → App R → Answer R
  unfolding moment_of query_series ◌-ℤ◌
  handle_history avg now fails id from to step app =
      let start = moment_of (unix (shift now (pos 0 -ℤ hours 6))) from in
      let end = moment_of (unix now) to in
      let width = step_of step in
      elim (query_series avg (fails reads_samples) id start end width app.db) [
        | none ↦ failed
        | some points ↦ json (shows_series start end (f.to_int (f.seconds width)) points)
      ]
