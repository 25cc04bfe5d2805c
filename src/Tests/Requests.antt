-- ===== src/Tests/Requests.antt =====
-- The API, the tables and the connections at concrete requests.
use phb_open_ferm.Prelude.{
  ℕ, ◌≡◌, ◌≢◌, ◌⊎◌, inl, inr, refl, String, true, false, none, some, [], ◌∷◌, arith, ne_of_test,
  get_elem?,
}
use phb_open_ferm.Prelude.Int.{ℤ, pos}
use phb_open_ferm.Prelude.Dict.{lookup}
use phb_open_ferm.Time.{Time, unix}
use phb_open_ferm.Float64.Scaled.{scaled}
use phb_open_ferm.Control.{Fermenter, SystemState}
use phb_open_ferm.Control.Invariant.{IsSound}
use phb_open_ferm.Store.{Db, Assignment}
use phb_open_ferm.Store.Profiles.{get_profile, find_row}
use phb_open_ferm.Scheduler.Rounds.{current}
use phb_open_ferm.Scheduler.Consistency.{IsConsistent}
use phb_open_ferm.Session.{Server}
use phb_open_ferm.Alarm.{new_manager}
use phb_open_ferm.Api.{App, Failures, no_content}
use phb_open_ferm.Api.Routes.{
  Context, writes, post_assign, post_pause, post_target, serve, handle_write, unauthorized,
}
use phb_open_ferm.Api.Access.{IsLive, write_needs_session}
use phb_open_ferm.Api.Answers.{IsFit, serve-IsFit}
use phb_open_ferm.Api.Requests.{IsKept}
use phb_open_ferm.Api.Serving.{serve-IsKept}
use phb_open_ferm.Api.Errors.{error_changes_nothing}
use phb_open_ferm.Scheduler.{Faults, schedule}
use phb_open_ferm.Api.Targets.{handle_set_target}
use phb_open_ferm.Api.Profiles.{
  wanted_profile, last_target, AssignBody, handle_assign_profile, handle_pause_profile,
}
use phb_open_ferm.Api.Assigning.{assign_begins, pause_stops_profile}
use phb_open_ferm.Tests.{at}
use phb_open_ferm.Tests.Profiles.{ale, tracked, json, held, stored, guided, profile}

abbrev pub fine : Failures
fine s = false

abbrev pub context : Context ℤ
context = record {
  json = json;
  avg = λ _. pos 0;
  scan_time = λ _. none;
  now = at 0;
  fails = fine;
  cookie = none;
  fresh = "new";
}

abbrev locked : Server
locked = record { pin = "1234"; session_ttl = pos 600_000_000_000; sessions = ("abc", at 100) ∷ [] }

abbrev pub app : App ℤ
app = record {
  sys = guided;
  db = stored;
  alarms = new_manager (pos 1500) (pos 1500) (pos 30_000_000_000) true;
  server = locked;
  units = "C";
  locale = "en";
}

abbrev to_ale : AssignBody ℤ
to_ale = record { profile_id = pos 1; from_c = none }

write_needs_session_example :
    (IsLive context locked
      × (serve context (writes (post_assign "fv2" to_ale "")) app
          ≡ handle_write context (post_assign "fv2" to_ale "") app))
    ⊎ ((server' : Server) × (server'.pin ≡ "1234")
        × (serve context (writes (post_assign "fv2" to_ale "")) app
            ≡ (record app { server = server' }, unauthorized)))
write_needs_session_example =
    write_needs_session context (post_assign "fv2" to_ale "") app (ne_of_test "1234" "" refl)

pub guided-IsSound : IsSound guided
guided-IsSound = (
  record { valve_known = inr refl; override_known = inl refl },
  (record { valve_known = inr refl; override_known = inl refl }, tt),
)

pub stored-IsConsistent : IsConsistent json stored
unfolding lookup find_row
stored-IsConsistent = record {
  rows_below = (omega arith, tt);
  fitting = λ id a at.
      (let one : a.profile_id ≡ 1 = ground arith in
        ((ale, rw (one) refl), λ spec got steps. tracked id a spec at got steps));
}

serve-IsKept_example : IsKept json (serve context (writes (post_pause "fv1" "true")) app).0
serve-IsKept_example =
    serve-IsKept context (writes (post_pause "fv1" "true")) app
      (guided-IsSound, stored-IsConsistent)

-- 50 degrees
error_changes_nothing_example :
    let r = handle_write context (post_target "fv1" (some (pos 50000))) app in
    r.0 ≡ record app { db = record app.db { settings = r.0.db.settings } }
unfolding handle_write handle_set_target scaled
error_changes_nothing_example =
    error_changes_nothing context (post_target "fv1" (some (pos 50000))) app (omega arith)

assign_begins_example :
    let r = handle_assign_profile json (at 0) fine "fv2" to_ale "" app in
    (r.1 ≡ no_content)
    × ((a : Assignment ℤ) × (current "fv2" r.0.db.assignments ≡ some a)
        × (a.profile_id ≡ 1)
        × (a.step_idx ≡ 0)
        × (a.step_started_ts ≡ unix (at 0))
        × (a.started_ts ≡ unix (at 0))
        × (a.from_c ≡ pos 18000)
        × (a.paused ≡ false))
    × ((other : String)
        → "fv2" ≢ other
        → current other r.0.db.assignments ≡ current other app.db.assignments)
unfolding wanted_profile get_profile find_row last_target
assign_begins_example =
    assign_begins json (at 0) fine "fv2" to_ale "" 0 (pos 18000) profile app
      (ne_of_test "fv2" "" refl) refl refl refl refl

pause_stops_profile_example :
    let r = handle_pause_profile (at 0) fine "fv1" "" app in
    (r.1 ≡ no_content)
    × ((later : Time) (e : Faults) (i : ℕ) (sys : SystemState ℤ) (db : Db ℤ) (x : Fermenter ℤ)
        → get_elem? sys.fv i ≡ some x
        → x.id ≡ "fv1"
        → current "fv1" db.assignments ≡ current "fv1" r.0.db.assignments
        → schedule json later e i (sys, db) ≡ some (sys, db))
unfolding lookup
pause_stops_profile_example =
    pause_stops_profile json (at 0) fine "fv1" "" held app (ne_of_test "fv1" "" refl) refl refl refl
      refl

serve-IsFit_example : IsFit (serve context (writes (post_assign "fv2" to_ale "")) app).1
serve-IsFit_example = serve-IsFit context (writes (post_assign "fv2" to_ale "")) app
