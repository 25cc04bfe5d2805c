-- ===== src/Api/Modes.antt =====
-- The handlers of mode.go.
use Prim.Native.String.{◌++◌}
use phb_open_ferm.Prelude.{String, Bool, not, ◌&&◌, Option, none, some, ◌==◌, if◌then◌else◌}
use phb_open_ferm.Prelude.Int.{ℤ, pos, ltb_ℤ}
use phb_open_ferm.Decimal.{format_int}
use phb_open_ferm.Time.{Time, zero_time, is_zero, shift, of_seconds, from_unix, unix}
use phb_open_ferm.Float64.{Float64}
use phb_open_ferm.Control.{mode_fixed, mode_profile, mode_valve, valve_open, valve_closed}
use phb_open_ferm.Control.Fleet.{find}
use phb_open_ferm.Control.Export.{live_override}
use phb_open_ferm.Control.Setters.{set_mode, set_valve_override_until, clear_override}
use phb_open_ferm.Store.Rows.{save_mode}
use phb_open_ferm.Store.Events.{add_event}
use phb_open_ferm.Api.{
  App, Failures, saves_mode, adds_event, Answer, no_content, error, json, shows_mode,
}
use phb_open_ferm.Api.Targets.{change_target}

pub record ModeBody (R : Type 0) : Type 0 where
  pub mode : String
  pub target_c : R

pub record ValveBody : Type 0 where
  pub state : String
  pub for_s : ℤ
  pub until_s : ℤ

abbrev pub not_found_page : {R : Type 0} → Answer R
not_found_page = error 404 "404 page not found"

abbrev pub is_mode : String → Bool
is_mode m = not (not (m == mode_profile) && (not (m == mode_fixed) && not (m == mode_valve)))

-- The end of an override: the zero time if the body names none.
abbrev pub until_of : Time → ValveBody → Time
until_of now body =
    if ltb_ℤ (pos 0) body.until_s
    then from_unix body.until_s
    else if ltb_ℤ (pos 0) body.for_s
    then shift now (of_seconds body.for_s)
    else zero_time

abbrev pub override_text : String → Time → String
override_text state until =
    "{\"state\":\""
    ++ state
    ++ "\",\"until\":"
    ++ (if is_zero until then "0" else format_int (unix until))
    ++ "}"

module _ {R : Type 0} ⦃f : Float64 R⦄ where
  unfoldable pub handle_get_mode : Time → String → App R → Answer R
  unfolding live_override
  handle_get_mode now id app = elim (find id app.sys.fv) [
    | none ↦ not_found_page
    | some x ↦ json (shows_mode x.mode x.target_c (live_override now x.override))
  ]

  -- After SetMode: the mode is saved, a target that comes with the mode "fixed" is set, and an event
  -- is added.
  unfoldable pub mode_was_set : Time → Failures → String → ModeBody R → App R → App R
  unfolding save_mode change_target add_event
  mode_was_set now fails id body app =
      let saved : App R = record app {
        db = (save_mode now (fails saves_mode) id body.mode app.db).0;
      } in
      let moved : App R =
        if body.mode == mode_fixed && not (f.eq body.target_c (f.decimal (pos 0) 0))
        then (change_target now fails id body.target_c saved).0
        else saved in
      record moved { db = add_event now (fails adds_event) "mode_change" id body.mode moved.db }

  unfoldable pub handle_set_mode :
      Time → Failures → String → Option (ModeBody R) → App R → App R × Answer R
  unfolding set_mode mode_was_set
  handle_set_mode now fails id none app = (app, error 400 "bad json")
  handle_set_mode now fails id (some body) app =
      let (sys', err) = set_mode id body.mode app.sys in
      if not (is_mode body.mode) then (app, error 400 "bad mode") else elim err [
        | some _ ↦ (app, not_found_page)
        | none ↦ (mode_was_set now fails id body (record app { sys = sys' }), no_content)
      ]

  unfoldable pub handle_set_valve_override :
      Time → Failures → String → Option ValveBody → App R → App R × Answer R
  unfolding set_valve_override_until add_event
  handle_set_valve_override now fails id none app = (app, error 400 "bad json")
  handle_set_valve_override now fails id (some body) app =
      let until = until_of now body in
      let (sys', err) = set_valve_override_until id body.state until app.sys in
      if not (body.state == valve_open) && not (body.state == valve_closed)
      then (app, error 400 "invalid state")
      else elim err [
        | some text ↦ (app, error 404 text)
        | none ↦ (
          record app {
            sys = sys';
            db =
                add_event now (fails adds_event) "override_set" id (override_text body.state until)
                  app.db;
          },
          no_content,
        )
      ]

  unfoldable pub handle_clear_valve_override : Time → Failures → String → App R → App R × Answer R
  unfolding clear_override add_event
  handle_clear_valve_override now fails id app = (
    record app {
      sys = clear_override id app.sys;
      db = add_event now (fails adds_event) "override_clear" id "" app.db;
    },
    no_content,
  )
