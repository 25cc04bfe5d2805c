-- ===== src/Api/Targets.antt =====
-- The handlers of server.go.
use phb_open_ferm.Prelude.{String, ◌||◌, Option, none, some, ◌==◌, if◌then◌else◌}
use phb_open_ferm.Prelude.Int.{pos, negsuc}
use phb_open_ferm.Time.{Time}
use phb_open_ferm.Float64.{Float64}
use phb_open_ferm.Control.Export.{export}
use phb_open_ferm.Control.Setters.{set_target}
use phb_open_ferm.Store.Rows.{save_targets}
use phb_open_ferm.Api.{
  App, Failures, saves_target, Answer, no_content, error, json, shows_state, shows_prefs,
}

-- strings.ToUpper, as far as it makes "C" or "F": no other text has one of them as its upper case.
unfoldable pub unit_of : String → Option String
unit_of u =
    if u == "C" || u == "c" then some "C" else if u == "F" || u == "f" then some "F" else none

module _ {R : Type 0} ⦃f : Float64 R⦄ where
  unfoldable pub handle_state : Time → App R → Answer R
  handle_state now app = json (shows_state (export now app.sys))

  unfoldable pub handle_get_prefs : App R → Answer R
  handle_get_prefs app = json (shows_prefs app.units app.locale)

  -- A unit that is not known is ignored, as is an empty locale. The body holds both.
  unfoldable pub handle_set_prefs : Option (String × String) → App R → App R × Answer R
  unfolding unit_of
  handle_set_prefs none app = (app, error 400 "bad json")
  handle_set_prefs (some (units, locale)) app = (
    record app {
      units = elim (unit_of units) [ none ↦ app.units | some u ↦ u ];
      locale = if locale == "" then app.locale else locale;
    },
    no_content,
  )

  -- SetTarget, whose callback saves the target.
  unfoldable pub change_target : Time → Failures → String → R → App R → App R × Option String
  unfolding set_target save_targets
  change_target now fails id t app =
      let (sys', calls, err) = set_target id t app.sys in
      (record app { sys = sys'; db = save_targets now (fails saves_target) calls app.db }, err)

  unfoldable pub handle_set_target : Time → Failures → String → Option R → App R → App R × Answer R
  unfolding change_target
  handle_set_target now fails id none app = (app, error 400 "bad json")
  handle_set_target now fails id (some t) app =
      let (app', err) = change_target now fails id t app in
      if f.lt t (f.decimal (negsuc 19) 0) || f.lt (f.decimal (pos 40) 0) t
      then (app, error 400 "target out of range")
      else elim err [ none ↦ (app', no_content) | some text ↦ (app', error 404 text) ]
