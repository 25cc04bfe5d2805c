-- ===== src/Api/Settings.antt =====
-- The handlers of settings.go.
use Prim.Native.String.{◌++◌}
use phb_open_ferm.Prelude.{String, Option, none, some, if◌then◌else◌}
use phb_open_ferm.Decimal.{format_int}
use phb_open_ferm.Time.{Time}
use phb_open_ferm.Float64.{Float64}
use phb_open_ferm.Control.{SystemState}
use phb_open_ferm.Control.Export.{snapshot_controller_settings}
use phb_open_ferm.Control.Setters.{apply_controller_settings}
use phb_open_ferm.Store.Settings.{
  ControllerSettings, load_controller_settings, save_controller_settings, or_else,
}
use phb_open_ferm.Store.Events.{add_event}
use phb_open_ferm.Api.{
  App, Failures, reads_setting, saves_setting, adds_event, Answer, no_content, error, json,
  shows_settings,
}

module _ {R : Type 0} ⦃f : Float64 R⦄ where
  abbrev live_settings : SystemState R → ControllerSettings R
  live_settings s =
      let snap = snapshot_controller_settings s in
      record { band_c = snap.band_c; min_change_s = snap.min_change_s; max_open = snap.max_open }

  unfoldable pub handle_get_settings : Failures → App R → Answer R
  unfolding load_controller_settings or_else
  handle_get_settings fails app = json (
      shows_settings (
        or_else (load_controller_settings (λ key. fails (reads_setting key)) app.db)
          (live_settings app.sys)))

  abbrev pub settings_text : ControllerSettings R → String
  settings_text body =
      "band="
      ++ f.fixed 3 body.band_c
      ++ ",min_change_s="
      ++ format_int body.min_change_s
      ++ ",max_open="
      ++ format_int body.max_open

  -- A failed save may have written some of the keys, and nothing is applied.
  unfoldable pub handle_set_settings :
      Time → Failures → Option (ControllerSettings R) → App R → App R × Answer R
  unfolding save_controller_settings apply_controller_settings add_event
  handle_set_settings now fails none app = (app, error 400 "bad json")
  handle_set_settings now fails (some body) app =
      let (db', saved) = save_controller_settings (λ key. fails (saves_setting key)) body app.db in
      if saved
      then (
        record app {
          sys = apply_controller_settings body.band_c body.min_change_s body.max_open app.sys;
          db = add_event now (fails adds_event) "settings_update" "" (settings_text body) db';
        },
        no_content,
      )
      else (record app { db = db' }, error 500 "save settings")
