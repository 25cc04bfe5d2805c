-- ===== src/Serial.antt =====
-- runtime-pi/internal/arduino/arduino.go, and its use in cmd/fermenter/main.go: lines of JSON from the
-- serial port, and the watchdog that closes the valves when no telemetry comes. `Lines` is what
-- encoding/json makes of a line; the port itself is left out, with the result of a write an argument.
pub mod Watchdog
pub mod Device
pub mod Plant
use phb_open_ferm.Prelude.{
  String, Bool, false, Option, none, some, List, [], ◌∷◌, ◌==◌, if◌then◌else◌,
}
use phb_open_ferm.Prelude.Int.{pos, ltb_ℤ}
use phb_open_ferm.Time.{Time, Duration, since}
use phb_open_ferm.Control.{Fermenter, SystemState}
use phb_open_ferm.Control.Operations.{close_all}
use phb_open_ferm.Control.Setters.{update_beer_temp}
use phb_open_ferm.Store.{Db}
use phb_open_ferm.Store.Events.{add_event}

pub record Telemetry (R : Type 0) : Type 0 where
  pub type : String
  pub fv : String
  pub beer_c : R

-- `kind` is `none` for a line that is no JSON object; a "type" that is missing or no text is "".
-- `telemetry` decodes the object into the struct.
pub record Lines (R : Type 0) : Type 0 where
  pub kind : String → Option String
  pub telemetry : String → Option (Telemetry R)

-- The objects that the program sends.
pub data Command : Type 0 where
  ping : Command
  set_valve : String → String → Command

abbrev pub valve_command : String → Bool → Command
valve_command fv_id opened = set_valve fv_id (if opened then "open" else "closed")

-- What the read loop and the watchdog share. `last_telem` is the variable of `main`.
pub record Link (R : Type 0) : Type 0 where
  pub last_seen : Time
  pub last_telem : Time
  pub sys : SystemState R
  pub db : Db R
  pub sent : List Command

abbrev pub telemetry_limit : Duration
telemetry_limit = pos 30_000_000_000

module _ {R : Type 0} where
  -- The callback of `main`.
  unfoldable pub on_telemetry : Time → Telemetry R → Link R → Link R
  unfolding update_beer_temp
  on_telemetry now t l = record l {
    sys = update_beer_temp now t.fv t.beer_c l.sys;
    last_telem = now;
  }

  -- The telemetry that a line carries.
  unfoldable pub telemetry_of : Lines R → String → Option (Telemetry R)
  telemetry_of lines line = elim (lines.kind line) [
    | none ↦ none
    | some kind ↦ (if kind == "telemetry" then lines.telemetry line else none)
  ]

  -- One turn of the read loop with a line; after an error of the port there is no line.
  unfoldable pub read_line : Lines R → Time → Option String → Link R → Link R
  unfolding telemetry_of on_telemetry
  read_line lines now none l = l
  read_line lines now (some line) l =
      let seen : Link R = record l { last_seen = now } in
      elim (telemetry_of lines line) [ none ↦ seen | some t ↦ on_telemetry now t seen ]

  -- A tick of the goroutine that pings; the error of the write is dropped.
  unfoldable pub send_ping : Link R → Link R
  send_ping l = record l { sent = ping ∷ l.sent }

  -- drv.SetValve(f.ID, false) for each fermenter, with the errors dropped. `accepted id` says whether a
  -- line for that id goes out; with the simulator none does.
  unfoldable pub send_closed : (String → Bool) → List (Fermenter R) → List Command → List Command
  send_closed accepted [] sent = sent
  send_closed accepted (x ∷ xs) sent =
      send_closed accepted xs (if accepted x.id then valve_command x.id false ∷ sent else sent)

  -- A tick of the watchdog.
  unfoldable pub watch : Time → (String → Bool) → Bool → Link R → Link R
  unfolding close_all send_closed add_event
  watch now accepted refused l =
      if ltb_ℤ telemetry_limit (since now l.last_telem)
      then record l {
        sys = close_all l.sys;
        sent = send_closed accepted l.sys.fv l.sent;
        db = add_event now refused "serial_timeout" "" "no telemetry >30s; all valves closed" l.db;
      }
      else l

-- What happens on the link: lines that arrive, and ticks of the two timers.
pub data Occasion : Type 0 where
  line_at : Time → Option String → Occasion
  ping_at : Time → Occasion
  watch_at : Time → (String → Bool) → Bool → Occasion

module _ {R : Type 0} where
  unfoldable pub happen : Lines R → Occasion → Link R → Link R
  unfolding read_line send_ping watch
  happen lines (line_at now line) l = read_line lines now line l
  happen lines (ping_at now) l = send_ping l
  happen lines (watch_at now accepted refused) l = watch now accepted refused l

  unfoldable pub run : Lines R → List Occasion → Link R → Link R
  unfolding happen
  run lines [] l = l
  run lines (o ∷ os) l = run lines os (happen lines o l)
