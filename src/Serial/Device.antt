-- ===== src/Serial/Device.antt =====
-- The `Device` of runtime-pi/internal/arduino/arduino.go. Of the port, what serial.Open, Write and Close
-- return are arguments; a write that fails leaves no whole line, so nothing that the firmware reads.
-- The mutex of `send` keeps the lines whole, so the wire is a list of commands, the latest first.
use phb_open_ferm.Prelude.{
  String, ◌≡◌, Bool, true, false, not, Option, none, some, List, [], ◌∷◌, ◌==◌, if◌then◌else◌,
  arith,
}
use phb_open_ferm.Prelude.Int.{ℤ, pos, eqb_ℤ, ltb_ℤ}
use phb_open_ferm.Time.{Time, Duration, since}
use phb_open_ferm.Serial.{Command, ping, valve_command}

pub record Device : Type 0 where
  pub last_seen : Time
  pub is_closed : Bool
  pub wire : List Command

abbrev baud_of : ℤ → ℤ
baud_of baud = if eqb_ℤ baud (pos 0) then pos 115200 else baud

-- `opened` is the result of serial.Open; `none` is its error.
unfoldable pub open_device : (String → ℤ → Bool) → Time → String → ℤ → Option Device
open_device opened now dev baud =
    if opened dev (baud_of baud)
    then some (record { last_seen = now; is_closed = false; wire = [] })
    else none

-- The driver of `main`: a device, or `none` for the simulator.
unfoldable pub choose_driver : (String → ℤ → Bool) → Time → String → ℤ → Option Device
unfolding open_device
choose_driver opened now dev baud =
    if not (dev == "") then open_device opened now dev baud else none

-- The second component says that the call returned nil.
unfoldable pub send : Bool → Command → Device → Device × Bool
send accepted c d = if accepted then (record d { wire = c ∷ d.wire }, true) else (d, false)

unfoldable pub set_valve_on : Bool → String → Bool → Device → Device × Bool
unfolding send
set_valve_on accepted fv_id opened d = send accepted (valve_command fv_id opened) d

-- `close` of a channel; `none` is the panic on one that is closed.
abbrev close_channel : Device → Option Device
close_channel d = if d.is_closed then none else some (record d { is_closed = true })

-- The select looks whether the channel is closed already.
unfoldable pub close : Bool → Device → Option (Device × Bool)
close port_closed d = elim (if d.is_closed then some d else close_channel d) [
  | none ↦ none
  | some d' ↦ some (d', port_closed)
]

abbrev quiet_limit : Duration
quiet_limit = pos 15_000_000_000

-- A turn of the goroutine that pings: a tick of its timer, or the closed channel, by which it ends. A
-- tick says whether it logs that no data comes.
unfoldable pub ping_tick : Time → Bool → Device → Device × Bool
unfolding send
ping_tick now accepted d = ((send accepted ping d).0, ltb_ℤ quiet_limit (since now d.last_seen))

pub data Pinger : Type 0 where
  running : Pinger
  ended : Pinger

pub data PingTurn (d : Device) : Pinger → Device → Pinger → Type 0 where
  ticks : (now : Time) (accepted : Bool) → PingTurn d running (ping_tick now accepted d).0 running
  ends : d.is_closed ≡ true → PingTurn d running d ended

-- `Close` may be called again: it never closes the channel twice, and returns what the port says.
pub close_lem :
    (port_closed : Bool) (d : Device)
    → close port_closed d ≡ some (record d { is_closed = true }, port_closed)
unfolding close
close_lem port_closed d = ground arith
