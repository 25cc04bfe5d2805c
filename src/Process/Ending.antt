-- ===== src/Process/Ending.antt =====
-- The last part of runtime-pi/cmd/fermenter/main.go: the HTTP listener, the systemd watchdog and the
-- shutdown. What ListenAndServe, SdWatchdogEnabled and the port's Close return are arguments.
use Prim.Native.String.{◌++◌}
use phb_open_ferm.Prelude.{
  ℕ, String, ◌≡◌, refl, ◌∙◌, Bool, true, false, ◌&&◌, ◌/◌, Option, none, some, List, if◌then◌else◌,
  All, All-get_elem?, get_elem?,
}
use phb_open_ferm.Prelude.Int.{pos, ltb_ℤ, pos_part}
use phb_open_ferm.Time.{Duration}
use phb_open_ferm.Float64.{Float64}
use phb_open_ferm.Control.{Fermenter, valve_open}
use phb_open_ferm.Serial.Device.{Device, close, close_lem}
use phb_open_ferm.Serial.Plant.{Plant, Happening, run, told}
use phb_open_ferm.Serial.Plant.Labels.{labels, get_elem?-labels}
use phb_open_ferm.Serial.Plant.Mirror.{IsMirrored, IsTaken, Shows, run-IsMirrored}

-- What ListenAndServe returns: nil, ErrServerClosed, or another error.
pub data Served : Type 0 where
  returned server_closed : Served
  listen_error : String → Served

-- By what `main` ends: a signal, with whether the port's Close returns nil, or log.Fatalf.
pub data Ending : Type 0 where
  signalled : Bool → Ending
  fails : String → Ending

-- What `main` holds, to be released by its deferred calls.
pub record Held : Type 0 where
  pub driver : Option Device
  pub store_open : Bool

pub record Exit : Type 0 where
  pub text : Option String
  pub held : Held

-- The goroutine of the listener; `none` if the program goes on.
unfoldable pub listen : Served → Option Ending
listen returned = none
listen server_closed = none
listen (listen_error e) = some (fails ("http: " ++ e))

-- dev.Close, deferred where a device was opened. `none` is a panic.
unfoldable release_driver : Bool → Option Device → Option (Option Device)
unfolding close
release_driver port_closed none = some none
release_driver port_closed (some d) = elim (close port_closed d) [
  | none ↦ none
  | some (d', closed) ↦ some (some d')
]

-- The deferred calls, the latest first: that of the device, then st.Close.
unfoldable pub release : Bool → Held → Option Held
unfolding release_driver
release port_closed h = elim (release_driver port_closed h.driver) [
  | none ↦ none
  | some driver' ↦ some (record { driver = driver'; store_open = false })
]

-- log.Fatalf leaves by os.Exit, which runs no deferred call.
unfoldable pub finish : Ending → Held → Option Exit
unfolding release
finish (signalled port_closed) h = elim (release port_closed h) [
  | none ↦ none
  | some h' ↦ some (record { text = none; held = h' })
]
finish (fails e) h = some (record { text = some e; held = h })

-- The period of the notifications to systemd, half its interval, if it asks for any. `asked` says that
-- SdWatchdogEnabled returned no error.
unfoldable pub notify_every : Duration → Bool → Option Duration
notify_every interval asked =
    if asked && ltb_ℤ (pos 0) interval then some (pos (pos_part interval / 2)) else none

abbrev pub shut_down : Option Device → Option Device
shut_down none = none
shut_down (some d) = some (record d { is_closed = true })

-- What is left: after a signal the database is closed, and the device with nothing more sent to it;
-- after a failure of the listener both are as they were.
abbrev pub left : Ending → Held → Held
left (signalled port_closed) h = record { driver = shut_down h.driver; store_open = false }
left (fails e) h = h

abbrev pub parting : Ending → Option String
parting (signalled port_closed) = none
parting (fails e) = some e

release_driver_lem :
    (port_closed : Bool) (o : Option Device) → release_driver port_closed o ≡ some (shut_down o)
unfolding release_driver
release_driver_lem port_closed none = refl
release_driver_lem port_closed (some d) = rw (release_driver, close_lem port_closed d) refl

-- The end never panics, whether or not there is a device: a signal ends the program without a text,
-- with the database closed, and the device closed with nothing more sent to it; a listener that fails
-- ends it with a text, and leaves the database and the device as they are.
pub finish_exact :
    (e : Ending) (h : Held) → finish e h ≡ some (record { text = parting e; held = left e h })
unfolding finish release
finish_exact (signalled port_closed) h =
    rw (finish, release, release_driver_lem port_closed h.driver) refl
finish_exact (fails e) h = refl

module _ {R : Type 0} ⦃f : Float64 R⦄ where
  -- After whatever ticks, pings, requests and interventions of the watchdog over a device whose port
  -- takes every line, from a state that told of each valve what the device was last told: if the state
  -- then tells a valve to be open, any end of the program leaves the device with that valve last told
  -- to open.
  pub finish_leaves_open :
      (es : List (Happening R)) (p : Plant R) (i : ℕ) (x : Fermenter R) (e : Ending)
      → All IsTaken es
      → IsMirrored p
      → get_elem? (run es p).sys.fv i ≡ some x
      → x.valve ≡ valve_open
      → (out : Exit) × (d : Device) × (finish e
            (record { driver = some (run es p).device; store_open = true })
          ≡ some out)
        × (out.held.driver ≡ some d)
        × (told x.id d.wire ≡ valve_open)
  finish_leaves_open es p i x e taken mirrored here opened =
      let q = run es p in
      let h : Held = record { driver = some q.device; store_open = true } in
      let shown : told x.id q.device.wire ≡ x.valve =
        All-get_elem? (Shows q.device.wire) (labels q.sys.fv) i
          (run-IsMirrored es p taken mirrored).shown (get_elem?-labels q.sys.fv i here) in
      elim e
        as (λ (e' : Ending).
          (out : Exit) × (d : Device) × (finish e' h ≡ some out)
          × (out.held.driver ≡ some d)
          × (told x.id d.wire ≡ valve_open)) [
            | signalled port_closed ↦ (
              _,
              record q.device { is_closed = true },
              finish_exact (signalled port_closed) h,
              refl,
              shown ∙ opened,
            )
            | fails text ↦ (_, q.device, finish_exact (fails text) h, refl, shown ∙ opened)
          ]
