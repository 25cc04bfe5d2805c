-- ===== src/Serial/Plant.antt =====
-- The controllers over a device, as runtime-pi/cmd/fermenter/main.go puts them together: a tick's call of
-- the driver is a line on the wire. Ticks and the other operations follow each other in any order, each
-- with nothing in between.
pub mod Labels
pub mod Mirror
pub mod Refused
pub mod Between
use phb_open_ferm.Prelude.{
  ℕ, String, ◌≡◌, refl, Bool, true, false, none, some, List, [], ◌∷◌, ◌==◌, if◌then◌else◌,
  get_elem?, Option-cases, inl, inr,
}
use phb_open_ferm.Time.{Time}
use phb_open_ferm.Float64.{Float64}
use phb_open_ferm.Control.{Fermenter, SystemState, valve_open, valve_closed}
use phb_open_ferm.Control.Tick.{
  ValveDriver, Plan, done, fail_safe, force, change, call_of, driver_ok, begin_tick, finish_tick,
  tick,
}
use phb_open_ferm.Control.Operations.{Operation, closes_all, perform, close_all}
use phb_open_ferm.Serial.{Command, ping, set_valve}
use phb_open_ferm.Serial.Device.{Device, send, set_valve_on, ping_tick}

pub record Plant (R : Type 0) : Type 0 where
  pub sys : SystemState R
  pub device : Device

-- The call of a tick that a plan asks for, if any.
unfoldable pub call : Bool → String → Plan → Device → Device × Bool
unfolding set_valve_on
call accepted id p d = elim (call_of p) [
  | none ↦ (d, true)
  | some want ↦ set_valve_on accepted id want d
]

module _ {R : Type 0} where
  -- The driver calls of the watchdog, whose errors are dropped.
  unfoldable pub shut_each : (String → Bool) → List (Fermenter R) → Device → Device
  unfolding set_valve_on
  shut_each accepted [] d = d
  shut_each accepted (x ∷ xs) d =
      shut_each accepted xs (set_valve_on (accepted x.id) x.id false d).0

module _ {R : Type 0} ⦃f : Float64 R⦄ where
  -- A tick of the controller at an index; `accepted` says that the port takes its line, if it sends one.
  unfoldable pub tick_on : Bool → Time → ℕ → Plant R → Plant R
  unfolding call
  tick_on accepted now i p = elim (get_elem? p.sys.fv i) [
    | none ↦ p
    | some x ↦
        (let begun = begin_tick now false i p.sys in
          let called = call accepted x.id begun.1 p.device in
          record { sys = finish_tick now false begun.1 called.1 i begun.0; device = called.0 })
  ]

  -- The watchdog when no telemetry comes.
  unfoldable pub shut_on : (String → Bool) → Plant R → Plant R
  unfolding shut_each
  shut_on accepted p = record {
    sys = close_all p.sys;
    device = shut_each accepted p.sys.fv p.device;
  }

  unfoldable pub perform_on : Operation R → Plant R → Plant R
  unfolding shut_on
  perform_on closes_all p = shut_on (λ _. true) p
  perform_on o p = record p { sys = perform o p.sys }

-- What happens at the plant. The port takes every line, but for the ticks' where it says otherwise.
pub data Happening (R : Type 0) : Type 0 where
  ticks : Bool → Time → ℕ → Happening R
  pings : Time → Happening R
  performs : Operation R → Happening R

abbrev driver_of : Bool → ValveDriver
driver_of accepted = record { is_noop = false; set_valve = λ _ _. accepted }

set_valve_on-answer :
    (accepted : Bool) (id : String) (want : Bool) (d : Device)
    → (set_valve_on accepted id want d).1 ≡ accepted
unfolding set_valve_on send
set_valve_on-answer true id want d = refl
set_valve_on-answer false id want d = refl

call_ok :
    (accepted : Bool) (id : String) (p : Plan) (d : Device)
    → (call accepted id p d).1 ≡ driver_ok (driver_of accepted) id p
unfolding call
call_ok accepted id done d = refl
call_ok accepted id fail_safe d = set_valve_on-answer accepted id false d
call_ok accepted id (force want) d = set_valve_on-answer accepted id want d
call_ok accepted id (change v) d = set_valve_on-answer accepted id (v == valve_open) d

module _ {R : Type 0} ⦃f : Float64 R⦄ where
  unfoldable pub happen : Happening R → Plant R → Plant R
  unfolding tick_on perform_on
  happen (ticks accepted now i) p = tick_on accepted now i p
  happen (pings now) p = record p { device = (ping_tick now true p.device).0 }
  happen (performs o) p = perform_on o p

  unfoldable pub run : List (Happening R) → Plant R → Plant R
  unfolding happen
  run [] p = p
  run (h ∷ hs) p = run hs (happen h p)

  -- On the system a tick over the device is a tick over a driver that answers as the port does.
  pub tick_on-tick :
      (accepted : Bool) (now : Time) (i : ℕ) (p : Plant R)
      → (tick_on accepted now i p).sys ≡ tick (driver_of accepted) now i p.sys
  unfolding tick_on tick
  tick_on-tick accepted now i p = elim (Option-cases (get_elem? p.sys.fv i)) [
    | inl e ↦ rw (e, tick, tick_on)
    | inr (x, e) ↦
        rw (e, tick, tick_on)
          (rw (call_ok accepted x.id (begin_tick now false i p.sys).1 p.device) refl)
  ]

  pub tick_on_nowhere :
      (accepted : Bool) (now : Time) (i : ℕ) (p : Plant R)
      → get_elem? p.sys.fv i ≡ none
      → tick_on accepted now i p ≡ p
  unfolding tick_on
  tick_on_nowhere accepted now i p e = rw (e, tick_on)

-- The last state that the wire tells a fermenter's valve; a valve that was told nothing is closed.
unfoldable pub told : String → List Command → String
told id [] = valve_closed
told id (ping ∷ cs) = told id cs
told id (set_valve j st ∷ cs) = if j == id then st else told id cs
