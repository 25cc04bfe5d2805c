-- ===== src/Control/Tick.antt =====
-- `RunController`: what one tick of a fermenter's controller does. The mutex is released around the
-- driver call, so a tick is two locked parts: `plan_tick` up to the call, and `commit` after it.
pub mod Frame
pub mod FailSafe
pub mod Overrides
pub mod Hysteresis
use phb_open_ferm.Prelude.{
  ℕ, String, Bool, true, false, not, ◌&&◌, ◌||◌, Option, none, some, List, [], ◌∷◌, ◌==◌, ltb,
  if◌then◌else◌, get_elem?, set,
}
use phb_open_ferm.Prelude.Int.{ℤ, pos, negsuc, ltb_ℤ, leb_ℤ}
use phb_open_ferm.Time.{Time, Duration, is_zero, after, since, minutes}
use phb_open_ferm.Float64.{Float64}
use phb_open_ferm.Control.{
  Fermenter, SystemState, mode_valve, no_override, valve_open, valve_closed,
}
use phb_open_ferm.Control.Fleet.{count_open}

-- A driver: whether it is `NoopDriver`, and whether `SetValve` returns nil.
pub record ValveDriver : Type 0 where
  pub is_noop : Bool
  pub set_valve : String → Bool → Bool

-- func (NoopDriver) SetValve(string, bool) error { return nil }
abbrev pub noop_driver : ValveDriver
noop_driver = record { is_noop = true; set_valve = λ _ _. true }

abbrev pub stale_limit : Duration
stale_limit = minutes 2

-- The driver call that a tick is about to make, if any.
pub data Plan : Type 0 where
  done : Plan
  fail_safe : Plan
  force : Bool → Plan
  change : String → Plan

abbrev pub word : Bool → String
word b = if b then valve_open else valve_closed

-- The argument of the driver call.
abbrev pub call_of : Plan → Option Bool
call_of done = none
call_of fail_safe = some false
call_of (force want) = some want
call_of (change v) = some (v == valve_open)

abbrev pub driver_ok : ValveDriver → String → Plan → Bool
driver_ok d id p = elim (call_of p) [ none ↦ true | some want ↦ d.set_valve id want ]

module _ {R : Type 0} where
  -- Expire timed override
  unfoldable pub expire : Time → Fermenter R → Fermenter R
  expire now x =
      if not (x.override.state == "")
        && (not (is_zero x.override.until) && after now x.override.until)
      then record x { override = no_override }
      else x

  unfoldable pub is_stale : Time → Fermenter R → Bool
  is_stale now x = not (is_zero x.last_update) && ltb_ℤ stale_limit (since now x.last_update)

  -- (wantOpen && fv.Valve != "open") || (!wantOpen && fv.Valve != "closed")
  abbrev pub must_move : Bool → Fermenter R → Bool
  must_move want x =
      (want && not (x.valve == valve_open)) || (not want && not (x.valve == valve_closed))

  abbrev pub plan_force : Bool → Fermenter R → Plan
  plan_force want x = if must_move want x then force want else done

  -- fv.Valve = …; fv.lastChange = now; fv.allowImmediate = false
  abbrev pub settle : Time → String → Fermenter R → Fermenter R
  settle now v x = record x { valve = v; last_change = now; allow_immediate = false }

module _ {R : Type 0} ⦃f : Float64 R⦄ where
  -- Simulation drift if Noop driver
  unfoldable pub drift : Bool → Fermenter R → Fermenter R
  drift noop x =
      let moved =
        if x.valve == valve_open
        then f.sub x.beer_c (f.decimal (pos 5) 2)
        else f.add x.beer_c (f.decimal (pos 2) 2) in
      let low = f.decimal (negsuc 4) 0 in
      let high = f.decimal (pos 30) 0 in
      let raised = if f.lt moved low then low else moved in
      if noop then record x { beer_c = if f.lt high raised then high else raised } else x

  abbrev pub need_open : Fermenter R → Bool
  need_open x = f.lt (f.add x.target_c x.band_c) x.beer_c

  abbrev pub need_close : Fermenter R → Bool
  need_close x = f.lt x.beer_c (f.sub x.target_c x.band_c)

  abbrev pub can_open_more : SystemState R → Bool
  can_open_more s = leb_ℤ s.max_open (pos 0) || ltb_ℤ (pos (count_open s.fv)) s.max_open

  abbrev pub is_ready : Time → Fermenter R → Bool
  is_ready now x = x.allow_immediate || ltb_ℤ x.min_change (since now x.last_change)

  -- changeTo: "open", "closed" or empty.
  unfoldable pub change_to : Time → SystemState R → Fermenter R → String
  change_to now s x =
      let ready = is_ready now x in
      let opening =
        if ready && (need_open x && (not (x.valve == valve_open) && can_open_more s))
        then valve_open
        else "" in
      if ready && (need_close x && not (x.valve == valve_closed)) then valve_closed else opening

  -- Hysteresis, with the drift of the simulator where no valve moves.
  unfoldable pub plan_auto : Time → Bool → SystemState R → Fermenter R → Fermenter R × Plan
  plan_auto now noop s x =
      let to = change_to now s x in if not (to == "") then (x, change to) else (drift noop x, done)

  -- Up to the driver call, once the override has been looked at.
  unfoldable pub plan_current : Time → Bool → SystemState R → Fermenter R → Fermenter R × Plan
  plan_current now noop s x =
      if is_stale now x && not (x.valve == valve_closed)
      then (x, fail_safe)
      else if x.mode == mode_valve
      then (if x.override.state == valve_open || x.override.state == valve_closed
          then (x, plan_force (x.override.state == valve_open) x)
          else (x, done))
      else if not (x.override.state == "")
      then (x, plan_force (x.override.state == valve_open) x)
      else plan_auto now noop s x

  -- The tick of a fermenter up to its driver call.
  unfoldable pub plan_tick : Time → Bool → SystemState R → Fermenter R → Fermenter R × Plan
  plan_tick now noop s x = plan_current now noop s (expire now x)

  -- The tick after its driver call; `sent` says that the call returned nil.
  unfoldable pub commit : Time → Bool → Plan → Bool → Fermenter R → Fermenter R
  commit now noop done sent x = x
  commit now noop fail_safe sent x = settle now valve_closed x
  commit now noop (force want) sent x = settle now (word want) x
  commit now noop (change v) sent x = if sent then settle now v x else drift noop x

  -- The first locked part, on the fermenter at an index of the system.
  unfoldable pub begin_tick : Time → Bool → ℕ → SystemState R → SystemState R × Plan
  begin_tick now noop i s = elim (get_elem? s.fv i) [
    | none ↦ (s, done)
    | some x ↦
        (let planned = plan_tick now noop s x in
          (record s { fv = set s.fv i planned.0 }, planned.1))
  ]

  -- The second one.
  unfoldable pub finish_tick : Time → Bool → Plan → Bool → ℕ → SystemState R → SystemState R
  finish_tick now noop p sent i s = elim (get_elem? s.fv i) [
    | none ↦ s
    | some x ↦ record s { fv = set s.fv i (commit now noop p sent x) }
  ]

  -- One fermenter's tick with nothing in between.
  unfoldable pub tick_fermenter : ValveDriver → Time → SystemState R → Fermenter R → Fermenter R
  tick_fermenter d now s x =
      let planned = plan_tick now d.is_noop s x in
      commit now d.is_noop planned.1 (driver_ok d x.id planned.1) planned.0

  unfoldable pub tick : ValveDriver → Time → ℕ → SystemState R → SystemState R
  tick d now i s = elim (get_elem? s.fv i) [
    | none ↦ s
    | some x ↦
        (let begun = begin_tick now d.is_noop i s in
          finish_tick now d.is_noop begun.1 (driver_ok d x.id begun.1) i begun.0)
  ]
