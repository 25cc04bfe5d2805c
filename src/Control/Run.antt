-- ===== src/Control/Run.antt =====
-- Ticks of all controllers in some order, each tick with nothing in between.
pub mod Cycling
pub mod Capacity
use phb_open_ferm.Prelude.{
  ℕ, zero, suc, ◌<◌, String, ◌≡◌, ◌≢◌, refl, ap, ◌∙◌, sym, ◌⊎◌, inl, inr, Bool, Option, none, some,
  List, [], ◌∷◌, arith, get_elem?, set, length, get_elem?-set_same, set-set, get_elem?-set_ne,
  Option-cases,
}
use phb_open_ferm.Time.{Time}
use phb_open_ferm.Float64.{Float64}
use phb_open_ferm.Control.{Fermenter, SystemState}
use phb_open_ferm.Control.Tick.{
  ValveDriver, Plan, tick, tick_fermenter, plan_tick, begin_tick, finish_tick, commit, driver_ok,
}

-- One tick: of which fermenter's controller, when, and over which driver.
pub record Turn : Type 0 where
  pub index : ℕ
  pub now : Time
  pub driver : ValveDriver

module _ {R : Type 0} ⦃f : Float64 R⦄ where
  unfoldable pub run : List Turn → SystemState R → SystemState R
  run [] s = s
  run (t ∷ ts) s = run ts (tick t.driver t.now t.index s)

  -- The two locked parts at an index that has a fermenter.
  pub begin_tick_at :
      (now : Time) (noop : Bool) (i : ℕ) (s : SystemState R) (x : Fermenter R)
      → get_elem? s.fv i ≡ some x
      → begin_tick now noop i s
        ≡ (record s { fv = set s.fv i (plan_tick now noop s x).0 }, (plan_tick now noop s x).1)
  unfolding begin_tick
  begin_tick_at now noop i s x e = rw (e, begin_tick)

  pub finish_tick_at :
      (now : Time) (noop : Bool) (p : Plan) (sent : Bool) (i : ℕ) (s : SystemState R)
      (x : Fermenter R)
      → get_elem? s.fv i ≡ some x
      → finish_tick now noop p sent i s ≡ record s { fv = set s.fv i (commit now noop p sent x) }
  unfolding finish_tick
  finish_tick_at now noop p sent i s x e = rw (e, finish_tick)

  -- A tick is the fermenter's tick at its place in the list.
  pub tick_at :
      (d : ValveDriver) (now : Time) (i : ℕ) (s : SystemState R) (x : Fermenter R)
      → get_elem? s.fv i ≡ some x
      → tick d now i s ≡ record s { fv = set s.fv i (tick_fermenter d now s x) }
  unfolding tick tick_fermenter
  tick_at d now i s x e =
      rw (e, tick)
        (rw (begin_tick_at now d.is_noop i s x e) (
          finish_tick_at now d.is_noop _ _ i _ _ (get_elem?-set_same s.fv i _ e)
          ∙ rw (set-set s.fv i (plan_tick now d.is_noop s x).0)))

  pub tick_nowhere :
      (d : ValveDriver) (now : Time) (i : ℕ) (s : SystemState R)
      → get_elem? s.fv i ≡ none
      → tick d now i s ≡ s
  unfolding tick
  tick_nowhere d now i s e = rw (e, tick)

  -- A tick of one controller leaves the fermenters of the others as they are.
  pub tick_elsewhere :
      (d : ValveDriver) (now : Time) (i j : ℕ) (s : SystemState R)
      → i ≢ j
      → get_elem? (tick d now i s).fv j ≡ get_elem? s.fv j
  tick_elsewhere d now i j s other = elim (Option-cases (get_elem? s.fv i)) [
    | inl e ↦ rw (tick_nowhere d now i s e)
    | inr (x, e) ↦ rw (tick_at d now i s x e) (get_elem?-set_ne s.fv _ other)
  ]

  -- And the fermenter of its own gets that fermenter's tick.
  pub tick_here :
      (d : ValveDriver) (now : Time) (i : ℕ) (s : SystemState R) (x : Fermenter R)
      → get_elem? s.fv i ≡ some x
      → get_elem? (tick d now i s).fv i ≡ some (tick_fermenter d now s x)
  tick_here d now i s x e = rw (tick_at d now i s x e) (get_elem?-set_same s.fv i _ e)

  pub max_open-tick :
      (d : ValveDriver) (now : Time) (i : ℕ) (s : SystemState R)
      → (tick d now i s).max_open ≡ s.max_open
  max_open-tick d now i s = elim (Option-cases (get_elem? s.fv i)) [
    | inl e ↦ rw (tick_nowhere d now i s e)
    | inr (x, e) ↦ rw (tick_at d now i s x e)
  ]
