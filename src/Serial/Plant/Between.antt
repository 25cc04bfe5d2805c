-- ===== src/Serial/Plant/Between.antt =====
-- The watchdog between the two parts of a tick: the mutex is free while a controller calls its driver.
use phb_open_ferm.Prelude.{
  ℕ, zero, suc, String, ◌≡◌, refl, ap, ◌∙◌, true, false, some, List, [], ◌∷◌, get_elem?, arith,
  All-get_elem?, get_elem?-set_same, subst,
}
use mathlib.Core.Option.{some-injective}
use phb_open_ferm.Time.{Time}
use phb_open_ferm.Float64.{Float64}
use phb_open_ferm.Control.{Fermenter, SystemState, valve_open, valve_closed}
use phb_open_ferm.Control.Tick.{Plan, change, plan_tick, begin_tick, finish_tick, commit, settle}
use phb_open_ferm.Control.Tick.Frame.{SameSettings-plan_tick}
use phb_open_ferm.Control.Operations.{close_all}
use phb_open_ferm.Control.Run.{begin_tick_at, finish_tick_at}
use phb_open_ferm.Serial.Plant.{Plant, call, shut_on, told}
use phb_open_ferm.Serial.Plant.Labels.{get_elem?-labels}
use phb_open_ferm.Serial.Plant.Mirror.{Shows, shut_shown, shut_fleet}

module _ {R : Type 0} ⦃f : Float64 R⦄ where
  -- A tick up to its call, the call's line, and then the watchdog.
  abbrev pub interrupted : Time → ℕ → Fermenter R → Plant R → Plant R × Plan
  interrupted now i x p =
      let begun = begin_tick now false i p.sys in
      let called : Plant R = record {
        sys = begun.0;
        device = (call true x.id begun.1 p.device).0;
      } in
      (shut_on (λ _. true) called, begun.1)

  get_elem?-shut_fleet :
      (xs : List (Fermenter R)) (i : ℕ) {x : Fermenter R}
      → get_elem? xs i ≡ some x
      → get_elem? (shut_fleet xs) i ≡ some (record x { valve = valve_closed })
  get_elem?-shut_fleet [] i e = absurd (ground (arith, e))
  get_elem?-shut_fleet (y ∷ xs) zero {x} e =
      let here : y ≡ x = some-injective _ _ e in
      ap (λ (z : Fermenter R). some (record z { valve = valve_closed })) here
  get_elem?-shut_fleet (y ∷ xs) (suc i) e = get_elem?-shut_fleet xs i e

  -- Whenever a tick has sent a valve the line to open and the watchdog closes all valves before the
  -- tick goes on, the state tells afterwards that the valve is open, while the device was last told to
  -- close it.
  pub interrupted_tick_parts :
      (now : Time) (i : ℕ) (x : Fermenter R) (p : Plant R)
      → get_elem? p.sys.fv i ≡ some x
      → (plan_tick now false p.sys x).1 ≡ change valve_open
      → let (q, plan) = interrupted now i x p in
        ((y : Fermenter R) × (get_elem? (finish_tick now false plan true i q.sys).fv i ≡ some y)
          × (y.valve ≡ valve_open))
        × (told x.id q.device.wire ≡ valve_closed)
  unfolding shut_on close_all commit
  interrupted_tick_parts now i x p at opens =
      let x' = (plan_tick now false p.sys x).0 in
      let begun = begin_tick now false i p.sys in
      let own : x'.id ≡ x.id = (SameSettings-plan_tick now false p.sys x).id in
      let plan : begun.1 ≡ change valve_open =
        ap (λ (b : SystemState R × Plan). b.1) (begin_tick_at now false i p.sys x at) ∙ opens in
      let placed : get_elem? begun.0.fv i ≡ some x' =
        ap (λ (b : SystemState R × Plan). get_elem? b.0.fv i) (begin_tick_at now false i p.sys x at)
        ∙ get_elem?-set_same p.sys.fv i x' at in
      let shut = get_elem?-shut_fleet begun.0.fv i placed in
      let y : Fermenter R = record x' { valve = valve_closed } in
      let q = (interrupted now i x p).0.sys in
      let d = (call true x.id begun.1 p.device).0 in
      (
        (
          settle now valve_open y,
          ap (λ (s : SystemState R). get_elem? s.fv i)
                (finish_tick_at now false begun.1 true i q y shut)
              ∙ get_elem?-set_same q.fv i (commit now false begun.1 true y) shut
              ∙ ap (λ (k : Plan). some (commit now false k true y)) plan,
          refl,
        ),
        subst (λ (k : String). told k (interrupted now i x p).0.device.wire ≡ valve_closed) own
            (All-get_elem? (Shows (interrupted now i x p).0.device.wire) _ i
              (shut_shown begun.0.fv d) (get_elem?-labels (shut_fleet begun.0.fv) i shut)),
      )
