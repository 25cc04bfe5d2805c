-- ===== src/Control/Run/Cycling.antt =====
-- The least time between two changes of a valve, over any order of ticks.
use phb_open_ferm.Prelude.{
  ℕ, ◌≡◌, ◌≢◌, refl, ap, ◌∙◌, sym, false, some, List, [], ◌∷◌, get_elem?, All,
}
use phb_open_ferm.Prelude.Int.{ltb_ℤ}
use phb_open_ferm.Time.{Time, since}
use phb_open_ferm.Float64.{Float64}
use native.Mathlib.Decide.{ℕ_discrete}
use phb_open_ferm.Control.{ValveOverride, Fermenter, SystemState, mode_valve}
use phb_open_ferm.Control.Tick.{is_stale, tick_fermenter, drift, tick}
use phb_open_ferm.Control.Tick.Frame.{
  drift-valve, drift-override, drift-last_change, drift-allow_immediate,
  SameSettings-tick_fermenter,
}
use phb_open_ferm.Control.Tick.Hysteresis.{IsAutomatic, auto_waits}
use phb_open_ferm.Control.Run.{Turn, run, tick_elsewhere, tick_here}

-- What the ticks of a fermenter keep while it waits after a change.
record IsWaiting {R : Type 0} (x y : Fermenter R) : Type 0 where
  valve : y.valve ≡ x.valve
  last_change : y.last_change ≡ x.last_change
  last_update : y.last_update ≡ x.last_update
  min_change : y.min_change ≡ x.min_change
  mode : y.mode ≡ x.mode
  allow_immediate : y.allow_immediate ≡ x.allow_immediate
  override : y.override ≡ x.override

module _ {R : Type 0} where
  -- A turn within the waiting time of `x`, while its sensor is fresh.
  pub record IsEarly (x : Fermenter R) (t : Turn) : Type 0 where
    pub early : ltb_ℤ x.min_change (since t.now x.last_change) ≡ false
    pub fresh : is_stale t.now x ≡ false

module _ {R : Type 0} ⦃f : Float64 R⦄ (x : Fermenter R) (m : x.mode ≢ mode_valve)
    (o : x.override.state ≡ "") (a : x.allow_immediate ≡ false) where
  waits-IsAutomatic :
      (now : Time) (y : Fermenter R) → is_stale now x ≡ false → IsWaiting x y → IsAutomatic now y
  unfolding is_stale
  waits-IsAutomatic now y fresh w = record {
    fresh = rw w.last_update fresh;
    mode_not_valve = λ e. m (sym w.mode ∙ e);
    free = ap (λ (v : ValveOverride). v.state) w.override ∙ o;
  }

  waits_one :
      (t : Turn) (s : SystemState R) (y : Fermenter R)
      → IsEarly x t
      → IsWaiting x y
      → IsWaiting x (tick_fermenter t.driver t.now s y)
  waits_one t s y e w =
      let n = t.driver.is_noop in
      let kept : tick_fermenter t.driver t.now s y ≡ drift n y =
        auto_waits t.driver t.now s y (waits-IsAutomatic t.now y e.fresh w)
          (rw (w.allow_immediate, a, w.min_change, w.last_change) e.early) in
      let same = SameSettings-tick_fermenter t.driver t.now s y in
      record {
        valve = ap (λ (z : Fermenter R). z.valve) kept ∙ drift-valve n y ∙ w.valve;
        last_change =
            ap (λ (z : Fermenter R). z.last_change) kept ∙ drift-last_change n y ∙ w.last_change;
        last_update = same.last_update ∙ w.last_update;
        min_change = same.min_change ∙ w.min_change;
        mode = same.mode ∙ w.mode;
        allow_immediate =
            ap (λ (z : Fermenter R). z.allow_immediate) kept
            ∙ drift-allow_immediate n y
            ∙ w.allow_immediate;
        override = ap (λ (z : Fermenter R). z.override) kept ∙ drift-override n y ∙ w.override;
      }

  waits_run :
      (i : ℕ) (ts : List Turn) (s : SystemState R) (y : Fermenter R)
      → get_elem? s.fv i ≡ some y
      → IsWaiting x y
      → All (λ t. t.index ≡ i → IsEarly x t) ts
      → (z : Fermenter R) × (get_elem? (run ts s).fv i ≡ some z) × IsWaiting x z
  unfolding run
  waits_run i [] s y e w h = (y, e, w)
  waits_run i (t ∷ ts) s y e w h = elim (ℕ_discrete t.index i) [
    | yes same ↦
        waits_run i ts (tick t.driver t.now t.index s) (tick_fermenter t.driver t.now s y)
          (rw same (tick_here t.driver t.now i s y e)) (waits_one t s y (h.0 same) w) h.1
    | no other ↦
        waits_run i ts (tick t.driver t.now t.index s) y
          (tick_elsewhere t.driver t.now t.index i s other ∙ e) w h.1
  ]

  -- Automatic control does not cycle a valve quickly: from a fermenter in a mode other than valve,
  -- without an override and with no immediate change due, whatever the other controllers do, no run
  -- of ticks moves its valve while its own ticks fall within the least time since its last change
  -- and its sensor is fresh.
  pub no_short_cycling :
      (i : ℕ) (ts : List Turn) (s : SystemState R)
      → get_elem? s.fv i ≡ some x
      → All (λ t. t.index ≡ i → IsEarly x t) ts
      → (z : Fermenter R) × (get_elem? (run ts s).fv i ≡ some z)
        × (z.valve ≡ x.valve)
        × (z.last_change ≡ x.last_change)
  no_short_cycling i ts s e h =
      let (z, at, w) =
        waits_run i ts s x e
          (record {
            valve = refl;
            last_change = refl;
            last_update = refl;
            min_change = refl;
            mode = refl;
            allow_immediate = refl;
            override = refl;
          })
          h in
      (z, at, w.valve, w.last_change)
