-- ===== src/Control/Tick/Frame.antt =====
-- Which fields a tick can change, and the plans that it makes.
use phb_open_ferm.Prelude.{◌≡◌, refl, ◌∙◌, ◌≢◌, ◌⊎◌, inl, inr, Bool, true, false, arith}
use phb_open_ferm.Time.{is_zero, Time}
use phb_open_ferm.Float64.{Float64}
use phb_open_ferm.Control.{Fermenter, SystemState}
use phb_open_ferm.Control.Tick.{
  ValveDriver, Plan, done, fail_safe, force, change, plan_tick, plan_current, commit,
  tick_fermenter, expire, is_stale, drift, plan_auto, driver_ok,
}

module _ {R : Type 0} where
  pub id-expire : (now : Time) (x : Fermenter R) → (expire now x).id ≡ x.id
  unfolding expire
  id-expire now x = ground arith

  pub valve-expire : (now : Time) (x : Fermenter R) → (expire now x).valve ≡ x.valve
  unfolding expire
  valve-expire now x = ground arith

  -- An override with no end does not run out.
  pub expire_endless :
      (now : Time) (x : Fermenter R) → is_zero x.override.until ≡ true → expire now x ≡ x
  unfolding expire
  expire_endless now x z = ground arith

  -- An override in force after `expire` is the one before.
  pub expire_in_force :
      (now : Time) (x : Fermenter R) → (expire now x).override.state ≢ "" → expire now x ≡ x
  unfolding expire
  expire_in_force now x h = ground arith

  pub mode-expire : (now : Time) (x : Fermenter R) → (expire now x).mode ≡ x.mode
  unfolding expire
  mode-expire now x = ground arith

  pub is_stale-expire :
      (now : Time) (x : Fermenter R) → is_stale now (expire now x) ≡ is_stale now x
  unfolding expire is_stale
  is_stale-expire now x = ground arith

module _ {R : Type 0} where
  -- What the operator and the configuration set, and no tick touches.
  pub record SameSettings (x y : Fermenter R) : Type 0 where
    pub id : x.id ≡ y.id
    pub name : x.name ≡ y.name
    pub target_c : x.target_c ≡ y.target_c
    pub band_c : x.band_c ≡ y.band_c
    pub min_change : x.min_change ≡ y.min_change
    pub last_update : x.last_update ≡ y.last_update
    pub mode : x.mode ≡ y.mode
    pub override_until : x.override_until ≡ y.override_until

  SameSettings-trans :
      {x y z : Fermenter R} → SameSettings x y → SameSettings y z → SameSettings x z
  SameSettings-trans a b = ground arith

  SameSettings-expire : (now : Time) (x : Fermenter R) → SameSettings (expire now x) x
  unfolding expire
  SameSettings-expire now x = ground arith

module _ {R : Type 0} ⦃f : Float64 R⦄ where
  SameSettings-drift : (noop : Bool) (x : Fermenter R) → SameSettings (drift noop x) x
  unfolding drift
  SameSettings-drift noop x = ground arith

  pub drift-override : (noop : Bool) (x : Fermenter R) → (drift noop x).override ≡ x.override
  unfolding drift
  drift-override noop x = ground arith

  pub drift-valve : (noop : Bool) (x : Fermenter R) → (drift noop x).valve ≡ x.valve
  unfolding drift
  drift-valve noop x = ground arith

  pub drift-last_change :
      (noop : Bool) (x : Fermenter R) → (drift noop x).last_change ≡ x.last_change
  unfolding drift
  drift-last_change noop x = ground arith

  pub drift-allow_immediate :
      (noop : Bool) (x : Fermenter R) → (drift noop x).allow_immediate ≡ x.allow_immediate
  unfolding drift
  drift-allow_immediate noop x = ground arith

  -- Before the driver call a tick expires the override, and drifts where no call is due.
  plan_current_cases :
      (now : Time) (noop : Bool) (s : SystemState R) (x : Fermenter R)
      → ((plan_current now noop s x).0 ≡ x) ⊎ ((plan_current now noop s x).0 ≡ drift noop x)
  unfolding plan_current plan_auto
  plan_current_cases now noop s x = ground arith

  pub plan_tick_cases :
      (now : Time) (noop : Bool) (s : SystemState R) (x : Fermenter R)
      → ((plan_tick now noop s x).0 ≡ expire now x)
        ⊎ ((plan_tick now noop s x).0 ≡ drift noop (expire now x))
  unfolding plan_tick
  plan_tick_cases now noop s x = plan_current_cases now noop s (expire now x)

  -- A tick whose override has been looked at.
  unfoldable pub tick_current : ValveDriver → Time → SystemState R → Fermenter R → Fermenter R
  tick_current d now s x =
      let planned = plan_current now d.is_noop s x in
      commit now d.is_noop planned.1 (driver_ok d x.id planned.1) planned.0

  pub tick_fermenter-current :
      (d : ValveDriver) (now : Time) (s : SystemState R) (x : Fermenter R)
      → tick_fermenter d now s x ≡ tick_current d now s (expire now x)
  unfolding tick_fermenter plan_tick tick_current
  tick_fermenter-current d now s x = rw (id-expire now x)

  SameSettings-commit :
      (now : Time) (noop : Bool) (p : Plan) (sent : Bool) (x : Fermenter R)
      → SameSettings (commit now noop p sent x) x
  unfolding commit
  SameSettings-commit now noop done sent x = ground arith
  SameSettings-commit now noop fail_safe sent x = ground arith
  SameSettings-commit now noop (force want) sent x = ground arith
  SameSettings-commit now noop (change v) true x = ground arith
  SameSettings-commit now noop (change v) false x = SameSettings-drift noop x

  pub commit-override :
      (now : Time) (noop : Bool) (p : Plan) (sent : Bool) (x : Fermenter R)
      → (commit now noop p sent x).override ≡ x.override
  unfolding commit
  commit-override now noop done sent x = refl
  commit-override now noop fail_safe sent x = refl
  commit-override now noop (force want) sent x = refl
  commit-override now noop (change v) true x = refl
  commit-override now noop (change v) false x = drift-override noop x

  pub SameSettings-plan_tick :
      (now : Time) (noop : Bool) (s : SystemState R) (x : Fermenter R)
      → SameSettings (plan_tick now noop s x).0 x
  SameSettings-plan_tick now noop s x = elim (plan_tick_cases now noop s x) [
    | inl e ↦ rw e (SameSettings-expire now x)
    | inr e ↦
        rw e
          (SameSettings-trans (SameSettings-drift noop (expire now x)) (SameSettings-expire now x))
  ]

  pub SameSettings-tick_fermenter :
      (d : ValveDriver) (now : Time) (s : SystemState R) (x : Fermenter R)
      → SameSettings (tick_fermenter d now s x) x
  unfolding tick_fermenter
  SameSettings-tick_fermenter d now s x =
      SameSettings-trans (SameSettings-commit now d.is_noop _ _ _)
        (SameSettings-plan_tick now d.is_noop s x)

  plan_tick-override :
      (now : Time) (noop : Bool) (s : SystemState R) (x : Fermenter R)
      → (plan_tick now noop s x).0.override ≡ (expire now x).override
  plan_tick-override now noop s x =
      ground (arith, plan_tick_cases now noop s x, drift-override noop (expire now x))

  -- Whatever the mode, the sensor and the driver do, a tick drops an override that has run out and
  -- keeps any other.
  pub tick_fermenter-override :
      (d : ValveDriver) (now : Time) (s : SystemState R) (x : Fermenter R)
      → (tick_fermenter d now s x).override ≡ (expire now x).override
  unfolding tick_fermenter
  tick_fermenter-override d now s x =
      commit-override now d.is_noop _ _ _ ∙ plan_tick-override now d.is_noop s x
