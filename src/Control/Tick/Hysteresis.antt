-- ===== src/Control/Tick/Hysteresis.antt =====
-- Automatic control: the hysteresis band, the least time between changes, the limit on open valves.
use phb_open_ferm.Prelude.{
  String, ◌≡◌, ◌≢◌, refl, ◌⊎◌, inl, inr, Bool, true, false, arith, ◌==◌, if◌then◌else◌, eq_iff, ap,
  sym, ◌∙◌, Bool-cases,
}
use phb_open_ferm.Time.{Time}
use phb_open_ferm.Float64.{Float64}
use phb_open_ferm.Control.{Fermenter, SystemState, mode_valve, valve_open, valve_closed}
use phb_open_ferm.Control.Fleet.{open≢closed, empty≢open, empty≢closed}
use phb_open_ferm.Control.Invariant.{IsValve}
use phb_open_ferm.Control.Tick.{
  ValveDriver, is_stale, settle, tick_fermenter, plan_current, plan_auto, change_to, commit, expire,
  need_open, need_close, is_ready, can_open_more, drift,
}
use phb_open_ferm.Control.Tick.Frame.{drift-valve, tick_current, tick_fermenter-current}

-- The tick of this fermenter is left to the hysteresis.
pub record IsAutomatic {R : Type 0} (now : Time) (x : Fermenter R) : Type 0 where
  pub fresh : is_stale now x ≡ false
  pub mode_not_valve : x.mode ≢ mode_valve
  pub free : x.override.state ≡ ""

module _ {R : Type 0} ⦃f : Float64 R⦄ (now : Time) (x : Fermenter R)
    (auto : IsAutomatic now x) where
  pub auto_plan :
      (noop : Bool) (s : SystemState R) → plan_current now noop s x ≡ plan_auto now noop s x
  unfolding plan_current
  auto_plan noop s = ground (arith, eq_iff x.mode mode_valve, eq_iff x.override.state "")

  pub auto_expire : expire now x ≡ x
  unfolding expire
  auto_expire = ground (arith, eq_iff x.override.state "")

module _ {R : Type 0} ⦃f : Float64 R⦄ (d : ValveDriver) (now : Time) (s : SystemState R)
    (x : Fermenter R) (auto : IsAutomatic now x) where
  -- The two outcomes of an automatic tick.
  pub auto_cases :
      let to = change_to now s x in
      ((to ≡ "") × (tick_fermenter d now s x ≡ drift d.is_noop x))
      ⊎ ((to ≢ "")
          × (tick_fermenter d now s x ≡ (
              if d.set_valve x.id (to == valve_open) then settle now to x else drift d.is_noop x)))
  unfolding plan_auto commit tick_current
  auto_cases =
      rw
        (
          tick_fermenter-current d now s x,
          auto_expire now x auto,
          tick_current,
          auto_plan now x auto d.is_noop s,
        )
        (ground (arith, eq_iff (change_to now s x) ""))

module _ {R : Type 0} ⦃f : Float64 R⦄ where
  pub change_to_opens :
      (now : Time) (s : SystemState R) (x : Fermenter R)
      → change_to now s x ≡ valve_open
      → (is_ready now x ≡ true) × (need_open x ≡ true) × (can_open_more s ≡ true)
  unfolding change_to
  change_to_opens now s x e = ground (arith, open≢closed, empty≢open)

  change_to_closes :
      (now : Time) (s : SystemState R) (x : Fermenter R)
      → change_to now s x ≡ valve_closed
      → (is_ready now x ≡ true) × (need_close x ≡ true)
  unfolding change_to
  change_to_closes now s x e = ground (arith, open≢closed, empty≢closed)

  change_to_not_ready :
      (now : Time) (s : SystemState R) (x : Fermenter R)
      → is_ready now x ≡ false
      → change_to now s x ≡ ""
  unfolding change_to
  change_to_not_ready now s x e = ground arith

  change_to_known :
      (now : Time) (s : SystemState R) (x : Fermenter R)
      → change_to now s x ≢ ""
      → IsValve (change_to now s x)
  unfolding change_to
  change_to_known now s x e = ground arith

  -- What an automatic move of the valve from `x` to `y` requires and records.
  pub record IsJustified (d : ValveDriver) (now : Time) (s : SystemState R) (x y : Fermenter R)
      : Type 0 where
    pub ready : is_ready now x ≡ true
    pub sent : d.set_valve x.id (y.valve == valve_open) ≡ true
    pub direction :
        ((y.valve ≡ valve_open) × (need_open x ≡ true) × (can_open_more s ≡ true))
        ⊎ ((y.valve ≡ valve_closed) × (need_close x ≡ true))
    pub stamped : y.last_change ≡ now
    pub used_up : y.allow_immediate ≡ false

  settle-IsJustified :
      (d : ValveDriver) (now : Time) (s : SystemState R) (x : Fermenter R) (v : String)
      → change_to now s x ≡ v
      → d.set_valve x.id (v == valve_open) ≡ true
      → IsValve v
      → IsJustified d now s x (settle now v x)
  settle-IsJustified d now s x v e sent (inl o) = record {
    ready = (change_to_opens now s x (e ∙ o)).0;
    sent = sent;
    direction = let (_, n, c) = change_to_opens now s x (e ∙ o) in inl (o, n, c);
    stamped = refl;
    used_up = refl;
  }
  settle-IsJustified d now s x v e sent (inr c) = record {
    ready = (change_to_closes now s x (e ∙ c)).0;
    sent = sent;
    direction = inr (c, (change_to_closes now s x (e ∙ c)).1);
    stamped = refl;
    used_up = refl;
  }

  -- With a fresh sensor, no override and a mode other than valve, a tick moves the valve only if
  -- the least time since the last change has passed, or an immediate change is due, and the driver
  -- has taken the command; it opens only above the band and below the limit on open valves, and
  -- closes only below the band. The move is stamped with the time and uses the immediate change up.
  pub auto_change-IsJustified :
      (d : ValveDriver) (now : Time) (s : SystemState R) (x : Fermenter R)
      → IsAutomatic now x
      → (tick_fermenter d now s x).valve ≢ x.valve
      → IsJustified d now s x (tick_fermenter d now s x)
  auto_change-IsJustified d now s x auto moved = elim (auto_cases d now s x auto) [
    | inl (_, e) ↦ absurd (moved (valve_kept e))
    | inr (set, e) ↦ elim (Bool-cases (d.set_valve x.id (to == valve_open))) [
      | inl sent ↦
          rw (e, sent) (settle-IsJustified d now s x to refl sent (change_to_known now s x set))
      | inr lost ↦ absurd (moved (valve_kept (rw lost at e)))
    ]
  ]
    where
      to : String
      to = change_to now s x

      valve_kept :
          tick_fermenter d now s x ≡ drift d.is_noop x → (tick_fermenter d now s x).valve ≡ x.valve
      valve_kept e = ap (λ (y : Fermenter R). y.valve) e ∙ drift-valve d.is_noop x

  -- Without an immediate change due, a tick within the least time of the last change moves no valve.
  pub auto_waits :
      (d : ValveDriver) (now : Time) (s : SystemState R) (x : Fermenter R)
      → IsAutomatic now x
      → is_ready now x ≡ false
      → tick_fermenter d now s x ≡ drift d.is_noop x
  auto_waits d now s x auto early = elim (auto_cases d now s x auto) [
    | inl (_, e) ↦ e
    | inr (set, _) ↦ absurd (set (change_to_not_ready now s x early))
  ]

  auto_moves :
      (d : ValveDriver) (now : Time) (s : SystemState R) (x : Fermenter R) (v : String)
      → IsAutomatic now x
      → change_to now s x ≡ v
      → v ≢ ""
      → d.set_valve x.id (v == valve_open) ≡ true
      → tick_fermenter d now s x ≡ settle now v x
  auto_moves d now s x v auto to set sent = elim (auto_cases d now s x auto) [
    | inl (e, _) ↦ absurd (set (sym to ∙ e))
    | inr (_, e) ↦ e ∙ rw (to, sent)
  ]

  -- With a fresh sensor, no override and a mode other than valve, a tick that finds the fermenter
  -- ready for a change and below the band closes an open valve if the driver takes the command.
  pub auto_closes :
      (d : ValveDriver) (now : Time) (s : SystemState R) (x : Fermenter R)
      → IsAutomatic now x
      → is_ready now x ≡ true
      → need_close x ≡ true
      → x.valve ≡ valve_open
      → d.set_valve x.id false ≡ true
      → tick_fermenter d now s x ≡ settle now valve_closed x
  unfolding change_to
  auto_closes d now s x auto r n v sent =
      auto_moves d now s x valve_closed auto
        (ground (arith, eq_iff x.valve valve_closed, open≢closed)) (λ e. cc) sent

  pub hot_change_to :
      (now : Time) (s : SystemState R) (x : Fermenter R)
      → is_ready now x ≡ true
      → need_open x ≡ true
      → can_open_more s ≡ true
      → x.valve ≡ valve_closed
      → change_to now s x ≡ valve_open
  unfolding change_to
  hot_change_to now s x r n c v =
      ground (arith, eq_iff x.valve valve_closed, eq_iff x.valve valve_open, open≢closed)
