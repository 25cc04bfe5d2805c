-- ===== src/Control/Run/Capacity.antt =====
-- The limit on open valves, over ticks with nothing in between.
use phb_open_ferm.Prelude.{
  ℕ, ◌≤◌, ◌<◌, ◌≡◌, ◌≢◌, ap, ◌∙◌, sym, ◌⊎◌, inl, inr, true, false, List, [], ◌∷◌, arith, eq_iff,
  get_elem?, All, All-get_elem?, All-set, Bool-cases, Option-cases,
}
use phb_open_ferm.Prelude.Int.{pos}
use phb_open_ferm.Time.{Time}
use phb_open_ferm.Float64.{Float64}
use mathlib.Core.Bool.{false≢true}
use phb_open_ferm.Control.Tick.Hysteresis.{change_to_opens}
use phb_open_ferm.Control.{
  ValveOverride, Fermenter, SystemState, mode_valve, valve_open, valve_closed,
}
use phb_open_ferm.Control.Fleet.{count_open, count_open-set, open_weight, open≢closed}
use phb_open_ferm.Control.Tick.{
  ValveDriver, tick, tick_fermenter, can_open_more, plan_current, plan_auto, change_to, commit,
  expire,
}
use phb_open_ferm.Control.Tick.Frame.{
  SameSettings-tick_fermenter, tick_fermenter-override, tick_current, tick_fermenter-current,
  drift-valve,
}
use phb_open_ferm.Control.Run.{Turn, run, tick_at, tick_nowhere}

module _ {R : Type 0} where
  -- Left to the hysteresis, stale or not.
  pub record IsFree (x : Fermenter R) : Type 0 where
    pub mode_not_valve : x.mode ≢ mode_valve
    pub no_override : x.override.state ≡ ""

  free_expire : (now : Time) (x : Fermenter R) → IsFree x → expire now x ≡ x
  unfolding expire
  free_expire now x q = ground (arith, eq_iff x.override.state "")

module _ {R : Type 0} ⦃f : Float64 R⦄ where
  -- Where the valve of a free fermenter can be after a tick.
  free_valve_cases :
      (d : ValveDriver) (now : Time) (s : SystemState R) (x : Fermenter R)
      → IsFree x
      → let v = (tick_current d now s x).valve in
        (v ≡ x.valve) ⊎ ((v ≡ valve_closed) ⊎ (v ≡ change_to now s x))
  unfolding tick_current plan_current plan_auto commit
  free_valve_cases d now s x q =
      ground (arith, eq_iff x.mode mode_valve, eq_iff x.override.state "", drift-valve d.is_noop x)

  open_weight-le_one : (x : Fermenter R) → open_weight x ≤ 1
  open_weight-le_one x = ground arith

  weight_of_same : (x y : Fermenter R) → x.valve ≡ y.valve → open_weight x ≤ open_weight y
  weight_of_same x y e = rw e (omega arith)

  weight_of_other : (x : Fermenter R) (n : ℕ) → x.valve ≢ valve_open → open_weight x ≤ n
  weight_of_other x n h = ground (arith, eq_iff x.valve valve_open)

  -- With the limit reached, the tick of a free fermenter opens nothing.
  full_opens_none :
      (d : ValveDriver) (now : Time) (s : SystemState R) (x : Fermenter R)
      → IsFree x
      → can_open_more s ≡ false
      → open_weight (tick_fermenter d now s x) ≤ open_weight x
  full_opens_none d now s x q full =
      rw (tick_fermenter-current d now s x, free_expire now x q)
        (let y = tick_current d now s x in
          elim (free_valve_cases d now s x q) [
            | inl e ↦ weight_of_same y x e
            | inr (inl e) ↦ weight_of_other y _ (λ o. open≢closed (sym o ∙ e))
            | inr (inr e) ↦
                weight_of_other y _
                  (λ o. false≢true (sym full ∙ (change_to_opens now s x (sym e ∙ o)).2))
          ])

  -- A tick keeps a fermenter free.
  tick_fermenter-IsFree :
      (d : ValveDriver) (now : Time) (s : SystemState R) (x : Fermenter R)
      → IsFree x
      → IsFree (tick_fermenter d now s x)
  tick_fermenter-IsFree d now s x q = record {
    mode_not_valve = λ e. q.mode_not_valve (sym (SameSettings-tick_fermenter d now s x).mode ∙ e);
    no_override =
        ap (λ (o : ValveOverride). o.state) (tick_fermenter-override d now s x)
        ∙ rw (free_expire now x q) q.no_override;
  }

  -- The invariant of the runs: every fermenter is free, and at most `m` valves are open.
  record WithinLimit (m : ℕ) (s : SystemState R) : Type 0 where
    free : All IsFree s.fv
    limit : s.max_open ≡ pos m
    count : count_open s.fv ≤ m

  can_open_more_below :
      (m : ℕ) (s : SystemState R)
      → 0 < m
      → s.max_open ≡ pos m
      → can_open_more s ≡ true
      → count_open s.fv < m
  can_open_more_below m s h e c = let c' = rw e at c in ground arith

  tick-WithinLimit :
      (d : ValveDriver) (now : Time) (i m : ℕ) (s : SystemState R)
      → 0 < m
      → WithinLimit m s
      → WithinLimit m (tick d now i s)
  tick-WithinLimit d now i m s h w = elim (Option-cases (get_elem? s.fv i)) [
    | inl e ↦ rw (tick_nowhere d now i s e) w
    | inr (x, e) ↦ rw (tick_at d now i s x e) (
        let q = All-get_elem? IsFree s.fv i w.free e in
        let y = tick_fermenter d now s x in
        let moved = count_open-set s.fv i x y e in
        record {
          free = All-set IsFree s.fv i y w.free (tick_fermenter-IsFree d now s x q);
          limit = w.limit;
          count = elim (Bool-cases (can_open_more s)) [
            | inl room ↦
                omega (arith, moved, open_weight-le_one y, can_open_more_below m s h w.limit room)
            | inr full ↦ omega (arith, moved, full_opens_none d now s x q full, w.count)
          ];
        })
  ]

  run-WithinLimit :
      (m : ℕ) (ts : List Turn) (s : SystemState R)
      → 0 < m
      → WithinLimit m s
      → WithinLimit m (run ts s)
  unfolding run
  run-WithinLimit m [] s h w = w
  run-WithinLimit m (t ∷ ts) s h w =
      run-WithinLimit m ts _ h (tick-WithinLimit t.driver t.now t.index m s h w)

  -- With a positive limit and no fermenter in valve mode or under an override, no run of ticks that
  -- follow one another brings more valves open than the limit allows, whatever the temperatures, the
  -- sensors and the drivers do.
  pub run_within_limit :
      (m : ℕ) (ts : List Turn) (s : SystemState R)
      → 0 < m
      → s.max_open ≡ pos m
      → All IsFree s.fv
      → count_open s.fv ≤ m
      → count_open (run ts s).fv ≤ m
  run_within_limit m ts s h e q c =
      (run-WithinLimit m ts s h (record { free = q; limit = e; count = c })).count
