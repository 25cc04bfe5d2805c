-- ===== src/Serial/Plant/Refused.antt =====
-- Where the state and the device part: a line that the port refuses, and the watchdog between the two
-- parts of a tick.
use phb_open_ferm.Prelude.{
  ℕ, zero, suc, String, ◌≡◌, ◌≢◌, refl, sym, ap, ◌∙◌, inl, inr, Bool, true, false, some, List, [],
  ◌∷◌, ◌==◌, arith, if_false, test_of_ne, eq_iff, get_elem?, set, All, All-get_elem?, Option-cases,
  subst,
}
use mathlib.Core.Option.{some-injective}
use native.Mathlib.Decide.{ℕ_discrete}
use phb_open_ferm.Time.{Time}
use phb_open_ferm.Float64.{Float64}
use phb_open_ferm.Control.{Fermenter, SystemState, valve_open, valve_closed, mode_valve}
use phb_open_ferm.Control.Tick.{
  Plan, done, fail_safe, force, change, settle, is_stale, need_open, expire, drift, change_to,
  plan_auto, plan_current, plan_tick, commit, tick_fermenter,
}
use phb_open_ferm.Control.Tick.Frame.{SameSettings-tick_fermenter}
use phb_open_ferm.Control.Fleet.{open≢closed}
use phb_open_ferm.Control.Tick.FailSafe.{fail_safe_closes}
use phb_open_ferm.Control.Run.{tick_at, tick_here, tick_elsewhere}
use phb_open_ferm.Serial.Device.{Device, send, set_valve_on, ping_tick}
use phb_open_ferm.Serial.Plant.{
  Plant, Happening, ticks, pings, performs, call, tick_on, happen, run, told, driver_of,
  tick_on-tick, tick_on_nowhere,
}
use phb_open_ferm.Serial.Plant.Labels.{
  Label, IsDistinct, set-IsDistinct, label, labels, labels-set, get_elem?-labels,
}
use phb_open_ferm.Serial.Plant.Mirror.{tick_on-device}

IsDistinct-ne :
    (ls : List Label) (i j : ℕ) {l m : Label}
    → IsDistinct ls
    → get_elem? ls i ≡ some l
    → get_elem? ls j ≡ some m
    → i ≢ j
    → l.0 ≢ m.0
IsDistinct-ne [] i j d at at' other e = absurd (ground (arith, at))
IsDistinct-ne (k ∷ ls) zero zero d at at' other e = absurd (other refl)
IsDistinct-ne (k ∷ ls) zero (suc j) {l} {m} d at at' other e =
    let here : k ≡ l = some-injective _ _ at in
    All-get_elem? (λ (o : Label). k.0 ≢ o.0) ls j d.0 at' (ap (λ (o : Label). o.0) here ∙ e)
IsDistinct-ne (k ∷ ls) (suc i) zero {l} {m} d at at' other e =
    let here : k ≡ m = some-injective _ _ at' in
    All-get_elem? (λ (o : Label). k.0 ≢ o.0) ls i d.0 at (ap (λ (o : Label). o.0) here ∙ sym e)
IsDistinct-ne (k ∷ ls) (suc i) (suc j) d at at' other e =
    IsDistinct-ne ls i j d.1 at at' (λ same. other (ap suc same)) e

-- The calls of one fermenter's tick tell the others nothing, whether or not the port takes them.
told-set_valve_on :
    (accepted : Bool) (id k : String) (want : Bool) (d : Device)
    → k ≢ id
    → told id (set_valve_on accepted k want d).0.wire ≡ told id d.wire
unfolding set_valve_on send told
told-set_valve_on true id k want d other = if_false (k == id) _ (test_of_ne k id other)
told-set_valve_on false id k want d other = refl

told-call :
    (accepted : Bool) (id k : String) (p : Plan) (d : Device)
    → k ≢ id
    → told id (call accepted k p d).0.wire ≡ told id d.wire
unfolding call
told-call accepted id k done d other = refl
told-call accepted id k fail_safe d other = told-set_valve_on accepted id k false d other
told-call accepted id k (force want) d other = told-set_valve_on accepted id k want d other
told-call accepted id k (change v) d other =
    told-set_valve_on accepted id k (v == valve_open) d other

-- A refused line leaves the device as it is.
refused_call : (id : String) (p : Plan) (d : Device) → (call false id p d).0 ≡ d
unfolding call set_valve_on send
refused_call id done d = refl
refused_call id fail_safe d = refl
refused_call id (force want) d = refl
refused_call id (change v) d = refl

module _ {R : Type 0} ⦃f : Float64 R⦄ where
  -- A closed valve under automatic control, with no override, at or below its band.
  record IsCalm (x : Fermenter R) : Type 0 where
    shut : x.valve ≡ valve_closed
    free : x.override.state ≡ ""
    auto : x.mode ≢ mode_valve
    cool : need_open x ≡ false

  expire_free : (now : Time) (x : Fermenter R) → x.override.state ≡ "" → expire now x ≡ x
  unfolding expire
  expire_free now x free = ground (arith, eq_iff x.override.state "")

  calm_plan :
      (now : Time) (s : SystemState R) (x : Fermenter R)
      → IsCalm x
      → plan_tick now false s x ≡ (x, done)
  unfolding plan_tick plan_current plan_auto change_to expire drift
  calm_plan now s x h = ground (
    arith,
    eq_iff x.valve valve_closed,
    eq_iff x.valve valve_open,
    eq_iff x.mode mode_valve,
    eq_iff x.override.state "",
  )

  calm_tick :
      (accepted : Bool) (now : Time) (s : SystemState R) (x : Fermenter R)
      → IsCalm x
      → tick_fermenter (driver_of accepted) now s x ≡ x
  unfolding tick_fermenter commit
  calm_tick accepted now s x h = rw (calm_plan now s x h) refl

  tick_on-fv :
      (accepted : Bool) (now : Time) (i : ℕ) (p : Plant R) (x : Fermenter R)
      → get_elem? p.sys.fv i ≡ some x
      → (tick_on accepted now i p).sys.fv
        ≡ set p.sys.fv i (tick_fermenter (driver_of accepted) now p.sys x)
  tick_on-fv accepted now i p x at =
      ap (λ (s : SystemState R). s.fv)
        (tick_on-tick accepted now i p ∙ tick_at (driver_of accepted) now i p.sys x at)

  tick_on-IsDistinct :
      (accepted : Bool) (now : Time) (i : ℕ) (p : Plant R)
      → IsDistinct (labels p.sys.fv)
      → IsDistinct (labels (tick_on accepted now i p).sys.fv)
  tick_on-IsDistinct accepted now i p d = elim (Option-cases (get_elem? p.sys.fv i)) [
    | inl e ↦ rw (tick_on_nowhere accepted now i p e) d
    | inr (x, e) ↦
        (let x' = tick_fermenter (driver_of accepted) now p.sys x in
          rw (tick_on-fv accepted now i p x e, labels-set p.sys.fv i x')
            (set-IsDistinct (labels p.sys.fv) i (label x') (get_elem?-labels p.sys.fv i e)
              (SameSettings-tick_fermenter (driver_of accepted) now p.sys x).id d))
  ]

  -- The fermenter at an index is calm, and the wire told its valve last to open.
  record IsForgotten (i : ℕ) (id : String) (p : Plant R) : Type 0 where
    distinct : IsDistinct (labels p.sys.fv)
    x : Fermenter R
    at : get_elem? p.sys.fv i ≡ some x
    own : x.id ≡ id
    calm : IsCalm x
    open_told : told id p.device.wire ≡ valve_open

  tick_on-IsForgotten :
      (accepted : Bool) (now : Time) (i j : ℕ) (id : String) (p : Plant R)
      → IsForgotten i id p
      → IsForgotten i id (tick_on accepted now j p)
  unfolding call
  tick_on-IsForgotten accepted now i j id p h = elim (ℕ_discrete j i) [
    | yes same ↦ subst (λ (k : ℕ). IsForgotten i id (tick_on accepted now k p)) (sym same) own_tick
    | no other ↦ elim (Option-cases (get_elem? p.sys.fv j)) [
      | inl e ↦ rw (tick_on_nowhere accepted now j p e) h
      | inr (y, e) ↦ record {
        distinct = tick_on-IsDistinct accepted now j p h.distinct;
        x = h.x;
        at =
            ap (λ (s : SystemState R). get_elem? s.fv i) (tick_on-tick accepted now j p)
            ∙ tick_elsewhere (driver_of accepted) now j i p.sys other
            ∙ h.at;
        own = h.own;
        calm = h.calm;
        open_told =
            ap (λ (d : Device). told id d.wire) (tick_on-device accepted now j p y e)
            ∙ told-call accepted id y.id _ p.device (λ same.
              IsDistinct-ne (labels p.sys.fv) j i h.distinct (get_elem?-labels p.sys.fv j e)
                (get_elem?-labels p.sys.fv i h.at) other (same ∙ sym h.own))
            ∙ h.open_told;
      }
    ]
  ]
    where
      quiet : plan_tick now false p.sys h.x ≡ (h.x, done)
      quiet = calm_plan now p.sys h.x h.calm

      own_tick : IsForgotten i id (tick_on accepted now i p)
      own_tick = record {
        distinct = tick_on-IsDistinct accepted now i p h.distinct;
        x = h.x;
        at =
            ap (λ (s : SystemState R). get_elem? s.fv i) (tick_on-tick accepted now i p)
            ∙ tick_here (driver_of accepted) now i p.sys h.x h.at
            ∙ ap some (calm_tick accepted now p.sys h.x h.calm);
        own = h.own;
        calm = h.calm;
        open_told =
            ap (λ (d : Device). told id d.wire) (tick_on-device accepted now i p h.x h.at)
            ∙ ap (λ (q : Fermenter R × Plan). told id (call accepted h.x.id q.1 p.device).0.wire)
                quiet
            ∙ h.open_told;
      }

  -- A happening that is a tick of a controller or a ping.
  abbrev pub IsRoutine : Happening R → Type 0
  IsRoutine (ticks accepted now j) = Unit {0}
  IsRoutine (pings now) = Unit {0}
  IsRoutine (performs o) = ⊥

  run-IsForgotten :
      (es : List (Happening R)) (i : ℕ) (id : String) (p : Plant R)
      → All IsRoutine es
      → IsForgotten i id p
      → IsForgotten i id (run es p)
  unfolding run happen ping_tick send told
  run-IsForgotten [] i id p routine h = h
  run-IsForgotten (ticks accepted now j ∷ es) i id p routine h =
      run-IsForgotten es i id _ routine.1 (tick_on-IsForgotten accepted now i j id p h)
  run-IsForgotten (pings now ∷ es) i id p routine h = run-IsForgotten es i id _ routine.1 (record {
    distinct = h.distinct;
    x = h.x;
    at = h.at;
    own = h.own;
    calm = h.calm;
    open_told = h.open_told;
  })
  run-IsForgotten (performs o ∷ es) i id p routine h = absurd routine.0

  -- The fail-safe drops the error of its call and takes the valve for closed: if the port refuses the
  -- line once, for a fermenter under automatic control that is not above its band and has no override,
  -- then in whatever order controllers tick and pings go out afterwards, the state says that the valve
  -- is closed while the device was last told to open it.
  pub refused_close_forgotten :
      (p : Plant R) (i : ℕ) (x : Fermenter R) (now : Time) (es : List (Happening R))
      → get_elem? p.sys.fv i ≡ some x
      → IsDistinct (labels p.sys.fv)
      → is_stale now x ≡ true
      → x.valve ≡ valve_open
      → told x.id p.device.wire ≡ valve_open
      → x.override.state ≡ ""
      → x.mode ≢ mode_valve
      → need_open x ≡ false
      → All IsRoutine es
      → let q = run es (tick_on false now i p) in
        ((y : Fermenter R) × (get_elem? q.sys.fv i ≡ some y) × (y.valve ≡ valve_closed))
        × (told x.id q.device.wire ≡ valve_open)
  refused_close_forgotten p i x now es at distinct stale opened told_open free auto cool routine =
      let kept : expire now x ≡ x = expire_free now x free in
      let closes : tick_fermenter (driver_of false) now p.sys x ≡ settle now valve_closed x =
        fail_safe_closes (driver_of false) now p.sys x stale (λ e. open≢closed (sym opened ∙ e))
        ∙ ap (settle now valve_closed) kept in
      let h = run-IsForgotten es i x.id (tick_on false now i p) routine (record {
        distinct = tick_on-IsDistinct false now i p distinct;
        x = settle now valve_closed x;
        at =
            ap (λ (s : SystemState R). get_elem? s.fv i) (tick_on-tick false now i p)
            ∙ tick_here (driver_of false) now i p.sys x at
            ∙ ap some closes;
        own = refl;
        calm = record { shut = refl; free = free; auto = auto; cool = cool };
        open_told =
            ap (λ (d : Device). told x.id d.wire) (tick_on-device false now i p x at)
            ∙ ap (λ (d : Device). told x.id d.wire)
                (refused_call x.id (plan_tick now false p.sys x).1 p.device)
            ∙ told_open;
      }) in
      ((h.x, h.at, h.calm.shut), h.open_told)
