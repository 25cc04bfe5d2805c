-- ===== src/Control/Threads/Overshoot.antt =====
-- The limit on open valves and two controllers whose ticks overlap.
use phb_open_ferm.Prelude.{
  ℕ, ◌+◌, ◌≡◌, ◌≢◌, refl, sym, ◌∙◌, Bool, true, none, some, List, arith, get_elem?, set,
  get_elem?-set_ne, set_same, subst,
}
use phb_open_ferm.Prelude.Int.{pos}
use phb_open_ferm.Time.{Time}
use phb_open_ferm.Float64.{Float64}
use phb_open_ferm.Control.{Fermenter, SystemState, valve_open, valve_closed}
use phb_open_ferm.Control.Fleet.{count_open, count_open-set, open_weight}
use phb_open_ferm.Control.Tick.{
  Plan, change, plan_tick, plan_auto, commit, settle, is_ready, need_open, can_open_more,
  begin_tick, finish_tick,
}
use phb_open_ferm.Control.Tick.Hysteresis.{IsAutomatic, auto_plan, auto_expire, hot_change_to}
use phb_open_ferm.Control.Run.{begin_tick_at, finish_tick_at}
use phb_open_ferm.Control.Threads.{
  World, Pending, Step, Reach, begins, finishes, here, later, update,
}

module _ {R : Type 0} ⦃f : Float64 R⦄ where
  -- A closed fermenter that its controller would open now, limit aside.
  pub record WantsOpen (now : Time) (x : Fermenter R) : Type 0 where
    pub automatic : IsAutomatic now x
    pub ready : is_ready now x ≡ true
    pub hot : need_open x ≡ true
    pub shut : x.valve ≡ valve_closed

  plan_open :
      (now : Time) (noop : Bool) (s : SystemState R) (x : Fermenter R)
      → WantsOpen now x
      → can_open_more s ≡ true
      → plan_tick now noop s x ≡ (x, change valve_open)
  unfolding plan_tick plan_auto
  plan_open now noop s x w room = rw (
    auto_expire now x w.automatic,
    auto_plan now x w.automatic noop s,
    hot_change_to now s x w.ready w.hot room w.shut,
    plan_auto,
  )

  -- The first part of such a tick changes nothing.
  begin_open :
      (now : Time) (noop : Bool) (i : ℕ) (s : SystemState R) (x : Fermenter R)
      → get_elem? s.fv i ≡ some x
      → WantsOpen now x
      → can_open_more s ≡ true
      → begin_tick now noop i s ≡ (s, change valve_open)
  begin_open now noop i s x e w room =
      begin_tick_at now noop i s x e ∙ rw (plan_open now noop s x w room, set_same s.fv i e)

  finish_open :
      (now : Time) (noop : Bool) (i : ℕ) (s : SystemState R) (x : Fermenter R)
      → get_elem? s.fv i ≡ some x
      → finish_tick now noop (change valve_open) true i s
        ≡ record s { fv = set s.fv i (settle now valve_open x) }
  unfolding commit
  finish_open now noop i s x e = finish_tick_at now noop (change valve_open) true i s x e

  -- One more valve is open after the write.
  open_one_more :
      (now : Time) (xs : List (Fermenter R)) (i : ℕ) (x : Fermenter R)
      → get_elem? xs i ≡ some x
      → x.valve ≡ valve_closed
      → count_open (set xs i (settle now valve_open x)) ≡ count_open xs + 1
  open_one_more now xs i x e c =
      let was : open_weight x ≡ 0 = rw c refl in
      omega (arith, was, count_open-set xs i x (settle now valve_open x) e)

update_self : (p : ℕ → Pending) (i : ℕ) (v : Pending) → update p i v i ≡ v
update_self p i v = ground arith

update_other : (p : ℕ → Pending) (i j : ℕ) (v : Pending) → i ≢ j → update p i v j ≡ p j
update_other p i j v h = ground arith

module _ {R : Type 0} ⦃f : Float64 R⦄ (noop : Bool) where
  begins_open :
      (now : Time) (i : ℕ) (w : World R) (x : Fermenter R)
      → w.pending i ≡ none
      → get_elem? w.sys.fv i ≡ some x
      → WantsOpen now x
      → can_open_more w.sys ≡ true
      → Step noop w
          (record { sys = w.sys; pending = update w.pending i (some (now, change valve_open)) })
  begins_open now i w x free e wants room =
      subst
        (λ (r : SystemState R × Plan).
          Step noop w (record { sys = r.0; pending = update w.pending i (some (now, r.1)) }))
        (begin_open now noop i w.sys x e wants room) (begins i now free)

  finishes_open :
      (now : Time) (i : ℕ) (w : World R) (x : Fermenter R)
      → w.pending i ≡ some (now, change valve_open)
      → get_elem? w.sys.fv i ≡ some x
      → Step noop w (record {
        sys = record w.sys { fv = set w.sys.fv i (settle now valve_open x) };
        pending = update w.pending i none;
      })
  finishes_open now i w x waits e =
      subst
        (λ (s : SystemState R). Step noop w (record { sys = s; pending = update w.pending i none }))
        (finish_open now noop i w.sys x e) (finishes i now (change valve_open) true waits)

  room_for_one :
      (s : SystemState R) (m : ℕ)
      → s.max_open ≡ pos m
      → count_open s.fv + 1 ≡ m
      → can_open_more s ≡ true
  room_for_one s m e c = rw e (ground arith)

  -- The limit is checked before the mutex is released for the driver call, and not again: whenever,
  -- with one valve less than a limit of `m` open, two idle controllers would each open theirs,
  -- overlapping ticks whose driver calls succeed reach a state with `m + 1` open valves.
  pub limit_overshoot :
      (w : World R) (i j m : ℕ) (now later_now : Time) (x y : Fermenter R)
      → i ≢ j
      → w.pending i ≡ none
      → w.pending j ≡ none
      → get_elem? w.sys.fv i ≡ some x
      → get_elem? w.sys.fv j ≡ some y
      → WantsOpen now x
      → WantsOpen later_now y
      → w.sys.max_open ≡ pos m
      → count_open w.sys.fv + 1 ≡ m
      → (v : World R) × Reach noop w v × (count_open v.sys.fv ≡ m + 1)
  limit_overshoot w i j m now later_now x y ne free_i free_j at_i at_j wants_x wants_y limit below =
      (
        w4,
        later (later (later (later here step1) step2) step3) step4,
        omega (
          arith,
          open_one_more now w.sys.fv i x at_i wants_x.shut,
          open_one_more later_now w3.sys.fv j y at_j' wants_y.shut,
        ),
      )
    where
      room : can_open_more w.sys ≡ true
      room = room_for_one w.sys m limit below

      plan_i : Pending
      plan_i = some (now, change valve_open)

      plan_j : Pending
      plan_j = some (later_now, change valve_open)

      w1 : World R
      w1 = record { sys = w.sys; pending = update w.pending i plan_i }

      w2 : World R
      w2 = record { sys = w.sys; pending = update w1.pending j plan_j }

      w3 : World R
      w3 = record {
        sys = record w.sys { fv = set w.sys.fv i (settle now valve_open x) };
        pending = update w2.pending i none;
      }

      at_j' : get_elem? w3.sys.fv j ≡ some y
      at_j' = get_elem?-set_ne w.sys.fv (settle now valve_open x) ne ∙ at_j

      w4 : World R
      w4 = record {
        sys = record w3.sys { fv = set w3.sys.fv j (settle later_now valve_open y) };
        pending = update w3.pending j none;
      }

      step1 : Step noop w w1
      step1 = begins_open now i w x free_i at_i wants_x room

      step2 : Step noop w1 w2
      step2 =
          begins_open later_now j w1 y (update_other w.pending i j plan_i ne ∙ free_j) at_j wants_y
            room

      step3 : Step noop w2 w3
      step3 =
          finishes_open now i w2 x
            (update_other w1.pending j i plan_j (λ e. ne (sym e)) ∙ update_self w.pending i plan_i)
            at_i

      step4 : Step noop w3 w4
      step4 =
          finishes_open later_now j w3 y
            (update_other w2.pending i j none ne ∙ update_self w1.pending j plan_j) at_j'
