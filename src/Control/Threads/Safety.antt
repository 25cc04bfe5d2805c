-- ===== src/Control/Threads/Safety.antt =====
-- What holds in every state that the goroutines can reach.
use phb_open_ferm.Prelude.{ℕ, subst, inl, inr, Bool, none, some, eqb, if◌then◌else◌, Bool-cases}
use phb_open_ferm.Time.{Time}
use phb_open_ferm.Float64.{Float64}
use phb_open_ferm.Control.Config.{Config, new_state, new_state-IsSound}
use phb_open_ferm.Control.Invariant.{IsSound, IsPlan, begin_tick-IsSound, finish_tick-IsSound}
use phb_open_ferm.Control.Operations.{perform-IsSound}
use phb_open_ferm.Control.Threads.{
  World, Pending, Step, Reach, begins, finishes, performs, here, later, update, idle,
}

abbrev pub PendingIsPlan : Pending → Type 0
PendingIsPlan none = Unit
PendingIsPlan (some (_, p)) = IsPlan p

update-PendingIsPlan :
    (q : ℕ → Pending) (i : ℕ) (v : Pending) (j : ℕ)
    → PendingIsPlan (q j)
    → PendingIsPlan v
    → PendingIsPlan (update q i v j)
update-PendingIsPlan q i v j old new = elim (Bool-cases (eqb i j)) [
  | inl e ↦ rw (e, if◌then◌else◌) new
  | inr e ↦ rw (e, if◌then◌else◌) old
]

module _ {R : Type 0} ⦃f : Float64 R⦄ where
  pub record IsSafe (w : World R) : Type 0 where
    pub sound : IsSound w.sys
    pub plans : (i : ℕ) → PendingIsPlan (w.pending i)

  pub Step-IsSafe : {noop : Bool} {u v : World R} → Step noop u v → IsSafe u → IsSafe v
  Step-IsSafe {noop} {u} (begins i now e) h =
      let (s, p) = begin_tick-IsSound now noop i u.sys h.sound in
      record { sound = s; plans = λ j. update-PendingIsPlan u.pending i _ j (h.plans j) p }
  Step-IsSafe {noop} {u} (finishes i now p sent e) h = record {
    sound = finish_tick-IsSound now noop p sent i u.sys (subst PendingIsPlan e (h.plans i)) h.sound;
    plans = λ j. update-PendingIsPlan u.pending i none j (h.plans j) tt;
  }
  Step-IsSafe {u} (performs o) h = record {
    sound = perform-IsSound o u.sys h.sound;
    plans = h.plans;
  }

  Reach-IsSafe : {noop : Bool} {u v : World R} → Reach noop u v → IsSafe u → IsSafe v
  Reach-IsSafe here h = h
  Reach-IsSafe (later r st) h = Step-IsSafe st (Reach-IsSafe r h)

  -- From the state that `NewState` builds, however the controllers, the API and the watchdog
  -- interleave, every valve is told by "open" or "closed" and every override by one of these or the
  -- empty text.
  pub Reach-IsSound :
      (now : Time) (cfg : Config R) (noop : Bool) {w : World R}
      → Reach noop (record { sys = new_state now cfg; pending = idle }) w
      → IsSound w.sys
  Reach-IsSound now cfg noop r =
      (Reach-IsSafe r (record { sound = new_state-IsSound now cfg; plans = λ i. tt })).sound
