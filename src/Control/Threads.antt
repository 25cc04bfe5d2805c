-- ===== src/Control/Threads.antt =====
-- One controller goroutine per fermenter, the API and the watchdog, interleaved at the mutex. A
-- controller's tick is two steps, with the driver call between them; any other operation is one.
pub mod Safety
pub mod Overshoot
use phb_open_ferm.Prelude.{
  ℕ, ◌≡◌, Bool, true, false, Option, none, some, List, [], ◌∷◌, eqb, if◌then◌else◌,
}
use phb_open_ferm.Time.{Time}
use phb_open_ferm.Float64.{Float64}
use phb_open_ferm.Control.{SystemState}
use phb_open_ferm.Control.Tick.{Plan, begin_tick, finish_tick}
use phb_open_ferm.Control.Operations.{Operation, perform}

-- The driver call that a controller is in, and when its tick began.
abbrev pub Pending : Type 0
Pending = Option (Time × Plan)

pub record World (R : Type 0) : Type 0 where
  pub sys : SystemState R
  pub pending : ℕ → Pending

abbrev pub update : (ℕ → Pending) → ℕ → Pending → ℕ → Pending
update p i v j = if eqb i j then v else p j

module _ {R : Type 0} ⦃f : Float64 R⦄ where
  abbrev pub begun : Bool → Time → ℕ → World R → World R
  begun noop now i w =
      let r = begin_tick now noop i w.sys in
      record { sys = r.0; pending = update w.pending i (some (now, r.1)) }

  abbrev pub finished : Bool → Time → Plan → Bool → ℕ → World R → World R
  finished noop now p sent i w = record {
    sys = finish_tick now noop p sent i w.sys;
    pending = update w.pending i none;
  }

  -- `noop`: the driver is the simulator's. `sent`: the driver call returned nil.
  pub data Step (noop : Bool) (w : World R) : World R → Type 0 where
    begins : (i : ℕ) (now : Time) → w.pending i ≡ none → Step noop w (begun noop now i w)
    finishes :
        (i : ℕ) (now : Time) (p : Plan) (sent : Bool)
        → w.pending i ≡ some (now, p)
        → Step noop w (finished noop now p sent i w)
    performs : (o : Operation R) → Step noop w (record w { sys = perform o w.sys })

  pub data Reach (noop : Bool) (w : World R) : World R → Type 0 where
    here : Reach noop w w
    later : {u v : World R} → Reach noop w u → Step noop u v → Reach noop w v

abbrev pub idle : ℕ → Pending
idle i = none
