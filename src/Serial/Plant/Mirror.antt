-- ===== src/Serial/Plant/Mirror.antt =====
-- The state tells of each valve what the device was last told of it, as long as the port takes every
-- line and the parts of a tick follow each other with nothing in between.
use phb_open_ferm.Prelude.{
  ℕ, zero, suc, String, ◌≡◌, ◌≢◌, refl, sym, ap, ◌∙◌, inl, inr, Bool, true, false, Option, none,
  some, List, [], ◌∷◌, map, ◌==◌, arith, if_true, if_false, test_self, test_of_ne, get_elem?, set,
  set_same, All, All-get_elem?, Option-cases, subst,
}
use mathlib.Core.Path.{ap₂}
use mathlib.Core.Option.{some-injective}
use phb_open_ferm.Time.{Time}
use phb_open_ferm.Float64.{Float64}
use phb_open_ferm.Control.{Fermenter, SystemState, valve_closed}
use phb_open_ferm.Control.Tick.{
  Plan, done, fail_safe, force, change, word, call_of, driver_ok, plan_tick, commit, expire,
  tick_fermenter,
}
use phb_open_ferm.Control.Tick.Frame.{
  plan_tick_cases, drift-valve, valve-expire, SameSettings-plan_tick,
}
use phb_open_ferm.Control.Invariant.{IsPlan, plan_tick-IsPlan}
use phb_open_ferm.Control.Operations.{
  Operation, sets_target, sets_mode, forces_valve, clears_override, overrides_until, reads_temp,
  applies_settings, closes_all, close_all,
}
use phb_open_ferm.Control.Run.{begin_tick_at, tick_at}
use phb_open_ferm.Serial.{Command, ping, set_valve}
use phb_open_ferm.Serial.Device.{Device, send, set_valve_on, ping_tick}
use phb_open_ferm.Serial.Plant.{
  Plant, Happening, ticks, pings, performs, call, shut_each, tick_on, shut_on, perform_on, happen,
  run, told, driver_of, tick_on-tick, tick_on_nowhere,
}
use phb_open_ferm.Serial.Plant.Labels.{
  Label, IsDistinct, set-IsDistinct, label, labels, labels-set, get_elem?-labels, labels-perform,
}

abbrev pub Shows : List Command → Label → Type 0
Shows wire l = told l.0 wire ≡ l.1

pinged :
    (wire : List Command) (ls : List Label) → All (Shows wire) ls → All (Shows (ping ∷ wire)) ls
unfolding told
pinged wire [] h = tt
pinged wire (m ∷ ls) h = (h.0, pinged wire ls h.1)

-- A line for one id tells the others nothing.
pub told_others :
    (k st : String) (wire : List Command) (ls : List Label)
    → All (λ (m : Label). k ≢ m.0) ls
    → All (Shows wire) ls
    → All (Shows (set_valve k st ∷ wire)) ls
unfolding told
told_others k st wire [] others h = tt
told_others k st wire (m ∷ ls) others h = (
  if_false (k == m.0) st (test_of_ne k m.0 others.0) ∙ h.0,
  told_others k st wire ls others.1 h.1,
)

told_one :
    (ls : List Label) (i : ℕ) {l : Label} (st : String) (wire : List Command)
    → get_elem? ls i ≡ some l
    → IsDistinct ls
    → All (Shows wire) ls
    → All (Shows (set_valve l.0 st ∷ wire)) (set ls i (l.0, st))
unfolding told
told_one [] i st wire at d h = tt
told_one (m ∷ ls) zero {l} st wire at d h =
    let here : m ≡ l = some-injective _ _ at in
    let own : m.0 ≡ l.0 = ap (λ (o : Label). o.0) here in
    (
      if_true (l.0 == l.0) (told l.0 wire) (test_self l.0),
      told_others l.0 st wire ls (subst (λ (k : String). All (λ (o : Label). k ≢ o.0) ls) own d.0)
          h.1,
    )
told_one (m ∷ ls) (suc i) {l} st wire at d h =
    let other : m.0 ≢ l.0 = All-get_elem? (λ (o : Label). m.0 ≢ o.0) ls i d.0 at in
    (
      if_false (l.0 == m.0) st (test_of_ne l.0 m.0 (λ e. other (sym e))) ∙ h.0,
      told_one ls i st wire at d.1 h.1,
    )

module _ {R : Type 0} where
  -- No id stands twice, and each valve is as the wire told it.
  pub record IsMirrored (p : Plant R) : Type 0 where
    pub distinct : IsDistinct (labels p.sys.fv)
    pub shown : All (Shows p.device.wire) (labels p.sys.fv)

  abbrev pub shut_fleet : List (Fermenter R) → List (Fermenter R)
  shut_fleet = map (λ (x : Fermenter R). record x { valve = valve_closed })

  shut_told :
      (k : String) (xs : List (Fermenter R)) (d : Device)
      → told k d.wire ≡ valve_closed
      → told k (shut_each (λ _. true) xs d).wire ≡ valve_closed
  unfolding shut_each set_valve_on send told
  shut_told k [] d h = h
  shut_told k (x ∷ xs) d h = shut_told k xs _ (ground (arith, h))

  pub shut_shown :
      (xs : List (Fermenter R)) (d : Device)
      → All (Shows (shut_each (λ _. true) xs d).wire) (labels (shut_fleet xs))
  unfolding shut_each set_valve_on send told
  shut_shown [] d = tt
  shut_shown (x ∷ xs) d = (
    shut_told x.id xs _ (if_true (x.id == x.id) (told x.id d.wire) (test_self x.id)),
    shut_shown xs _,
  )

  shut-others :
      (k : String) (xs : List (Fermenter R))
      → All (λ (m : Label). k ≢ m.0) (labels xs)
      → All (λ (m : Label). k ≢ m.0) (labels (shut_fleet xs))
  shut-others k [] h = tt
  shut-others k (x ∷ xs) h = (h.0, shut-others k xs h.1)

  shut-IsDistinct :
      (xs : List (Fermenter R)) → IsDistinct (labels xs) → IsDistinct (labels (shut_fleet xs))
  shut-IsDistinct [] h = tt
  shut-IsDistinct (x ∷ xs) h = (shut-others x.id xs h.0, shut-IsDistinct xs h.1)

-- What a line says, by its fermenter's id.
abbrev pub line_of : String → Option Bool → List Command → List Command
line_of id none wire = wire
line_of id (some want) wire = set_valve id (word want) ∷ wire

abbrev valve_of : Option Bool → String → String
valve_of none v = v
valve_of (some want) v = word want

pub call_wire :
    (id : String) (p : Plan) (d : Device)
    → (call true id p d).0.wire ≡ line_of id (call_of p) d.wire
unfolding call set_valve_on send
call_wire id done d = refl
call_wire id fail_safe d = refl
call_wire id (force want) d = refl
call_wire id (change v) d = refl

-- A line that says what the new state says keeps the mirror.
line_shown :
    (ls : List Label) (i : ℕ) (l : Label) (o : Option Bool) (wire : List Command)
    → get_elem? ls i ≡ some l
    → IsDistinct ls
    → All (Shows wire) ls
    → All (Shows (line_of l.0 o wire)) (set ls i (l.0, valve_of o l.1))
line_shown ls i l none wire at d h =
    subst (λ (ms : List Label). All (Shows wire) ms) (sym (set_same ls i at)) h
line_shown ls i l (some want) wire at d h = told_one ls i (word want) wire at d h

module _ {R : Type 0} ⦃f : Float64 R⦄ where
  commit-label :
      (now : Time) (p : Plan) (id : String) (x : Fermenter R)
      → IsPlan p
      → label (commit now false p (driver_ok (driver_of true) id p) x)
        ≡ (x.id, valve_of (call_of p) x.valve)
  unfolding commit
  commit-label now done id x h = refl
  commit-label now fail_safe id x h = refl
  commit-label now (force want) id x h = refl
  commit-label now (change v) id x h = elim h [ inl e ↦ rw e refl | inr e ↦ rw e refl ]

  plan_tick-label :
      (now : Time) (s : SystemState R) (x : Fermenter R)
      → label (plan_tick now false s x).0 ≡ label x
  plan_tick-label now s x =
      ap₂ (λ (i v : String). (i, v)) (SameSettings-plan_tick now false s x).id
        (elim (plan_tick_cases now false s x) [
          | inl e ↦ ap (λ (y : Fermenter R). y.valve) e ∙ valve-expire now x
          | inr e ↦
              ap (λ (y : Fermenter R). y.valve) e
              ∙ drift-valve false (expire now x)
              ∙ valve-expire now x
        ])

  -- A tick leaves the valve as its line says.
  tick_fermenter-label :
      (now : Time) (s : SystemState R) (x : Fermenter R)
      → label (tick_fermenter (driver_of true) now s x)
        ≡ (x.id, valve_of (call_of (plan_tick now false s x).1) x.valve)
  unfolding tick_fermenter
  tick_fermenter-label now s x =
      let (x', p) = plan_tick now false s x in
      commit-label now p x.id x' (plan_tick-IsPlan now false s x)
      ∙ ap (λ (l : Label). (l.0, valve_of (call_of p) l.1)) (plan_tick-label now s x)

  pub tick_on-device :
      (accepted : Bool) (now : Time) (i : ℕ) (p : Plant R) (x : Fermenter R)
      → get_elem? p.sys.fv i ≡ some x
      → (tick_on accepted now i p).device
        ≡ (call accepted x.id (plan_tick now false p.sys x).1 p.device).0
  unfolding tick_on
  tick_on-device accepted now i p x at =
      rw (at, tick_on) (rw (begin_tick_at now false i p.sys x at) refl)

  tick_on-IsMirrored :
      (now : Time) (i : ℕ) (p : Plant R) → IsMirrored p → IsMirrored (tick_on true now i p)
  tick_on-IsMirrored now i p h = elim (Option-cases (get_elem? p.sys.fv i)) [
    | inl e ↦ subst IsMirrored (sym (tick_on_nowhere true now i p e)) h
    | inr (x, e) ↦
        (let at = get_elem?-labels p.sys.fv i e in
          let o = call_of (plan_tick now false p.sys x).1 in
          let x' = tick_fermenter (driver_of true) now p.sys x in
          let new : labels (tick_on true now i p).sys.fv
              ≡ set (labels p.sys.fv) i (x.id, valve_of o x.valve) =
            ap (λ (s : SystemState R). labels s.fv)
              (tick_on-tick true now i p ∙ tick_at (driver_of true) now i p.sys x e)
            ∙ labels-set p.sys.fv i x'
            ∙ ap (set (labels p.sys.fv) i) (tick_fermenter-label now p.sys x) in
          record {
            distinct =
                subst IsDistinct (sym new)
                  (set-IsDistinct (labels p.sys.fv) i _ at refl h.distinct);
            shown =
                rw
                  (
                    new,
                    tick_on-device true now i p x e,
                    call_wire x.id (plan_tick now false p.sys x).1 p.device,
                  )
                  (line_shown (labels p.sys.fv) i (label x) o p.device.wire at h.distinct h.shown);
          })
  ]

  shut_on-IsMirrored : (p : Plant R) → IsMirrored p → IsMirrored (shut_on (λ _. true) p)
  unfolding shut_on close_all
  shut_on-IsMirrored p h = record {
    distinct = shut-IsDistinct p.sys.fv h.distinct;
    shown = shut_shown p.sys.fv p.device;
  }

  -- An operation that changes no id and no valve.
  same_labels-IsMirrored :
      (p : Plant R) (s : SystemState R)
      → labels s.fv ≡ labels p.sys.fv
      → IsMirrored p
      → IsMirrored (record p { sys = s })
  same_labels-IsMirrored p s same h = record {
    distinct = subst IsDistinct (sym same) h.distinct;
    shown = subst (All (Shows p.device.wire)) (sym same) h.shown;
  }

  perform_on-IsMirrored :
      (o : Operation R) (p : Plant R) → IsMirrored p → IsMirrored (perform_on o p)
  unfolding perform_on
  perform_on-IsMirrored closes_all p h = shut_on-IsMirrored p h
  perform_on-IsMirrored (sets_target id t) p h =
      same_labels-IsMirrored p _ (labels-perform (sets_target id t) p.sys (λ e. cc)) h
  perform_on-IsMirrored (sets_mode id m) p h =
      same_labels-IsMirrored p _ (labels-perform (sets_mode id m) p.sys (λ e. cc)) h
  perform_on-IsMirrored (forces_valve now id st ttl) p h =
      same_labels-IsMirrored p _ (labels-perform (forces_valve now id st ttl) p.sys (λ e. cc)) h
  perform_on-IsMirrored (clears_override id) p h =
      same_labels-IsMirrored p _ (labels-perform (clears_override id) p.sys (λ e. cc)) h
  perform_on-IsMirrored (overrides_until id st until) p h =
      same_labels-IsMirrored p _ (labels-perform (overrides_until id st until) p.sys (λ e. cc)) h
  perform_on-IsMirrored (reads_temp now id c) p h =
      same_labels-IsMirrored p _ (labels-perform (reads_temp now id c) p.sys (λ e. cc)) h
  perform_on-IsMirrored (applies_settings band_c n m) p h =
      same_labels-IsMirrored p _ (labels-perform (applies_settings band_c n m) p.sys (λ e. cc)) h

  -- The port takes the line, if the happening is a tick that may send one.
  abbrev pub IsTaken : Happening R → Type 0
  IsTaken (ticks accepted now i) = accepted ≡ true
  IsTaken (pings now) = Unit {0}
  IsTaken (performs o) = Unit {0}

  happen-IsMirrored :
      (e : Happening R) (p : Plant R) → IsTaken e → IsMirrored p → IsMirrored (happen e p)
  unfolding happen ping_tick send told
  happen-IsMirrored (ticks accepted now i) p taken h =
      subst (λ (b : Bool). IsMirrored (tick_on b now i p)) (sym taken)
        (tick_on-IsMirrored now i p h)
  happen-IsMirrored (pings now) p taken h = record {
    distinct = h.distinct;
    shown = pinged p.device.wire (labels p.sys.fv) h.shown;
  }
  happen-IsMirrored (performs o) p taken h = perform_on-IsMirrored o p h

  -- Over a device whose port takes every line, whatever ticks, pings, requests, readings and
  -- interventions of the watchdog follow each other: if no id stands twice and each valve was as the
  -- wire last told it, or closed if it told nothing, so it is afterwards.
  pub run-IsMirrored :
      (es : List (Happening R)) (p : Plant R)
      → All IsTaken es
      → IsMirrored p
      → IsMirrored (run es p)
  unfolding run
  run-IsMirrored [] p taken h = h
  run-IsMirrored (e ∷ es) p taken h =
      run-IsMirrored es (happen e p) taken.1 (happen-IsMirrored e p taken.0 h)
