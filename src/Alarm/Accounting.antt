-- ===== src/Alarm/Accounting.antt =====
-- The event log against the number of open alarms.
use phb_open_ferm.Prelude.{
  ℕ, ◌+◌, String, ◌≡◌, refl, ◌∙◌, inl, inr, true, List, [], ◌∷◌, ◌++◌, arith, ◌==◌, if◌then◌else◌,
  Option-cases, Bool-cases,
}
use phb_open_ferm.Prelude.Int.{leb_ℤ}
use phb_open_ferm.Prelude.Dict.{
  lookup, Unique, Unique-insert, Unique-erase, length-insert_known, length-insert_new,
  length-erase_known,
}
use phb_open_ferm.Time.{Time, since}
use phb_open_ferm.Float64.{Float64}
use phb_open_ferm.Control.{SystemState}
use phb_open_ferm.Alarm.{Manager, Event, active_count}
use phb_open_ferm.Alarm.Evaluate.{Candidate, evaluate, to_open, to_close, each, open_one, close_one}
use phb_open_ferm.Alarm.Phases.{key_of}

-- How many events of a type there are.
unfoldable pub count_events : String → List Event → ℕ
count_events t [] = 0
count_events t (e ∷ es) = (if e.typ == t then 1 else 0) + count_events t es

abbrev pub opens : List Event → ℕ
opens = count_events "ALARM_OPEN"

abbrev pub clears : List Event → ℕ
clears = count_events "ALARM_CLEAR"

count_events-append :
    (t : String) (es fs : List Event)
    → count_events t (es ++ fs) ≡ count_events t es + count_events t fs
unfolding count_events
count_events-append t [] fs = omega arith
count_events-append t (e ∷ es) fs = omega (arith, count_events-append t es fs)

module _ {R : Type 0} where
  -- From `m` to `m'` the open alarms change by what the events tell.
  pub record Accounts (m m' : Manager R) (es : List Event) : Type 0 where
    pub balance : active_count m' + clears es ≡ active_count m + opens es
    pub unique : Unique m'.active
    pub hook : m'.has_hook ≡ m.has_hook

  Accounts-step :
      {m m' m'' : Manager R} {es fs : List Event}
      → Accounts m m' es
      → Accounts m' m'' fs
      → Accounts m m'' (es ++ fs)
  Accounts-step {es} {fs} p q = record {
    balance = omega (
      arith,
      p.balance,
      q.balance,
      count_events-append "ALARM_OPEN" es fs,
      count_events-append "ALARM_CLEAR" es fs,
    );
    unique = q.unique;
    hook = q.hook ∙ p.hook;
  }

module _ {R : Type 0} ⦃f : Float64 R⦄ (now : Time) where
  open_one-Accounts :
      (c : Candidate R) (m : Manager R)
      → m.has_hook ≡ true
      → Unique m.active
      → Accounts m (open_one now c m).0 (open_one now c m).1
  unfolding open_one active_count count_events
  open_one-Accounts c m h u = elim (Option-cases (lookup (key_of c) m.active)) [
    | inl e ↦
        rw (e, open_one, h, if◌then◌else◌)
          (record {
            balance = omega (arith, length-insert_new (key_of c) _ m.active e);
            unique = Unique-insert (key_of c) _ m.active u;
            hook = refl;
          })
    | inr (a, e) ↦
        rw (e, open_one)
          (record {
            balance = omega (arith, length-insert_known (key_of c) _ m.active a e);
            unique = Unique-insert (key_of c) _ m.active u;
            hook = refl;
          })
  ]

  close_one-Accounts :
      (c : Candidate R) (m : Manager R)
      → m.has_hook ≡ true
      → Unique m.active
      → Accounts m (close_one now c m).0 (close_one now c m).1
  unfolding close_one active_count count_events
  close_one-Accounts c m h u = elim (Option-cases (lookup (key_of c) m.active)) [
    | inl e ↦ rw (e, close_one) (record { balance = omega arith; unique = u; hook = refl })
    | inr (a, e) ↦ elim (Bool-cases (leb_ℤ m.debounce (since now a.last_seen))) [
      | inl due ↦
          rw (e, close_one, due, h, if◌then◌else◌)
            (record {
              balance = omega (arith, length-erase_known (key_of c) m.active a u e);
              unique = Unique-erase (key_of c) m.active u;
              hook = refl;
            })
      | inr early ↦
          rw (e, close_one, early, if◌then◌else◌)
            (record { balance = omega arith; unique = u; hook = refl })
    ]
  ]

module _ {R : Type 0} (step : Candidate R → Manager R → Manager R × List Event)
    (one : (c : Candidate R) (m : Manager R)
      → m.has_hook ≡ true
      → Unique m.active
      → Accounts m (step c m).0 (step c m).1) where
  each-Accounts :
      (cs : List (Candidate R)) (m : Manager R)
      → m.has_hook ≡ true
      → Unique m.active
      → Accounts m (each step cs m).0 (each step cs m).1
  unfolding each count_events
  each-Accounts [] m h u = record { balance = omega arith; unique = u; hook = refl }
  each-Accounts (c ∷ cs) m h u =
      let first = one c m h u in
      Accounts-step first (each-Accounts cs (step c m).0 (first.hook ∙ h) first.unique)

module _ {R : Type 0} ⦃f : Float64 R⦄ where
  -- With the event hook set and each key held once, a call of `Evaluate` logs one ALARM_OPEN for each
  -- alarm that it opens and one ALARM_CLEAR for each that it closes: the change of `ActiveCount` is
  -- the difference of their numbers, and each key is still held once.
  pub evaluate-Accounts :
      (now : Time) (s : SystemState R) (m : Manager R)
      → m.has_hook ≡ true
      → Unique m.active
      → Accounts m (evaluate now s m).0 (evaluate now s m).1
  unfolding evaluate
  evaluate-Accounts now s m h u =
      let opened = each-Accounts (open_one now) (open_one-Accounts now) (to_open m s.fv) m h u in
      Accounts-step opened (
        each-Accounts (close_one now) (close_one-Accounts now) (to_close m s.fv) _ (opened.hook ∙ h)
          opened.unique)
