-- ===== src/Alarm/Laws.antt =====
-- What one call of `Evaluate` does to the alarm under a key.
use phb_open_ferm.Prelude.{
  ℕ, zero, suc, String, ◌≡◌, refl, inl, inr, Bool, true, false, ◌||◌, some, List, [], ◌∷◌, ◌++◌,
  arith, test_self, get_elem?,
}
use phb_open_ferm.Prelude.Int.{pos, leb_ℤ}
use phb_open_ferm.Prelude.Dict.{lookup}
use phb_open_ferm.Time.{Time, since, since_self}
use phb_open_ferm.Float64.{Float64}
use phb_open_ferm.Control.{Fermenter, SystemState}
use phb_open_ferm.Alarm.{AlarmType, Manager, Alarm, key, high_temp, low_temp}
use phb_open_ferm.Alarm.Evaluate.{
  evaluate, to_open, to_close, each, open_one, is_high, is_low, Candidate, only_if, candidate,
}
use phb_open_ferm.Alarm.Phases.{
  has_key, SameConfig, SameConfig-opens, IsRefreshed, opens_keep, opens_candidate, closes_early,
  is_due,
}

-- The two sides of a band.
pub data Side : Type 0 where
  above below : Side

abbrev pub type_of : Side → AlarmType
type_of above = high_temp
type_of below = low_temp

abbrev pub is_out : {R : Type 0} ⦃f : Float64 R⦄ → Side → Manager R → Fermenter R → Bool
is_out above m x = is_high m x
is_out below m x = is_low m x

module _ {R : Type 0} where
  has_key-append :
      (k : String) (xs ys : List (Candidate R))
      → has_key k (xs ++ ys) ≡ (has_key k xs || has_key k ys)
  unfolding has_key
  has_key-append k [] ys = refl
  has_key-append k (x ∷ xs) ys = ground (arith, has_key-append k xs ys)

module _ {R : Type 0} ⦃f : Float64 R⦄ where
  -- A fermenter out of its band is a candidate for the alarm of that side.
  has_key-high :
      (m : Manager R) (fvs : List (Fermenter R)) (i : ℕ) (x : Fermenter R)
      → get_elem? fvs i ≡ some x
      → is_high m x ≡ true
      → has_key (key high_temp x.id) (to_open m fvs) ≡ true
  unfolding to_open has_key
  has_key-high m [] i x e h = absurd (ground arith)
  has_key-high m (y ∷ ys) zero x e h =
      let same : y ≡ x = cc in rw same (ground (arith, test_self (key high_temp x.id)))
  has_key-high m (y ∷ ys) (suc i) x e h = ground (
    arith,
    has_key-high m ys i x e h,
    has_key-append (key high_temp x.id) (only_if (is_low m y) (candidate low_temp y))
        (to_open m ys),
  )

  has_key-low :
      (m : Manager R) (fvs : List (Fermenter R)) (i : ℕ) (x : Fermenter R)
      → get_elem? fvs i ≡ some x
      → is_low m x ≡ true
      → has_key (key low_temp x.id) (to_open m fvs) ≡ true
  unfolding to_open has_key
  has_key-low m [] i x e h = absurd (ground arith)
  has_key-low m (y ∷ ys) zero x e h =
      let same : y ≡ x = cc in rw same (ground (arith, test_self (key low_temp x.id)))
  has_key-low m (y ∷ ys) (suc i) x e h = ground (
    arith,
    has_key-low m ys i x e h,
    has_key-append (key low_temp x.id) (only_if (is_low m y) (candidate low_temp y)) (to_open m ys),
  )

  -- The debounce is not over at the moment of the last sight.
  not_due_now :
      (now : Time) (m m' : Manager R) (a : Alarm R)
      → SameConfig m m'
      → leb_ℤ m.debounce (pos 0) ≡ false
      → a.last_seen ≡ now
      → is_due now m' a ≡ false
  not_due_now now m m' a same h e = rw (e, since_self now, same.debounce) h

  -- What is open after the first loop and was seen now is open after the call.
  seen_now_stays :
      (now : Time) (s : SystemState R) (m : Manager R) (k : String)
      → leb_ℤ m.debounce (pos 0) ≡ false
      → has_key k (to_open m s.fv) ≡ true
      → (a : Alarm R) × (lookup k (evaluate now s m).0.active ≡ some a) × (a.last_seen ≡ now)
  unfolding evaluate
  seen_now_stays now s m k h c =
      let m' = (each (open_one now) (to_open m s.fv) m).0 in
      let (a, at, seen) = opens_candidate now k (to_open m s.fv) m c in
      (
        a,
        closes_early now k (to_close m s.fv) m' a at
            (not_due_now now m m' a (SameConfig-opens now (to_open m s.fv) m) h seen),
        seen,
      )

  -- With a positive debounce, after a call of `Evaluate` every fermenter above its upper bound has an
  -- open HIGH_TEMP alarm, and every one below its lower bound an open LOW_TEMP alarm, that was seen at
  -- the time of the call.
  pub evaluate_raises :
      (side : Side) (now : Time) (s : SystemState R) (m : Manager R) (i : ℕ) (x : Fermenter R)
      → leb_ℤ m.debounce (pos 0) ≡ false
      → get_elem? s.fv i ≡ some x
      → is_out side m x ≡ true
      → (a : Alarm R) × (lookup (key (type_of side) x.id) (evaluate now s m).0.active ≡ some a)
        × (a.last_seen ≡ now)
  evaluate_raises above now s m i x h e out =
      seen_now_stays now s m (key high_temp x.id) h (has_key-high m s.fv i x e out)
  evaluate_raises below now s m i x h e out =
      seen_now_stays now s m (key low_temp x.id) h (has_key-low m s.fv i x e out)

  -- With a positive debounce, an alarm that was last seen less than the debounce ago survives a call
  -- of `Evaluate`, whatever the temperatures: its start, its acknowledgement and its message stay.
  pub evaluate_keeps :
      (now : Time) (s : SystemState R) (m : Manager R) (k : String) (a : Alarm R)
      → leb_ℤ m.debounce (pos 0) ≡ false
      → lookup k m.active ≡ some a
      → leb_ℤ m.debounce (since now a.last_seen) ≡ false
      → (a' : Alarm R) × (lookup k (evaluate now s m).0.active ≡ some a') × IsRefreshed now a a'
  unfolding evaluate
  evaluate_keeps now s m k a h e early =
      let m' = (each (open_one now) (to_open m s.fv) m).0 in
      let same = SameConfig-opens now (to_open m s.fv) m in
      let (b, at, kept) = opens_keep now k (to_open m s.fv) m a e in
      (
        b,
        closes_early now k (to_close m s.fv) m' b at (elim kept.seen [
          | inl old ↦ rw (old, same.debounce) early
          | inr new ↦ not_due_now now m m' b same h new
        ]),
        kept,
      )
