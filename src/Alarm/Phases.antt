-- ===== src/Alarm/Phases.antt =====
-- What the two loops of `Evaluate` do to the alarm under one key.
use phb_open_ferm.Prelude.{
  String, ◌≡◌, refl, ◌∙◌, ◌⊎◌, inl, inr, Bool, true, false, ◌||◌, ◌&&◌, none, some, List, [], ◌∷◌,
  arith, ◌==◌, eq_iff, if◌then◌else◌, Bool-cases, Option-cases,
}
use phb_open_ferm.Prelude.Int.{leb_ℤ}
use phb_open_ferm.Prelude.Dict.{lookup, insert, erase, lookup-insert, lookup-erase}
use phb_open_ferm.Time.{Time, since}
use phb_open_ferm.Float64.{Float64}
use phb_open_ferm.Alarm.{Manager, Alarm, key, refresh, new_alarm}
use phb_open_ferm.Alarm.Evaluate.{Candidate, open_one, close_one, each, open_message}

module _ {R : Type 0} where
  abbrev pub key_of : Candidate R → String
  key_of c = key c.typ c.fv.id

  -- Some candidate has this key.
  unfoldable pub has_key : String → List (Candidate R) → Bool
  has_key k [] = false
  has_key k (c ∷ cs) = key_of c == k || has_key k cs

  -- The configuration that the loops leave alone.
  pub record SameConfig (m m' : Manager R) : Type 0 where
    pub high_marg : m'.high_marg ≡ m.high_marg
    pub low_marg : m'.low_marg ≡ m.low_marg
    pub debounce : m'.debounce ≡ m.debounce
    pub has_hook : m'.has_hook ≡ m.has_hook

  -- The same alarm, seen at the same time or now.
  pub record IsRefreshed (now : Time) (a a' : Alarm R) : Type 0 where
    pub started : a'.started ≡ a.started
    pub acknowledged : a'.acknowledged ≡ a.acknowledged
    pub message : a'.message ≡ a.message
    pub seen : (a'.last_seen ≡ a.last_seen) ⊎ (a'.last_seen ≡ now)

  IsRefreshed-refl : (now : Time) (a : Alarm R) → IsRefreshed now a a
  IsRefreshed-refl now a = ground arith

  pub IsRefreshed-trans :
      (now : Time) {a b c : Alarm R}
      → IsRefreshed now a b
      → IsRefreshed now b c
      → IsRefreshed now a c
  IsRefreshed-trans now p q = ground arith

module _ {R : Type 0} ⦃f : Float64 R⦄ (now : Time) where
  SameConfig-open_one : (c : Candidate R) (m : Manager R) → SameConfig m (open_one now c m).0
  unfolding open_one
  SameConfig-open_one c m = ground arith

  SameConfig-close_one : (c : Candidate R) (m : Manager R) → SameConfig m (close_one now c m).0
  unfolding close_one
  SameConfig-close_one c m = ground arith

  pub SameConfig-opens :
      (cs : List (Candidate R)) (m : Manager R) → SameConfig m (each (open_one now) cs m).0
  unfolding each
  SameConfig-opens [] m = ground arith
  SameConfig-opens (c ∷ cs) m =
      ground (arith, SameConfig-open_one c m, SameConfig-opens cs (open_one now c m).0)

  -- The alarm that a round of the first loop writes.
  opened : Candidate R → Manager R → Alarm R
  opened c m = elim (lookup (key_of c) m.active) [
    | some a ↦ refresh now c.fv a
    | none ↦ new_alarm c.typ c.fv now (if m.has_hook then open_message m c else "")
  ]

  open_one-active :
      (c : Candidate R) (m : Manager R)
      → (open_one now c m).0.active ≡ insert (key_of c) (opened c m) m.active
  unfolding open_one opened
  open_one-active c m = elim (Option-cases (lookup (key_of c) m.active)) [
    | inl e ↦ rw (e, open_one, opened)
    | inr (a, e) ↦ rw (e, open_one, opened)
  ]

  last_seen-opened : (c : Candidate R) (m : Manager R) → (opened c m).last_seen ≡ now
  unfolding opened
  last_seen-opened c m = ground arith

  opened_known :
      (c : Candidate R) (m : Manager R) (a : Alarm R)
      → lookup (key_of c) m.active ≡ some a
      → opened c m ≡ refresh now c.fv a
  unfolding opened
  opened_known c m a e = rw (e, opened)

  lookup-open_one :
      (k : String) (c : Candidate R) (m : Manager R)
      → lookup k (open_one now c m).0.active
        ≡ (if key_of c == k then some (opened c m) else lookup k m.active)
  lookup-open_one k c m = rw (open_one-active c m) (lookup-insert (key_of c) k _ m.active)

  -- An open alarm stays open.
  open_one_keeps :
      (k : String) (c : Candidate R) (m : Manager R) (a : Alarm R)
      → lookup k m.active ≡ some a
      → (a' : Alarm R) × (lookup k (open_one now c m).0.active ≡ some a') × IsRefreshed now a a'
  open_one_keeps k c m a e = elim (Bool-cases (key_of c == k)) [
    | inl same ↦
        let known = opened_known c m a (rw ((eq_iff (key_of c) k).0 same) e) in
        (
          refresh now c.fv a,
          lookup-open_one k c m ∙ rw (same, known, if◌then◌else◌),
          record { started = refl; acknowledged = refl; message = refl; seen = inr refl },
        )
    | inr other ↦ (a, lookup-open_one k c m ∙ rw (other, if◌then◌else◌) e, IsRefreshed-refl now a)
  ]

  pub opens_keep :
      (k : String) (cs : List (Candidate R)) (m : Manager R) (a : Alarm R)
      → lookup k m.active ≡ some a
      → (a' : Alarm R) × (lookup k (each (open_one now) cs m).0.active ≡ some a')
        × IsRefreshed now a a'
  unfolding each
  opens_keep k [] m a e = (a, e, IsRefreshed-refl now a)
  opens_keep k (c ∷ cs) m a e =
      let (b, at_b, ab) = open_one_keeps k c m a e in
      let (d, at_d, bd) = opens_keep k cs (open_one now c m).0 b at_b in
      (d, at_d, IsRefreshed-trans now ab bd)

  -- An alarm with a candidate is open after the first loop, and was seen now.
  pub opens_candidate :
      (k : String) (cs : List (Candidate R)) (m : Manager R)
      → has_key k cs ≡ true
      → (a : Alarm R) × (lookup k (each (open_one now) cs m).0.active ≡ some a)
        × (a.last_seen ≡ now)
  unfolding each has_key
  opens_candidate k [] m h = absurd (ground arith)
  opens_candidate k (c ∷ cs) m h = elim (Bool-cases (key_of c == k)) [
    | inl same ↦
        let (a, at, kept) =
          opens_keep k cs (open_one now c m).0 (opened c m)
            (lookup-open_one k c m ∙ rw (same, if◌then◌else◌)) in
        (a, at, ground (arith, kept.seen, last_seen-opened c m))
    | inr other ↦ opens_candidate k cs (open_one now c m).0 (ground arith)
  ]

  -- And one without a candidate is as before.
  pub opens_other :
      (k : String) (cs : List (Candidate R)) (m : Manager R)
      → has_key k cs ≡ false
      → lookup k (each (open_one now) cs m).0.active ≡ lookup k m.active
  unfolding each has_key
  opens_other k [] m h = refl
  opens_other k (c ∷ cs) m h =
      opens_other k cs (open_one now c m).0 (ground arith) ∙ lookup-open_one k c m ∙ ground arith

  -- The second loop: an alarm closes if a candidate has its key and it has been quiet long enough.
  abbrev pub is_due : Manager R → Alarm R → Bool
  is_due m a = leb_ℤ m.debounce (since now a.last_seen)

  -- Whether a round of the second loop deletes.
  closes : Candidate R → Manager R → Bool
  closes c m = elim (lookup (key_of c) m.active) [ none ↦ false | some a ↦ is_due m a ]

  close_one-active :
      (c : Candidate R) (m : Manager R)
      → (close_one now c m).0.active ≡ (if closes c m then erase (key_of c) m.active else m.active)
  unfolding close_one closes
  close_one-active c m = elim (Option-cases (lookup (key_of c) m.active)) [
    | inl e ↦ rw (e, close_one, closes)
    | inr (a, e) ↦ rw (e, close_one, closes) (ground arith)
  ]

  lookup-close_one :
      (k : String) (c : Candidate R) (m : Manager R)
      → lookup k (close_one now c m).0.active
        ≡ (if closes c m && (key_of c == k) then none else lookup k m.active)
  lookup-close_one k c m =
      rw (close_one-active c m) (ground (arith, lookup-erase (key_of c) k m.active))

  closes_known :
      (c : Candidate R) (m : Manager R) (a : Alarm R)
      → lookup (key_of c) m.active ≡ some a
      → closes c m ≡ is_due m a
  unfolding closes
  closes_known c m a e = rw (e, closes)

  -- Under the key of a candidate: what becomes of an alarm.
  close_one_same :
      (k : String) (c : Candidate R) (m : Manager R) (a : Alarm R)
      → lookup k m.active ≡ some a
      → (key_of c == k) ≡ true
      → lookup k (close_one now c m).0.active ≡ (if is_due m a then none else some a)
  close_one_same k c m a e same =
      lookup-close_one k c m
      ∙ rw (closes_known c m a (rw ((eq_iff (key_of c) k).0 same) e), same, e) (ground arith)

  close_one_other :
      (k : String) (c : Candidate R) (m : Manager R)
      → (key_of c == k) ≡ false
      → lookup k (close_one now c m).0.active ≡ lookup k m.active
  close_one_other k c m other = lookup-close_one k c m ∙ rw other (ground arith)

  pub closes_none :
      (k : String) (cs : List (Candidate R)) (m : Manager R)
      → lookup k m.active ≡ none
      → lookup k (each (close_one now) cs m).0.active ≡ none
  unfolding each
  closes_none k [] m e = e
  closes_none k (c ∷ cs) m e =
      closes_none k cs (close_one now c m).0 (lookup-close_one k c m ∙ rw e (ground arith))

  -- An alarm that is not due stays as it is.
  pub closes_early :
      (k : String) (cs : List (Candidate R)) (m : Manager R) (a : Alarm R)
      → lookup k m.active ≡ some a
      → is_due m a ≡ false
      → lookup k (each (close_one now) cs m).0.active ≡ some a
  unfolding each
  closes_early k [] m a e h = e
  closes_early k (c ∷ cs) m a e h =
      closes_early k cs (close_one now c m).0 a
        (elim (Bool-cases (key_of c == k)) [
          | inl same ↦ close_one_same k c m a e same ∙ rw (h, if◌then◌else◌)
          | inr other ↦ close_one_other k c m other ∙ e
        ])
        (rw (SameConfig-close_one c m).debounce h)

  -- One that is due goes if a candidate has its key.
  pub closes_due :
      (k : String) (cs : List (Candidate R)) (m : Manager R) (a : Alarm R)
      → lookup k m.active ≡ some a
      → is_due m a ≡ true
      → lookup k (each (close_one now) cs m).0.active ≡ (if has_key k cs then none else some a)
  unfolding each has_key
  closes_due k [] m a e h = e
  closes_due k (c ∷ cs) m a e h = elim (Bool-cases (key_of c == k)) [
    | inl same ↦
        closes_none k cs (close_one now c m).0
          (close_one_same k c m a e same ∙ rw (h, if◌then◌else◌))
        ∙ rw same
    | inr other ↦
        closes_due k cs (close_one now c m).0 a (close_one_other k c m other ∙ e)
          (rw (SameConfig-close_one c m).debounce h)
        ∙ rw other
  ]
