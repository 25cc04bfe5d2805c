-- ===== src/Control/Fleet.antt =====
-- The loops over `s.FV` of controller.go: the first fermenter with an id, and how many valves are
-- open.
use phb_open_ferm.Prelude.{
  ℕ, zero, suc, ◌+◌, String, ◌≡◌, ◌≢◌, refl, Option, none, some, List, [], ◌∷◌, arith, ◌==◌,
  if◌then◌else◌, length, get_elem?, set, All, Bool-cases, inl, inr, eq_iff,
}
use phb_open_ferm.Control.{Fermenter, valve_open, valve_closed}

-- The texts that the controller compares are distinct.
pub open≢closed : valve_open ≢ valve_closed
open≢closed e = cc

pub empty≢open : "" ≢ valve_open
empty≢open e = cc

pub empty≢closed : "" ≢ valve_closed
empty≢closed e = cc

module _ {R : Type 0} where
  -- for _, x := range s.FV { if x.ID == id { … } }
  unfoldable pub find : String → List (Fermenter R) → Option (Fermenter R)
  find id [] = none
  find id (x ∷ xs) = if x.id == id then some x else find id xs

  -- The same loop with an assignment through `x`.
  unfoldable pub update_first :
      String → (Fermenter R → Fermenter R) → List (Fermenter R) → List (Fermenter R)
  update_first id f [] = []
  update_first id f (x ∷ xs) = if x.id == id then f x ∷ xs else x ∷ update_first id f xs

  abbrev pub open_weight : Fermenter R → ℕ
  open_weight x = if x.valve == valve_open then 1 else 0

  -- for _, x := range sys.FV { if x.Valve == "open" { openCount++ } }
  unfoldable pub count_open : List (Fermenter R) → ℕ
  count_open [] = 0
  count_open (x ∷ xs) = open_weight x + count_open xs

  pub length-update_first :
      (id : String) (f : Fermenter R → Fermenter R) (xs : List (Fermenter R))
      → length (update_first id f xs) ≡ length xs
  unfolding update_first
  length-update_first id f [] = refl
  length-update_first id f (x ∷ xs) = ground (arith, length-update_first id f xs)

  -- An update that keeps a predicate keeps it for all.
  pub All-update_first {κ} :
      (P : Fermenter R → Type κ) (id : String) (f : Fermenter R → Fermenter R)
      (xs : List (Fermenter R))
      → ((x : Fermenter R) → P x → P (f x))
      → All P xs
      → All P (update_first id f xs)
  unfolding update_first
  All-update_first P id f [] keep h = tt
  All-update_first P id f (x ∷ xs) keep h = elim (Bool-cases (x.id == id)) [
    | inl e ↦ rw (e, if◌then◌else◌) (keep x h.0, h.1)
    | inr e ↦ rw (e, if◌then◌else◌) (h.0, All-update_first P id f xs keep h.1)
  ]

  -- The number of open valves after a write at an index.
  pub count_open-set :
      (xs : List (Fermenter R)) (i : ℕ) (x y : Fermenter R)
      → get_elem? xs i ≡ some x
      → count_open (set xs i y) + open_weight x ≡ count_open xs + open_weight y
  unfolding count_open
  count_open-set [] i x y e = absurd (ground arith)
  count_open-set (z ∷ xs) zero x y e = let same : z ≡ x = cc in rw same (omega arith)
  count_open-set (z ∷ xs) (suc i) x y e = omega (arith, count_open-set xs i x y e)

  -- An id that no fermenter has updates nothing.
  pub update_first_missing :
      (id : String) (f : Fermenter R → Fermenter R) (xs : List (Fermenter R))
      → find id xs ≡ none
      → update_first id f xs ≡ xs
  unfolding find update_first
  update_first_missing id f [] e = refl
  update_first_missing id f (x ∷ xs) e = ground (arith, update_first_missing id f xs)

  -- What a later look finds: the updated fermenter under that id, the old one under another.
  pub find-update_first :
      (id j : String) (f : Fermenter R → Fermenter R) (xs : List (Fermenter R))
      → ((x : Fermenter R) → (f x).id ≡ x.id)
      → find j (update_first id f xs)
        ≡ (if id == j then elim (find id xs) [ none ↦ none | some x ↦ some (f x) ] else find j xs)
  unfolding find update_first
  find-update_first id j f [] keeps = ground arith
  find-update_first id j f (x ∷ xs) keeps = ground (
    arith,
    keeps x,
    eq_iff id j,
    eq_iff x.id id,
    eq_iff x.id j,
    find-update_first id j f xs keeps,
  )
