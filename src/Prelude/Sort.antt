-- ===== src/Prelude/Sort.antt =====
-- `ORDER BY` an integer: a sort that keeps rows of one key in their order.
use mathlib.Core.List.Perm
use mathlib.Core.List.{Perm}
use mathlib.Core.List.{List, [], ◌∷◌}
use native.Mathlib.Omega.{arith}
use phb_open_ferm.Prelude.Tests.{if◌then◌else◌, if-cases}
use phb_open_ferm.Prelude.Int.{ℤ, leb_ℤ, ◌≤ℤ◌}

module _ {ℓ} {A : Type ℓ} (key : A → ℤ) where
  -- Before the first row with a key that is not smaller.
  unfoldable pub insert_by : A → List A → List A
  insert_by x [] = x ∷ []
  insert_by x (y ∷ ys) =
      let later = insert_by x ys in if leb_ℤ (key x) (key y) then x ∷ y ∷ ys else y ∷ later

  unfoldable pub sort_by : List A → List A
  unfolding insert_by
  sort_by [] = []
  sort_by (x ∷ xs) = insert_by x (sort_by xs)

  -- Each key is at most the next one.
  abbrev pub StartsFrom : ℤ → List A → Type 0
  StartsFrom k [] = Unit
  StartsFrom k (x ∷ xs) = k ≤ℤ key x

  abbrev pub IsSorted : List A → Type 0
  IsSorted [] = Unit
  IsSorted (x ∷ xs) = StartsFrom (key x) xs × IsSorted xs

  StartsFrom-insert_by :
      (k : ℤ) (x : A) (ys : List A) → k ≤ℤ key x → StartsFrom k ys → StartsFrom k (insert_by x ys)
  unfolding insert_by
  StartsFrom-insert_by k x [] h s = h
  StartsFrom-insert_by k x (y ∷ ys) h s =
      if-cases (StartsFrom k) (leb_ℤ (key x) (key y)) (λ _. h) (λ _. s)

  IsSorted-insert_by : (x : A) (ys : List A) → IsSorted ys → IsSorted (insert_by x ys)
  unfolding insert_by
  IsSorted-insert_by x [] s = (tt, tt)
  IsSorted-insert_by x (y ∷ ys) s =
      if-cases IsSorted (leb_ℤ (key x) (key y)) (λ low. (ground arith, s))
        (λ high.
          (StartsFrom-insert_by (key y) x ys (ground arith) s.0, IsSorted-insert_by x ys s.1))

  pub sort_by-IsSorted : (xs : List A) → IsSorted (sort_by xs)
  unfolding sort_by
  sort_by-IsSorted [] = tt
  sort_by-IsSorted (x ∷ xs) = IsSorted-insert_by x (sort_by xs) (sort_by-IsSorted xs)

  insert_by-perm : (x : A) (ys : List A) → Perm (insert_by x ys) (x ∷ ys)
  unfolding insert_by
  insert_by-perm x [] = Perm.refl (x ∷ [])
  insert_by-perm x (y ∷ ys) =
      if-cases (λ zs. Perm zs (x ∷ y ∷ ys)) (leb_ℤ (key x) (key y)) (λ _. Perm.refl (x ∷ y ∷ ys))
        (λ _. Perm.trans (Perm.cons y (insert_by-perm x ys)) (Perm.swap x y ys))

  -- The same rows, as often.
  pub sort_by-perm : (xs : List A) → Perm (sort_by xs) xs
  unfolding sort_by
  sort_by-perm [] = Perm.refl []
  sort_by-perm (x ∷ xs) = Perm.trans (insert_by-perm x (sort_by xs)) (Perm.cons x (sort_by-perm xs))
