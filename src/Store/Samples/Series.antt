-- ===== src/Store/Samples/Series.antt =====
-- The points of a series.
use phb_open_ferm.Prelude.{
  ℕ, suc, ◌≡◌, refl, ap, ◌∙◌, Bool, true, false, some, List, [], ◌∷◌, map, arith, if◌then◌else◌,
  if-cases,
}
use phb_open_ferm.Prelude.Int.{ℤ, eqb_ℤ, leb_ℤ, ◌<ℤ◌}
use phb_open_ferm.Prelude.Sort.{insert_by, sort_by, IsSorted, sort_by-IsSorted}
use phb_open_ferm.Store.{SampleRow}
use phb_open_ferm.Store.Samples.{SeriesPoint, bucket_of, distinct, point, series}

abbrev pub includes : ℤ → List ℤ → Bool
includes c [] = false
includes c (x ∷ xs) = let later = includes c xs in if eqb_ℤ x c then true else later

abbrev pub StartsAbove : ℤ → List ℤ → Type 0
StartsAbove k [] = Unit
StartsAbove k (x ∷ xs) = k <ℤ x

abbrev pub IsAscending : List ℤ → Type 0
IsAscending [] = Unit
IsAscending (x ∷ xs) = StartsAbove x xs × IsAscending xs

-- A number itself, as the key that `sort_by` sorts by.
abbrev itself : ℤ → ℤ
itself b = b

includes-insert_by :
    (c x : ℤ) (ys : List ℤ) → includes c (insert_by itself x ys) ≡ includes c (x ∷ ys)
unfolding insert_by
includes-insert_by c x [] = refl
includes-insert_by c x (y ∷ ys) =
    if-cases (λ zs. includes c zs ≡ includes c (x ∷ y ∷ ys)) (leb_ℤ x y) (λ _. refl)
      (λ _. ground (arith, includes-insert_by c x ys))

includes-sort_by : (c : ℤ) (xs : List ℤ) → includes c (sort_by itself xs) ≡ includes c xs
unfolding sort_by
includes-sort_by c [] = refl
includes-sort_by c (x ∷ xs) =
    includes-insert_by c x (sort_by itself xs) ∙ ground (arith, includes-sort_by c xs)

includes-distinct : (c : ℤ) (xs : List ℤ) → includes c (distinct xs) ≡ includes c xs
unfolding distinct
includes-distinct c [] = refl
includes-distinct c (a ∷ []) = refl
includes-distinct c (a ∷ b ∷ rest) =
    if-cases (λ zs. includes c zs ≡ includes c (a ∷ b ∷ rest)) (eqb_ℤ a b)
      (λ same. ground (arith, includes-distinct c (b ∷ rest)))
      (λ _. ground (arith, includes-distinct c (b ∷ rest)))

StartsAbove-distinct :
    (k b : ℤ) (rest : List ℤ)
    → k <ℤ b
    → IsSorted itself (b ∷ rest)
    → StartsAbove k (distinct (b ∷ rest))
unfolding distinct
StartsAbove-distinct k b [] low s = low
StartsAbove-distinct k b (c ∷ rest) low s =
    if-cases (StartsAbove k) (eqb_ℤ b c)
      (λ _. StartsAbove-distinct k c rest (ground (arith, low, s.0)) s.1) (λ _. low)

IsAscending-distinct : (xs : List ℤ) → IsSorted itself xs → IsAscending (distinct xs)
unfolding distinct
IsAscending-distinct [] s = tt
IsAscending-distinct (a ∷ []) s = (tt, tt)
IsAscending-distinct (a ∷ b ∷ rest) s =
    let others = IsAscending-distinct (b ∷ rest) s.1 in
    if-cases IsAscending (eqb_ℤ a b) (λ _. others)
      (λ other. (StartsAbove-distinct a b rest (ground (arith, other, s.0)) s.1, others))

module _ {R : Type 0} where
  starts_of_points :
      (avg : List R → R) (n : ℕ) (rows : List (SampleRow R)) (bs : List ℤ)
      → map (λ (p : SeriesPoint R). p.t) (map (point avg n rows) bs) ≡ bs
  starts_of_points avg n rows [] = refl
  starts_of_points avg n rows (b ∷ bs) = ap (λ l. b ∷ l) (starts_of_points avg n rows bs)

  abbrev pub buckets : ℕ → List (SampleRow R) → List ℤ
  buckets n rows = map (λ (r : SampleRow R). bucket_of n r.ts) rows

  -- With buckets of at least a second, a series has its points in the order of time, none twice, and
  -- there is a point exactly for each bucket that a sample falls into.
  pub series_covers :
      (avg : List R → R) (n : ℕ) (rows : List (SampleRow R))
      → (points : List (SeriesPoint R)) × (series avg (suc n) rows ≡ some points)
        × IsAscending (map (λ (p : SeriesPoint R). p.t) points)
        × ((b : ℤ)
            → includes b (map (λ (p : SeriesPoint R). p.t) points)
              ≡ includes b (buckets (suc n) rows))
  unfolding series
  series_covers avg n rows =
      let sorted = sort_by itself (buckets (suc n) rows) in
      let starts = distinct sorted in
      let same = starts_of_points avg (suc n) rows starts in
      (
        map (point avg (suc n) rows) starts,
        refl,
        rw same (IsAscending-distinct sorted (sort_by-IsSorted itself (buckets (suc n) rows))),
        λ b.
            ap (includes b) same
            ∙ includes-distinct b sorted
            ∙ includes-sort_by b (buckets (suc n) rows),
      )
