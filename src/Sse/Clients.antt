-- ===== src/Sse/Clients.antt =====
-- The list of the clients when one joins or leaves.
use phb_open_ferm.Prelude.{
  ℕ, ◌+◌, ◌<◌, ◌≡◌, refl, true, false, not, List, [], ◌∷◌, arith, eqb, keep, if-cases, All,
}
use phb_open_ferm.Sse.{is_client}
use phb_open_ferm.Sse.Sending.{IsDistinct}

-- The clients that stay when one leaves.
abbrev pub without : ℕ → List ℕ → List ℕ
without c cs = keep (λ d. not (eqb c d)) cs

pub without_client :
    (c d : ℕ) (cs : List ℕ)
    → is_client d (without c cs) ≡ true
    → (is_client d cs ≡ true) × (eqb c d ≡ false)
without_client c d [] e = absurd (ground arith)
without_client c d (x ∷ cs) e = ground (arith, without_client c d cs)

pub without_missing :
    (c d : ℕ) (cs : List ℕ) → is_client d cs ≡ false → is_client d (without c cs) ≡ false
without_missing c d [] e = refl
without_missing c d (x ∷ cs) e = ground (arith, without_missing c d cs)

pub IsDistinct-without : (c : ℕ) (cs : List ℕ) → IsDistinct cs → IsDistinct (without c cs)
IsDistinct-without c [] h = tt
IsDistinct-without c (x ∷ cs) h =
    if-cases IsDistinct (not (eqb c x))
      (λ _. (without_missing c x cs h.0, IsDistinct-without c cs h.1))
      (λ _. IsDistinct-without c cs h.1)

pub below-without :
    (c n : ℕ) (cs : List ℕ) → All (λ (d : ℕ). d < n) cs → All (λ (d : ℕ). d < n) (without c cs)
below-without c n [] h = tt
below-without c n (x ∷ cs) h =
    if-cases (All (λ (d : ℕ). d < n)) (not (eqb c x)) (λ _. (h.0, below-without c n cs h.1))
      (λ _. below-without c n cs h.1)

pub new_missing : (n : ℕ) (cs : List ℕ) → All (λ (d : ℕ). d < n) cs → is_client n cs ≡ false
new_missing n [] h = refl
new_missing n (x ∷ cs) h = ground (arith, h.0, new_missing n cs h.1)

pub below_later : (n : ℕ) (cs : List ℕ) → All (λ (d : ℕ). d < n) cs → All (λ (d : ℕ). d < n + 1) cs
below_later n [] h = tt
below_later n (x ∷ cs) h = (omega (arith, h.0), below_later n cs h.1)
