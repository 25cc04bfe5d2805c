-- ===== src/Serial/Plant/Labels.antt =====
-- The id and the valve of each fermenter, and what the operations of the state do to them.
use phb_open_ferm.Prelude.{
  ℕ, zero, suc, String, ◌≡◌, ◌≢◌, refl, sym, ap, ◌∙◌, not, ◌&&◌, some, List, [], ◌∷◌, map, ◌==◌,
  arith, if-cases, elim-cases, get_elem?, set, All, subst,
}
use mathlib.Core.Option.{some-injective}
use phb_open_ferm.Prelude.Int.{ℤ, pos, leb_ℤ}
use phb_open_ferm.Time.{of_seconds}
use phb_open_ferm.Float64.{Float64}
use phb_open_ferm.Control.{Fermenter, SystemState, valve_closed, valve_open}
use phb_open_ferm.Control.Fleet.{find, update_first}
use phb_open_ferm.Control.Operations.{
  Operation, sets_target, sets_mode, forces_valve, clears_override, overrides_until, reads_temp,
  applies_settings, closes_all, perform,
}
use phb_open_ferm.Control.Setters.{
  Error, TargetChange, set_first, set_mode, force_valve, clear_override, set_valve_override_until,
  update_beer_temp, set_target, apply_controller_settings, with_mode, with_target, with_band,
  with_min_change,
}

-- An id, and a state of a valve.
abbrev pub Label : Type 0
Label = String × String

-- No id twice.
abbrev pub IsDistinct : List Label → Type 0
IsDistinct [] = Unit {0}
IsDistinct (l ∷ ls) = All (λ (m : Label). l.0 ≢ m.0) ls × IsDistinct ls

set-All :
    (k : String) (ls : List Label) (i : ℕ) {l : Label} (l' : Label)
    → get_elem? ls i ≡ some l
    → l'.0 ≡ l.0
    → All (λ (m : Label). k ≢ m.0) ls
    → All (λ (m : Label). k ≢ m.0) (set ls i l')
set-All k [] i l' at same h = tt
set-All k (m ∷ ls) zero {l} l' at same h =
    let here : m ≡ l = some-injective _ _ at in
    (λ e. h.0 (e ∙ same ∙ sym (ap (λ (o : Label). o.0) here)), h.1)
set-All k (m ∷ ls) (suc i) l' at same h = (h.0, set-All k ls i l' at same h.1)

pub set-IsDistinct :
    (ls : List Label) (i : ℕ) {l : Label} (l' : Label)
    → get_elem? ls i ≡ some l
    → l'.0 ≡ l.0
    → IsDistinct ls
    → IsDistinct (set ls i l')
set-IsDistinct [] i l' at same h = tt
set-IsDistinct (m ∷ ls) zero {l} l' at same h =
    let here : m ≡ l = some-injective _ _ at in
    let own : m.0 ≡ l'.0 = ap (λ (o : Label). o.0) here ∙ sym same in
    (subst (λ (k : String). All (λ (o : Label). k ≢ o.0) ls) own h.0, h.1)
set-IsDistinct (m ∷ ls) (suc i) l' at same h =
    (set-All m.0 ls i l' at same h.0, set-IsDistinct ls i l' at same h.1)

module _ {R : Type 0} where
  abbrev pub label : Fermenter R → Label
  label x = (x.id, x.valve)

  abbrev pub labels : List (Fermenter R) → List Label
  labels xs = map label xs

  pub labels-set :
      (xs : List (Fermenter R)) (i : ℕ) (x : Fermenter R)
      → labels (set xs i x) ≡ set (labels xs) i (label x)
  labels-set [] i x = refl
  labels-set (y ∷ xs) zero x = refl
  labels-set (y ∷ xs) (suc i) x = ap (◌∷◌ (label y)) (labels-set xs i x)

  pub get_elem?-labels :
      (xs : List (Fermenter R)) (i : ℕ) {x : Fermenter R}
      → get_elem? xs i ≡ some x
      → get_elem? (labels xs) i ≡ some (label x)
  get_elem?-labels [] i e = absurd (ground (arith, e))
  get_elem?-labels (y ∷ xs) zero {x} e =
      let here : y ≡ x = some-injective _ _ e in ap (λ (z : Fermenter R). some (label z)) here
  get_elem?-labels (y ∷ xs) (suc i) e = get_elem?-labels xs i e

  labels-update_first :
      (id : String) (g : Fermenter R → Fermenter R) (xs : List (Fermenter R))
      → ((x : Fermenter R) → label (g x) ≡ label x)
      → labels (update_first id g xs) ≡ labels xs
  unfolding update_first
  labels-update_first id g [] same = refl
  labels-update_first id g (x ∷ xs) same =
      if-cases (λ (ys : List (Fermenter R)). labels ys ≡ labels (x ∷ xs)) (x.id == id)
        (λ _. ap (λ (l : Label). l ∷ labels xs) (same x))
        (λ _. ap (◌∷◌ (label x)) (labels-update_first id g xs same))

  labels-set_first :
      (id : String) (g : Fermenter R → Fermenter R) (s : SystemState R)
      → ((x : Fermenter R) → label (g x) ≡ label x)
      → labels (set_first id g s).0.fv ≡ labels s.fv
  unfolding set_first
  labels-set_first id g s same =
      elim-cases (λ (r : SystemState R × Error). labels r.0.fv ≡ labels s.fv) (find id s.fv)
        (λ _. refl) (λ x _. labels-update_first id g s.fv same)

  labels-map :
      (g : Fermenter R → Fermenter R) (xs : List (Fermenter R))
      → ((x : Fermenter R) → label (g x) ≡ label x)
      → labels (map g xs) ≡ labels xs
  labels-map g [] same = refl
  labels-map g (x ∷ xs) same =
      ap (λ (l : Label). l ∷ labels (map g xs)) (same x) ∙ ap (◌∷◌ (label x)) (labels-map g xs same)

module _ {R : Type 0} ⦃f : Float64 R⦄ where
  settled_label :
      (band_c : R) (n : ℤ) (x : Fermenter R)
      → label (with_min_change n (with_band band_c x)) ≡ label x
  settled_label band_c n x =
      if-cases (λ (z : Fermenter R). label z ≡ label x) (leb_ℤ (pos 0) n)
        (λ _.
          if-cases (λ (z : Fermenter R). label (record z { min_change = of_seconds n }) ≡ label x)
            (f.lt (f.decimal (pos 0) 0) band_c) (λ _. refl) (λ _. refl))
        (λ _.
          if-cases (λ (z : Fermenter R). label z ≡ label x) (f.lt (f.decimal (pos 0) 0) band_c)
            (λ _. refl) (λ _. refl))

  -- No operation but the watchdog's changes an id or a valve.
  pub labels-perform :
      (o : Operation R) (s : SystemState R) → o ≢ closes_all → labels (perform o s).fv ≡ labels s.fv
  unfolding perform set_target set_mode force_valve clear_override set_valve_override_until
      update_beer_temp apply_controller_settings
  labels-perform (sets_target id t) s other =
      elim-cases
        (λ (r : SystemState R × List (TargetChange R) × Error). labels r.0.fv ≡ labels s.fv)
        (find id s.fv) (λ _. refl)
        (λ x _. labels-update_first id (with_target t) s.fv (λ y.
          if-cases (λ (z : Fermenter R). label z ≡ label y) (not (f.eq y.target_c t)) (λ _. refl)
            (λ _. refl)))
  labels-perform (sets_mode id m) s other = labels-set_first id (with_mode m) s (λ y. refl)
  labels-perform (forces_valve now id st ttl) s other =
      if-cases (λ (r : SystemState R × Error). labels r.0.fv ≡ labels s.fv)
        (not (st == valve_open) && not (st == valve_closed)) (λ _. refl)
        (λ _. labels-set_first id _ s (λ y. refl))
  labels-perform (clears_override id) s other = labels-update_first id _ s.fv (λ y. refl)
  labels-perform (overrides_until id st until) s other =
      if-cases (λ (r : SystemState R × Error). labels r.0.fv ≡ labels s.fv)
        (not (st == valve_open) && not (st == valve_closed)) (λ _. refl)
        (λ _. labels-set_first id _ s (λ y. refl))
  labels-perform (reads_temp now id c) s other = labels-update_first id _ s.fv (λ y. refl)
  labels-perform (applies_settings band_c n m) s other =
      labels-map (λ x. with_min_change n (with_band band_c x)) s.fv (λ y. settled_label band_c n y)
  labels-perform closes_all s other = absurd (other refl)
