-- ===== src/Alarm/Keys.antt =====
-- Alarm keys tell the type and the fermenter, and when an alarm closes.
use Prim.Native.Char.{Char, code}
use Prim.Native.String.{◌++◌}
use text.Mathlib.TextLemmas.{append_cancel_left, cons-append, head-eq_of_cons-eq}
use phb_open_ferm.Prelude.{
  ℕ, zero, suc, String, ◌≡◌, ◌≢◌, refl, sym, ap, ◌∙◌, ◌⊎◌, inl, inr, true, false, none, some, List,
  [], ◌∷◌, arith, ◌==◌, test_self, test_of_ne, get_elem?, All,
}
use phb_open_ferm.Prelude.Int.{leb_ℤ}
use phb_open_ferm.Prelude.Dict.{lookup}
use phb_open_ferm.Time.{Time, since}
use phb_open_ferm.Float64.{Float64}
use phb_open_ferm.Control.{Fermenter, SystemState}
use phb_open_ferm.Alarm.{Manager, Alarm, key, high_temp, low_temp}
use phb_open_ferm.Alarm.Evaluate.{
  evaluate, to_open, to_close, each, open_one, is_high, is_low, Candidate, only_if, candidate,
}
use phb_open_ferm.Alarm.Phases.{has_key, SameConfig-opens, opens_other, closes_due}
use phb_open_ferm.Alarm.Laws.{Side, above, below, type_of, is_out}

key_injective : (t a b : String) → key t a ≡ key t b → a ≡ b
unfolding key
key_injective t a b e = append_cancel_left _ a b e

abbrev upper_h : Char
upper_h = "H"

abbrev upper_l : Char
upper_l = "L"

key_high : (a : String) → key high_temp a ≡ String.◌∷◌ upper_h ("IGH_TEMP:" ++ a)
unfolding key
key_high a = cons-append upper_h "IGH_TEMP:" a

key_low : (a : String) → key low_temp a ≡ String.◌∷◌ upper_l ("OW_TEMP:" ++ a)
unfolding key
key_low a = cons-append upper_l "OW_TEMP:" a

key_sides : (a b : String) → key high_temp a ≢ key low_temp b
key_sides a b e =
    let same = head-eq_of_cons-eq (sym (key_high a) ∙ e ∙ key_low b) in
    let codes : code upper_h ≡ code upper_l = ap code same in absurd (omega arith)

key_other_side : (a b : String) → key low_temp a ≢ key high_temp b
key_other_side a b e = key_sides b a (sym e)

-- The tests that the loops make between keys.
key_test : (t a b : String) → a ≢ b → (key t a == key t b) ≡ false
key_test t a b h = test_of_ne _ _ (λ e. h (key_injective t a b e))

module _ {R : Type 0} ⦃f : Float64 R⦄ where
  abbrev only_high : Manager R → Fermenter R → List (Candidate R)
  only_high m y = only_if (is_high m y) (candidate high_temp y)

  abbrev only_low : Manager R → Fermenter R → List (Candidate R)
  only_low m y = only_if (is_low m y) (candidate low_temp y)

  -- Where no fermenter with the id is out on that side, there is no candidate to open.
  no_candidate :
      (side : Side) (m : Manager R) (id : String) (fvs : List (Fermenter R))
      → All (λ y. (y.id ≢ id) ⊎ (is_out side m y ≡ false)) fvs
      → has_key (key (type_of side) id) (to_open m fvs) ≡ false
  unfolding to_open has_key
  no_candidate side m id [] h = refl
  no_candidate above m id (y ∷ ys) (inl ne, h) = ground (
    arith,
    no_candidate above m id ys h,
    key_test high_temp y.id id ne,
    test_of_ne (key low_temp y.id) (key high_temp id) (key_other_side y.id id),
  )
  no_candidate above m id (y ∷ ys) (inr within, h) = ground (
    arith,
    no_candidate above m id ys h,
    test_of_ne (key low_temp y.id) (key high_temp id) (key_other_side y.id id),
  )
  no_candidate below m id (y ∷ ys) (inl ne, h) = ground (
    arith,
    no_candidate below m id ys h,
    key_test low_temp y.id id ne,
    test_of_ne (key high_temp y.id) (key low_temp id) (key_sides y.id id),
  )
  no_candidate below m id (y ∷ ys) (inr within, h) = ground (
    arith,
    no_candidate below m id ys h,
    test_of_ne (key high_temp y.id) (key low_temp id) (key_sides y.id id),
  )

  -- A fermenter that is not out on a side is a candidate to close.
  close_candidate :
      (side : Side) (m : Manager R) (fvs : List (Fermenter R)) (i : ℕ) (x : Fermenter R)
      → get_elem? fvs i ≡ some x
      → is_out side m x ≡ false
      → has_key (key (type_of side) x.id) (to_close m fvs) ≡ true
  unfolding to_close has_key
  close_candidate side m [] i x e h = absurd (ground arith)
  close_candidate above m (y ∷ ys) zero x e h =
      let same : y ≡ x = cc in rw same (ground (arith, test_self (key high_temp x.id)))
  close_candidate below m (y ∷ ys) zero x e h =
      let same : y ≡ x = cc in rw same (ground (arith, test_self (key low_temp x.id)))
  close_candidate above m (y ∷ ys) (suc i) x e h =
      ground (arith, close_candidate above m ys i x e h)
  close_candidate below m (y ∷ ys) (suc i) x e h =
      ground (arith, close_candidate below m ys i x e h)

  -- When no fermenter with this id is out of the band on a side, and the alarm of that side was last
  -- seen at least the debounce ago, a call of `Evaluate` closes it.
  pub evaluate_clears :
      (side : Side) (now : Time) (s : SystemState R) (m : Manager R) (i : ℕ) (x : Fermenter R)
      (a : Alarm R)
      → get_elem? s.fv i ≡ some x
      → is_out side m x ≡ false
      → All (λ y. (y.id ≢ x.id) ⊎ (is_out side m y ≡ false)) s.fv
      → lookup (key (type_of side) x.id) m.active ≡ some a
      → leb_ℤ m.debounce (since now a.last_seen) ≡ true
      → lookup (key (type_of side) x.id) (evaluate now s m).0.active ≡ none
  unfolding evaluate
  evaluate_clears side now s m i x a e out quiet at due =
      let k = key (type_of side) x.id in
      let m' = (each (open_one now) (to_open m s.fv) m).0 in
      closes_due now k (to_close m s.fv) m' a
        (opens_other now k (to_open m s.fv) m (no_candidate side m x.id s.fv quiet) ∙ at)
        (rw (SameConfig-opens now (to_open m s.fv) m).debounce due)
      ∙ rw (close_candidate side m s.fv i x e out)
