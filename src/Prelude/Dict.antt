-- ===== src/Prelude/Dict.antt =====
-- A Go map with text keys, as an association list. The program never relies on the order in which
-- a map is walked.
use Prim.Native.Nat.{◌+◌}
use Prim.Native.String.{String}
use mathlib.Core.Path.{◌≡◌, refl}
use mathlib.Core.Option.{Option, none, some}
use mathlib.Core.List.{List, [], ◌∷◌}
use native.Mathlib.Omega.{arith}
use text.Mathlib.Text.{◌==◌}
use text.Mathlib.TextEquality.{eq_iff}
use phb_open_ferm.Prelude.Tests.{if◌then◌else◌}
use phb_open_ferm.Prelude.Lists.{length}

abbrev pub Dict {ℓ} : Type ℓ → Type ℓ
Dict V = List (String × V)

module _ {ℓ} {V : Type ℓ} where
  -- delete(m, k)
  unfoldable pub erase : String → Dict V → Dict V
  erase name [] = []
  erase name (entry ∷ m) =
      let others = erase name m in if entry.0 == name then others else entry ∷ others

  -- v, ok := m[k]
  unfoldable pub lookup : String → Dict V → Option V
  lookup name [] = none
  lookup name (entry ∷ m) =
      let later = lookup name m in if entry.0 == name then some entry.1 else later

  -- m[k] = v
  unfoldable pub insert : String → V → Dict V → Dict V
  insert name new [] = (name, new) ∷ []
  insert name new (entry ∷ m) =
      let others = insert name new m in
      if entry.0 == name then (entry.0, new) ∷ m else entry ∷ others

  pub lookup-erase :
      (gone name : String) (m : Dict V)
      → lookup name (erase gone m) ≡ (if gone == name then none else lookup name m)
  unfolding erase lookup
  lookup-erase gone name [] = ground arith
  lookup-erase gone name (entry ∷ m) =
      let kept = lookup-erase gone name m in
      ground (kept, eq_iff entry.0 gone, eq_iff entry.0 name, eq_iff gone name, arith)

  pub lookup-insert :
      (set name : String) (new : V) (m : Dict V)
      → lookup name (insert set new m) ≡ (if set == name then some new else lookup name m)
  unfolding insert lookup
  lookup-insert set name new [] = refl
  lookup-insert set name new (entry ∷ m) =
      let kept = lookup-insert set name new m in
      ground (kept, eq_iff entry.0 set, eq_iff entry.0 name, eq_iff set name, arith)

module _ {ℓ} {V : Type ℓ} where
  -- A map holds each key once.
  abbrev pub Unique : Dict V → Type ℓ
  Unique [] = Unit
  Unique ((k, v) ∷ m) = (lookup k m ≡ none) × Unique m

  pub Unique-insert : (k : String) (v : V) (m : Dict V) → Unique m → Unique (insert k v m)
  unfolding insert lookup
  Unique-insert k v [] u = (refl, tt)
  Unique-insert k v ((j, w) ∷ m) u =
      ground (arith, Unique-insert k v m u.1, lookup-insert k j v m, eq_iff j k, eq_iff k j)

  pub Unique-erase : (k : String) (m : Dict V) → Unique m → Unique (erase k m)
  unfolding erase
  Unique-erase k [] u = tt
  Unique-erase k ((j, w) ∷ m) u = ground (arith, Unique-erase k m u.1, lookup-erase k j m)

  pub length-insert_known :
      (k : String) (v : V) (m : Dict V) (w : V)
      → lookup k m ≡ some w
      → length (insert k v m) ≡ length m
  unfolding insert lookup
  length-insert_known k v [] x e = absurd (ground arith)
  length-insert_known k v ((j, w) ∷ m) x e = ground (arith, length-insert_known k v m x)

  pub length-insert_new :
      (k : String) (v : V) (m : Dict V) → lookup k m ≡ none → length (insert k v m) ≡ length m + 1
  unfolding insert lookup
  length-insert_new k v [] e = omega arith
  length-insert_new k v ((j, w) ∷ m) e = ground (arith, length-insert_new k v m)

  pub length-erase_missing :
      (k : String) (m : Dict V) → lookup k m ≡ none → length (erase k m) ≡ length m
  unfolding erase lookup
  length-erase_missing k [] e = omega arith
  length-erase_missing k ((j, w) ∷ m) e = ground (arith, length-erase_missing k m)

  pub length-erase_known :
      (k : String) (m : Dict V) (w : V)
      → Unique m
      → lookup k m ≡ some w
      → length (erase k m) + 1 ≡ length m
  unfolding erase lookup
  length-erase_known k [] x u e = absurd (ground arith)
  length-erase_known k ((j, w) ∷ m) x u e =
      ground (arith, length-erase_known k m x u.1, length-erase_missing k m, eq_iff j k)
