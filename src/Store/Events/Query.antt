-- ===== src/Store/Events/Query.antt =====
-- What a query of the table of events returns.
use mathlib.Core.List.{Perm}
use mathlib.Core.List.Perm
use mathlib.Core.List.{perm_middle}
use phb_open_ferm.Prelude.{
  String, ◌≡◌, refl, Bool, true, false, not, ◌⊎◌, inl, inr, some, List, [], ◌∷◌, ◌++◌, keep, arith,
  All, Bool-cases, if◌then◌else◌, if-cases, eq_iff,
}
use phb_open_ferm.Prelude.Int.{ℤ, leb_ℤ, ◌≤ℤ◌}
use phb_open_ferm.Prelude.Sort.{insert_by, sort_by, IsSorted, sort_by-IsSorted, sort_by-perm}
use phb_open_ferm.Store.{Db, EventRow}
use phb_open_ferm.Store.Events.{query_events, in_query, ts_of}

-- An event of the fermenter, where the empty id stands for all, from one second to another, both
-- included.
abbrev pub Matches : String → ℤ → ℤ → EventRow → Type 0
Matches fv_id from to e = ((fv_id ≡ "") ⊎ (e.fv_id ≡ fv_id)) × (from ≤ℤ e.ts) × (e.ts ≤ℤ to)

in_query-Matches :
    (fv_id : String) (from to : ℤ) (e : EventRow)
    → (in_query fv_id from to e ≡ true → Matches fv_id from to e)
      × (Matches fv_id from to e → in_query fv_id from to e ≡ true)
in_query-Matches fv_id from to e = (
  λ h. ground (arith, eq_iff fv_id "", eq_iff e.fv_id fv_id),
  λ h. ground (arith, eq_iff fv_id "", eq_iff e.fv_id fv_id),
)

missed : (b : Bool) → not b ≡ true → b ≡ true → ⊥
missed b miss hit = absurd (ground arith)

-- What passes a test and what does not make up a list.
keep_both :
    (p : EventRow → Bool) (xs : List EventRow) → Perm (keep p xs ++ keep (λ e. not (p e)) xs) xs
keep_both p [] = Perm.refl []
keep_both p (x ∷ xs) = elim (Bool-cases (p x)) [
  | inl e ↦ rw (e, if◌then◌else◌) (Perm.cons x (keep_both p xs))
  | inr e ↦
      rw (e, if◌then◌else◌)
        (Perm.trans (perm_middle (keep p xs) (keep (λ y. not (p y)) xs))
          (Perm.cons x (keep_both p xs)))
]

All-keep :
    (P : EventRow → Type 0) (p : EventRow → Bool) (xs : List EventRow)
    → ((x : EventRow) → p x ≡ true → P x)
    → All P (keep p xs)
All-keep P p [] h = tt
All-keep P p (x ∷ xs) h =
    if-cases (All P) (p x) (λ e. (h x e, All-keep P p xs h)) (λ _. All-keep P p xs h)

All-insert_by :
    (P : EventRow → Type 0) (x : EventRow) (ys : List EventRow)
    → P x
    → All P ys
    → All P (insert_by ts_of x ys)
unfolding insert_by
All-insert_by P x [] px h = (px, tt)
All-insert_by P x (y ∷ ys) px h =
    if-cases (All P) (leb_ℤ x.ts y.ts) (λ _. (px, h)) (λ _. (h.0, All-insert_by P x ys px h.1))

All-sort_by : (P : EventRow → Type 0) (xs : List EventRow) → All P xs → All P (sort_by ts_of xs)
unfolding sort_by
All-sort_by P [] h = tt
All-sort_by P (x ∷ xs) h = All-insert_by P x (sort_by ts_of xs) h.0 (All-sort_by P xs h.1)

module _ {R : Type 0} where
  -- A query that SQLite accepts splits the table into what it returns and the rest, each event as
  -- often as it is stored: what it returns are events of the fermenter, or of any where the id is
  -- empty, from the first second to the last, in the order of time, and none of the rest is such an
  -- event.
  pub query_events_exact :
      (fv_id : String) (from to : ℤ) (db : Db R)
      → (out : List EventRow) × (rest : List EventRow) × (query_events false fv_id from to db
          ≡ some out)
        × Perm (out ++ rest) db.events
        × All (Matches fv_id from to) out
        × All (λ (e : EventRow). ¬ (Matches fv_id from to e)) rest
        × IsSorted ts_of out
  unfolding query_events
  query_events_exact fv_id from to db =
      let hit = in_query fv_id from to in
      let found = keep hit db.events in
      let rest = keep (λ (e : EventRow). not (hit e)) db.events in
      (
        sort_by ts_of found,
        rest,
        refl,
        Perm.trans (Perm.append_right rest (sort_by-perm ts_of found)) (keep_both hit db.events),
        All-sort_by (Matches fv_id from to) found (
            All-keep (Matches fv_id from to) hit db.events
              (λ e h. (in_query-Matches fv_id from to e).0 h)),
        All-keep (λ (e : EventRow). ¬ (Matches fv_id from to e)) (λ (e : EventRow). not (hit e))
            db.events (λ e miss m. missed (hit e) miss ((in_query-Matches fv_id from to e).1 m)),
        sort_by-IsSorted ts_of found,
      )
