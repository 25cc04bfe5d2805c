-- ===== src/Store/Samples/Table.antt =====
-- The table of samples is a map from a second and a fermenter: what its writes do to that map.
use phb_open_ferm.Prelude.{
  String, ◌≡◌, refl, sym, ap, ◌∙◌, Bool, true, false, not, ◌&&◌, Option, none, some, List, [], ◌∷◌,
  ◌++◌, ◌==◌, if◌then◌else◌, keep, arith, Bool-cases, inl, inr, eq_iff, if-cases, if_true, if_false,
  subst,
}
use phb_open_ferm.Prelude.Int.{ℤ, pos, eqb_ℤ, leb_ℤ, eq_of_parts, ◌-ℤ◌}
use phb_open_ferm.Time.{Time, Duration, unix, shift}
use phb_open_ferm.Control.{Fermenter, SystemState}
use phb_open_ferm.Store.{Db, SampleRow}
use phb_open_ferm.Store.Samples.{
  same_key, insert_sample, sample_of, insert_all, insert_samples, prune_samples,
}

abbrev same_keys : ℤ → String → ℤ → String → Bool
same_keys ts id ts' id' = eqb_ℤ ts ts' && id == id'

same_second : (a b : ℤ) → eqb_ℤ a b ≡ true → a ≡ b
same_second a b e = eq_of_parts a b (ground arith)

own_second : (b d : Bool) (k : ℤ) → (b && (eqb_ℤ k k && d)) ≡ (b && d)
own_second b d k = let same : eqb_ℤ k k ≡ true = ground arith in rw same refl

other_second : (b d c : Bool) → c ≡ false → (b && (c && d)) ≡ false
other_second b d c e = ground arith

module _ {R : Type 0} where
  -- The map: the row with a key.
  abbrev pub row_at : ℤ → String → List (SampleRow R) → Option (SampleRow R)
  row_at ts id [] = none
  row_at ts id (r ∷ rows) = if same_key ts id r then some r else row_at ts id rows

  same_key_of_own :
      (ts ts' : ℤ) (id id' : String) (r : SampleRow R)
      → same_key ts' id' r ≡ true
      → same_key ts id r ≡ same_keys ts' id' ts id
  same_key_of_own ts ts' id id' r own =
      ground (arith, eq_iff r.fv_id id, eq_iff r.fv_id id', eq_iff id' id)

  same_key_of_keys :
      (ts ts' : ℤ) (id id' : String) (r : SampleRow R)
      → same_keys ts' id' ts id ≡ true
      → same_key ts id r ≡ same_key ts' id' r
  same_key_of_keys ts ts' id id' r keys =
      ground (arith, eq_iff r.fv_id id, eq_iff r.fv_id id', eq_iff id' id)

  keep_others_step :
      (ts ts' : ℤ) (id id' : String) (r : SampleRow R) (rows : List (SampleRow R))
      → row_at ts id (keep (λ s. not (same_key ts' id' s)) rows)
        ≡ (if same_keys ts' id' ts id then none else row_at ts id rows)
      → row_at ts id (keep (λ s. not (same_key ts' id' s)) (r ∷ rows))
        ≡ (if same_keys ts' id' ts id then none else row_at ts id (r ∷ rows))
  keep_others_step ts ts' id id' r rows ih =
      let keys = same_keys ts' id' ts id in
      let here = same_key ts id r in
      elim (Bool-cases (same_key ts' id' r)) [
        | inl own ↦
            ap (row_at ts id) (if_false (not (same_key ts' id' r)) _ (ap not own))
            ∙ ih
            ∙ (elim (Bool-cases keys) [
              | inl e ↦ if_true keys _ e ∙ sym (if_true keys _ e)
              | inr e ↦
                  if_false keys _ e
                  ∙ sym (if_false here (some r) (same_key_of_own ts ts' id id' r own ∙ e))
                  ∙ sym (if_false keys _ e)
            ])
        | inr other ↦
            ap (row_at ts id) (if_true (not (same_key ts' id' r)) _ (ap not other))
            ∙ ap (λ o. if here then some r else o) ih
            ∙ (elim (Bool-cases keys) [
              | inl e ↦
                  if_false here (some r) (same_key_of_keys ts ts' id id' r e ∙ other)
                  ∙ if_true keys _ e
                  ∙ sym (if_true keys _ e)
              | inr e ↦
                  ap (λ o. if here then some r else o) (if_false keys _ e) ∙ sym (if_false keys _ e)
            ])
      ]

  row_at-keep_others :
      (ts ts' : ℤ) (id id' : String) (rows : List (SampleRow R))
      → row_at ts id (keep (λ s. not (same_key ts' id' s)) rows)
        ≡ (if same_keys ts' id' ts id then none else row_at ts id rows)
  row_at-keep_others ts ts' id id' [] =
      if-cases (λ (o : Option (SampleRow R)). none ≡ o) (same_keys ts' id' ts id) (λ _. refl)
        (λ _. refl)
  row_at-keep_others ts ts' id id' (r ∷ rows) =
      keep_others_step ts ts' id id' r rows (row_at-keep_others ts ts' id id' rows)

  row_at-snoc :
      (ts : ℤ) (id : String) (r : SampleRow R) (rows : List (SampleRow R))
      → row_at ts id (rows ++ (r ∷ [])) ≡ elim (row_at ts id rows) [
        | some a ↦ some a
        | none ↦ (if same_key ts id r then some r else none)
      ]
  row_at-snoc ts id r [] = refl
  row_at-snoc ts id r (a ∷ rows) = ground (arith, row_at-snoc ts id r rows)

  -- INSERT OR REPLACE sets the map at the row's key.
  row_at-insert_sample :
      (ts : ℤ) (id : String) (refused : Bool) (r : SampleRow R) (rows : List (SampleRow R))
      → row_at ts id (insert_sample refused r rows)
        ≡ (if not refused && same_key ts id r then some r else row_at ts id rows)
  row_at-insert_sample ts id true r rows = refl
  row_at-insert_sample ts id false r rows =
      row_at-snoc ts id r (keep (λ s. not (same_key r.ts r.fv_id s)) rows)
      ∙ ap
          (λ (o : Option (SampleRow R)). elim o [
            | some a ↦ some a
            | none ↦ (if same_key ts id r then some r else none)
          ])
          (row_at-keep_others ts r.ts id r.fv_id rows)
      ∙ replaced (same_key ts id r) (row_at ts id rows)
    where
      replaced :
          (b : Bool) (o : Option (SampleRow R))
          → elim (if b then none else o) as (λ _. Option (SampleRow R)) [
            | some a ↦ some a
            | none ↦ (if b then some r else none)
          ]
            ≡ (if b then some r else o)
      replaced true o = refl
      replaced false none = refl
      replaced false (some a) = refl

  -- The last fermenter with an id whose statement is accepted.
  abbrev pub last_sampled : (String → Bool) → String → List (Fermenter R) → Option (Fermenter R)
  last_sampled refused id [] = none
  last_sampled refused id (x ∷ xs) = elim (last_sampled refused id xs) [
    | some y ↦ some y
    | none ↦ (if not (refused x.id) && x.id == id then some x else none)
  ]

  abbrev pub sampled_over :
      Time → Option (Fermenter R) → Option (SampleRow R) → Option (SampleRow R)
  sampled_over now none old = old
  sampled_over now (some x) old = some (sample_of now x)

  sampled_first :
      (now : Time) (x : Fermenter R) (later : Option (Fermenter R)) (b : Bool)
      (old : Option (SampleRow R))
      → sampled_over now later (if b then some (sample_of now x) else old)
        ≡ sampled_over now
            (elim later [ some y ↦ some y | none ↦ (if b then some x else none) ])
            old
  sampled_first now x (some y) b old = refl
  sampled_first now x none true old = refl
  sampled_first now x none false old = refl

  row_at-insert_all :
      (now : Time) (refused : String → Bool) (id : String) (xs : List (Fermenter R))
      (rows : List (SampleRow R))
      → row_at (unix now) id (insert_all now refused xs rows)
        ≡ sampled_over now (last_sampled refused id xs) (row_at (unix now) id rows)
  unfolding insert_all
  row_at-insert_all now refused id [] rows = refl
  row_at-insert_all now refused id (x ∷ xs) rows =
      row_at-insert_all now refused id xs _
      ∙ ap (sampled_over now (last_sampled refused id xs)) (
          row_at-insert_sample (unix now) id (refused x.id) (sample_of now x) rows
          ∙ ap (λ (b : Bool). if b then some (sample_of now x) else row_at (unix now) id rows)
              (own_second (not (refused x.id)) (x.id == id) (unix now)))
      ∙ sampled_first now x (last_sampled refused id xs) (not (refused x.id) && x.id == id)
          (row_at (unix now) id rows)

  row_at-insert_other :
      (now : Time) (refused : String → Bool) (ts : ℤ) (id : String) (xs : List (Fermenter R))
      (rows : List (SampleRow R))
      → eqb_ℤ (unix now) ts ≡ false
      → row_at ts id (insert_all now refused xs rows) ≡ row_at ts id rows
  unfolding insert_all
  row_at-insert_other now refused ts id [] rows other = refl
  row_at-insert_other now refused ts id (x ∷ xs) rows other =
      row_at-insert_other now refused ts id xs _ other
      ∙ row_at-insert_sample ts id (refused x.id) (sample_of now x) rows
      ∙ if_false _ _ (other_second (not (refused x.id)) (x.id == id) (eqb_ℤ (unix now) ts) other)

  key_apart :
      (cut ts : ℤ) (id : String) (r : SampleRow R) (b : Bool)
      → leb_ℤ cut r.ts ≡ b
      → leb_ℤ cut ts ≡ not b
      → same_key ts id r ≡ false
  key_apart cut ts id r true kept gone = ground arith
  key_apart cut ts id r false gone kept = ground arith

  prune_step :
      (cut ts : ℤ) (id : String) (r : SampleRow R) (rows : List (SampleRow R))
      → row_at ts id (keep (λ s. leb_ℤ cut s.ts) rows)
        ≡ (if leb_ℤ cut ts then row_at ts id rows else none)
      → row_at ts id (keep (λ s. leb_ℤ cut s.ts) (r ∷ rows))
        ≡ (if leb_ℤ cut ts then row_at ts id (r ∷ rows) else none)
  prune_step cut ts id r rows ih =
      let kept = leb_ℤ cut r.ts in
      let within = leb_ℤ cut ts in
      let here = same_key ts id r in
      elim (Bool-cases kept) [
        | inl k ↦
            ap (row_at ts id) (if_true kept _ k)
            ∙ ap (λ o. if here then some r else o) ih
            ∙ (elim (Bool-cases within) [
              | inl e ↦
                  ap (λ o. if here then some r else o) (if_true within _ e)
                  ∙ sym (if_true within _ e)
              | inr e ↦
                  if_false here (some r) (key_apart cut ts id r true k e)
                  ∙ if_false within _ e
                  ∙ sym (if_false within _ e)
            ])
        | inr k ↦ ap (row_at ts id) (if_false kept _ k) ∙ ih ∙ (elim (Bool-cases within) [
          | inl e ↦
              if_true within _ e
              ∙ sym (if_false here (some r) (key_apart cut ts id r false k e))
              ∙ sym (if_true within _ e)
          | inr e ↦ if_false within _ e ∙ sym (if_false within _ e)
        ])
      ]

  row_at-prune :
      (cut : ℤ) (ts : ℤ) (id : String) (rows : List (SampleRow R))
      → row_at ts id (keep (λ r. leb_ℤ cut r.ts) rows)
        ≡ (if leb_ℤ cut ts then row_at ts id rows else none)
  row_at-prune cut ts id [] =
      if-cases (λ (o : Option (SampleRow R)). none ≡ o) (leb_ℤ cut ts) (λ _. refl) (λ _. refl)
  row_at-prune cut ts id (r ∷ rows) = prune_step cut ts id r rows (row_at-prune cut ts id rows)

  -- The table of samples as a map from a second and a fermenter's id. A transaction that succeeds sets
  -- it, at the present second, for each fermenter whose statement is accepted, to what the fermenter
  -- is now (the last one, where an id stands twice), and changes nothing else; one that fails changes
  -- nothing. Pruning removes exactly the seconds before the cut.
  pub samples_map :
      (now : Time) (refused : String → Bool) (s : SystemState R) (db : Db R) (age : Duration)
      (ts : ℤ) (id : String)
      → (row_at ts id (insert_samples now false refused s db).0.samples ≡ (
          if eqb_ℤ (unix now) ts
          then sampled_over now (last_sampled refused id s.fv) (row_at ts id db.samples)
          else row_at ts id db.samples))
        × ((insert_samples now true refused s db).0 ≡ db)
        × (row_at ts id (prune_samples now false age db).0.samples ≡ (
            if leb_ℤ (unix (shift now (pos 0 -ℤ age))) ts then row_at ts id db.samples else none))
  unfolding insert_samples prune_samples
  samples_map now refused s db age ts id =
      (set_at_now, refl, row_at-prune (unix (shift now (pos 0 -ℤ age))) ts id db.samples)
    where
      set_at_now : row_at ts id (insert_all now refused s.fv db.samples) ≡ (
          if eqb_ℤ (unix now) ts
          then sampled_over now (last_sampled refused id s.fv) (row_at ts id db.samples)
          else row_at ts id db.samples)
      set_at_now = elim (Bool-cases (eqb_ℤ (unix now) ts)) [
        | inl e ↦
            subst
              (λ (k : ℤ).
                row_at k id (insert_all now refused s.fv db.samples)
                ≡ sampled_over now (last_sampled refused id s.fv) (row_at k id db.samples))
              (same_second (unix now) ts e) (row_at-insert_all now refused id s.fv db.samples)
            ∙ sym (if_true (eqb_ℤ (unix now) ts) _ e)
        | inr e ↦
            row_at-insert_other now refused ts id s.fv db.samples e
            ∙ sym (if_false (eqb_ℤ (unix now) ts) _ e)
      ]
