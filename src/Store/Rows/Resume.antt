-- ===== src/Store/Rows/Resume.antt =====
-- What a restart finds: the rows that a snapshot wrote, and the modes that are set from them.
use phb_open_ferm.Prelude.{
  ℕ, zero, suc, String, ◌≡◌, ◌≢◌, refl, sym, ◌∙◌, Bool, true, false, Option, none, some, List, [],
  ◌∷◌, arith, ◌==◌, if◌then◌else◌, get_elem?, eq_iff, test_self, test_of_ne, eq_of_test, Bool-cases,
  inl, inr, ◌⊎◌,
}
use phb_open_ferm.Prelude.Dict.{Dict, lookup, insert, lookup-insert, Unique, Unique-insert}
use phb_open_ferm.Time.{Time}
use phb_open_ferm.Float64.{Float64}
use phb_open_ferm.Control.{Fermenter, SystemState, no_override}
use phb_open_ferm.Control.Fleet.{find, update_first, find-update_first, update_first_missing}
use phb_open_ferm.Control.Setters.{Error, not_found, set_mode, with_mode}
use phb_open_ferm.Store.{Db, StateRow}
use phb_open_ferm.Store.Rows.{
  row_of, snapshot, snapshot_rows, resume_modes, apply_saved_modes, boot, apply_saved_targets,
}

module _ {R : Type 0} where
  -- The loop leaves the row of an id that no fermenter has.
  snapshot_rows_other :
      (now : Time) (refused : String → Bool) (id : String) (xs : List (Fermenter R))
      (rows : Dict (StateRow R))
      → find id xs ≡ none
      → lookup id (snapshot_rows now refused xs rows) ≡ lookup id rows
  unfolding snapshot_rows find
  snapshot_rows_other now refused id [] rows e = refl
  snapshot_rows_other now refused id (x ∷ xs) rows e =
      let next = if refused x.id then rows else insert x.id (row_of now x) rows in
      let fresh : (x.id == id) ≡ false = ground (arith, eq_iff x.id id) in
      let later : find id xs ≡ none = ground (arith, eq_iff x.id id) in
      snapshot_rows_other now refused id xs next later
      ∙ ground (arith, lookup-insert x.id id (row_of now x) rows)

  find-none :
      (id : String) (xs : List (Fermenter R))
      → ((j : ℕ) (y : Fermenter R) → get_elem? xs j ≡ some y → y.id ≢ id)
      → find id xs ≡ none
  unfolding find
  find-none id [] away = refl
  find-none id (x ∷ xs) away =
      rw (test_of_ne x.id id (away 0 x refl), if◌then◌else◌)
        (find-none id xs (λ j y e. away (suc j) y e))

  snapshot_rows_at :
      (now : Time) (refused : String → Bool) (xs : List (Fermenter R)) (rows : Dict (StateRow R))
      (i : ℕ) (x : Fermenter R)
      → get_elem? xs i ≡ some x
      → ((j : ℕ) (y : Fermenter R) → get_elem? xs j ≡ some y → y.id ≡ x.id → j ≡ i)
      → lookup x.id (snapshot_rows now refused xs rows)
        ≡ (if refused x.id then lookup x.id rows else some (row_of now x))
  unfolding snapshot_rows
  snapshot_rows_at now refused [] rows i x e once = absurd (ground arith)
  snapshot_rows_at now refused (y ∷ xs) rows zero x e once =
      let same : y ≡ x = cc in
      let later : find x.id xs ≡ none =
        find-none x.id xs (λ j z at same_id. ground (arith, once (suc j) z at same_id)) in
      rw (same) (
        snapshot_rows_other now refused x.id xs
          (if refused x.id then rows else insert x.id (row_of now x) rows) later
        ∙ ground (arith, lookup-insert x.id x.id (row_of now x) rows, test_self x.id))
  snapshot_rows_at now refused (y ∷ xs) rows (suc i) x e once =
      let next = if refused y.id then rows else insert y.id (row_of now y) rows in
      let other : y.id ≢ x.id = λ same_id. ground (arith, once 0 y refl same_id) in
      let kept : lookup x.id next ≡ lookup x.id rows =
        ground (arith, lookup-insert y.id x.id (row_of now y) rows, test_of_ne y.id x.id other) in
      rw (← kept) (
        snapshot_rows_at now refused xs next i x e
          (λ j z at same_id. ground (arith, once (suc j) z at same_id)))

  set_mode-fv :
      (j m : String) (s : SystemState R) → (set_mode j m s).0.fv ≡ update_first j (with_mode m) s.fv
  unfolding set_mode
  set_mode-fv j m s = go (find j s.fv) refl
    where
      go :
          (o : Option (Fermenter R))
          → find j s.fv ≡ o
          → (elim o as (λ _. SystemState R × Error) [
            | none ↦ (s, not_found)
            | some x ↦ (record s { fv = update_first j (with_mode m) s.fv }, none)
          ]).0.fv
            ≡ update_first j (with_mode m) s.fv
      go none missing = sym (update_first_missing j (with_mode m) s.fv missing)
      go (some x) found = refl

  find-set_mode :
      (j id : String) (m : String) (s : SystemState R) (x : Fermenter R)
      → find id s.fv ≡ some x
      → find id (set_mode j m s).0.fv ≡ some (if j == id then with_mode m x else x)
  find-set_mode j id m s x e =
      let step = set_mode-fv j m s in
      let looked = find-update_first j id (with_mode m) s.fv (λ y. refl) in
      rw (step, looked)
        (elim (Bool-cases (j == id)) [
          | inl same ↦
              (let here : find j s.fv ≡ some x = rw (eq_of_test j id same) e in
                rw (same, here, if◌then◌else◌) refl)
          | inr other ↦ rw (other, if◌then◌else◌) e
        ])

  -- The loop over the rows sets each fermenter's mode once.
  abbrev resumed : Option (StateRow R) → Fermenter R → Fermenter R
  resumed none x = x
  resumed (some r) x = with_mode r.mode x

  resumed_cases :
      (o : Option (StateRow R)) (x : Fermenter R)
      → ((resumed o x).target_c ≡ x.target_c)
        × (((resumed o x).override ≡ x.override) ⊎ ((resumed o x).override ≡ no_override))
        × ((resumed o x).mode ≡ elim o [ none ↦ x.mode | some r ↦ r.mode ])
  resumed_cases none x = (refl, inl refl, refl)
  resumed_cases (some r) x = ground arith

  find-resume_modes :
      (rows : Dict (StateRow R)) (s : SystemState R) (id : String) (x : Fermenter R)
      → Unique rows
      → find id s.fv ≡ some x
      → find id (resume_modes rows s).fv ≡ some (resumed (lookup id rows) x)
  unfolding resume_modes lookup
  find-resume_modes [] s id x u e = e
  find-resume_modes ((j, r) ∷ rows) s id x u e =
      let next = (set_mode j r.mode s).0 in
      let x' = if j == id then with_mode r.mode x else x in
      let rest = find-resume_modes rows next id x' u.1 (find-set_mode j id r.mode s x e) in
      elim (Bool-cases (j == id)) [
        | inl same ↦
            (let gone : lookup id rows ≡ none = rw (← eq_of_test j id same) u.0 in
              rest ∙ rw (gone, same, if◌then◌else◌) refl)
        | inr other ↦
            rest ∙ rw (other, if◌then◌else◌) (refl {a = some (resumed (lookup id rows) x)})
      ]

  snapshot_rows-Unique :
      (now : Time) (refused : String → Bool) (xs : List (Fermenter R)) (rows : Dict (StateRow R))
      → Unique rows
      → Unique (snapshot_rows now refused xs rows)
  unfolding snapshot_rows
  snapshot_rows-Unique now refused [] rows u = u
  snapshot_rows-Unique now refused (x ∷ xs) rows u =
      snapshot_rows-Unique now refused xs
        (if refused x.id then rows else insert x.id (row_of now x) rows)
        (ground (arith, Unique-insert x.id (row_of now x) rows u))

  -- After a snapshot whose statement for a fermenter succeeded, a boot that reads the modes gives the
  -- fermenter with that id in the fresh state the mode that the saved one had. The ids of the saved
  -- fleet are assumed to name one fermenter each, at least this one, and the table to hold each id
  -- once. What other fermenters' statements do plays no part.
  pub snapshot_resumes_mode :
      (now : Time) (refused : String → Bool) (s s' : SystemState R) (db : Db R) (i : ℕ)
      (x x' : Fermenter R)
      → Unique db.states
      → get_elem? s.fv i ≡ some x
      → ((j : ℕ) (y : Fermenter R) → get_elem? s.fv j ≡ some y → y.id ≡ x.id → j ≡ i)
      → refused x.id ≡ false
      → find x.id s'.fv ≡ some x'
      → find x.id (apply_saved_modes false (snapshot now refused s db) s').fv
        ≡ some (with_mode x.mode x')
  unfolding snapshot apply_saved_modes
  snapshot_resumes_mode now refused s s' db i x x' u at once accepted here =
      let rows = snapshot_rows now refused s.fv db.states in
      let saved : lookup x.id rows ≡ some (row_of now x) =
        snapshot_rows_at now refused s.fv db.states i x at once
        ∙ rw (accepted, if◌then◌else◌) refl in
      find-resume_modes rows s' x.id x' (snapshot_rows-Unique now refused s.fv db.states u) here
      ∙ rw saved refl

module _ {R : Type 0} ⦃f : Float64 R⦄ where
  -- It scans a row before it has moved to one.
  apply_saved_targets_idle :
      (refused : Bool) (db : Db R) (s : SystemState R) → apply_saved_targets refused db s ≡ s
  unfolding apply_saved_targets
  apply_saved_targets_idle false db s = refl
  apply_saved_targets_idle true db s = refl

  -- A boot restores no target, and sets no override, whatever the table of fermenters holds: the
  -- fermenter with an id comes out with the target of the configuration, and with its override or
  -- with none. Its mode is that of the table's row, if there is one.
  pub boot_forgets :
      (targets_refused : Bool) (db : Db R) (s : SystemState R) (id : String) (x : Fermenter R)
      → Unique db.states
      → find id s.fv ≡ some x
      → (y : Fermenter R) × (find id (boot targets_refused false db s).fv ≡ some y)
        × (y.target_c ≡ x.target_c)
        × ((y.override ≡ x.override) ⊎ (y.override ≡ no_override))
        × (y.mode ≡ elim (lookup id db.states) [ none ↦ x.mode | some r ↦ r.mode ])
  unfolding boot
  boot_forgets targets_refused db s id x u here =
      let found : find id (boot targets_refused false db s).fv
          ≡ some (resumed (lookup id db.states) x) =
        rw (apply_saved_targets_idle targets_refused db s)
          (find-resume_modes db.states s id x u here) in
      let (target, override, mode) = resumed_cases (lookup id db.states) x in
      (resumed (lookup id db.states) x, found, target, override, mode)
