-- ===== src/Store/Rows.antt =====
-- The table `fermenter_state` of sqlite.go: what is saved of the fermenters, and what a boot resumes.
pub mod Resume
use phb_open_ferm.Prelude.{
  ℕ, zero, suc, String, ◌≡◌, ◌≢◌, refl, sym, ◌∙◌, ap, Bool, true, false, not, Option, none, some,
  List, [], ◌∷◌, arith, ◌==◌, if◌then◌else◌, get_elem?, eq_iff, test_self, test_of_ne, Bool-cases,
  inl, inr,
}
use phb_open_ferm.Prelude.Int.{ℤ, pos, ltb_ℤ}
use phb_open_ferm.Prelude.Dict.{Dict, lookup, insert, lookup-insert, Unique}
use phb_open_ferm.Time.{Time, unix, is_zero, from_unix, zero_time}
use phb_open_ferm.Float64.{Float64}
use phb_open_ferm.Control.{Fermenter, SystemState, mode_profile, valve_closed}
use phb_open_ferm.Control.Fleet.{find, update_first, find-update_first}
use phb_open_ferm.Control.Setters.{
  TargetChange, set_mode, set_first, with_mode, set_target, set_valve_override_until,
}
use phb_open_ferm.Store.{Db, StateRow}

module _ {R : Type 0} ⦃f : Float64 R⦄ where
  abbrev target_row : Time → R → String → Option (StateRow R) → StateRow R
  target_row now t name none = record {
    name = name;
    target_c = t;
    last_beer_c = f.decimal (pos 0) 0;
    last_valve = valve_closed;
    updated_at = now;
    mode = mode_profile;
    override_state = "";
    override_until = pos 0;
  }
  target_row now t name (some r) = record r { target_c = t; name = name; updated_at = now }

  -- `refused` says whether the statement fails after all its attempts.
  unfoldable pub save_target : Time → Bool → TargetChange R → Db R → Db R
  save_target now refused c db = if refused then db else record db {
    states = insert c.id (target_row now c.new_t c.name (lookup c.id db.states)) db.states;
  }

  -- OnTargetChange, once for each call that a setter makes.
  unfoldable pub save_targets : Time → Bool → List (TargetChange R) → Db R → Db R
  unfolding save_target
  save_targets now refused [] db = db
  save_targets now refused (c ∷ cs) db = save_targets now refused cs (save_target now refused c db)

  abbrev mode_row : Time → String → Option (StateRow R) → StateRow R
  mode_row now mode none = record {
    name = "";
    target_c = f.decimal (pos 0) 0;
    last_beer_c = f.decimal (pos 0) 0;
    last_valve = valve_closed;
    updated_at = now;
    mode = mode;
    override_state = "";
    override_until = pos 0;
  }
  mode_row now mode (some r) = record r { mode = mode; updated_at = now }

  unfoldable pub save_mode : Time → Bool → String → String → Db R → Db R × Bool
  save_mode now refused id mode db = if refused then (db, false) else (
    record db { states = insert id (mode_row now mode (lookup id db.states)) db.states },
    true,
  )

module _ {R : Type 0} where
  abbrev pub row_of : Time → Fermenter R → StateRow R
  row_of now x = record {
    name = x.name;
    target_c = x.target_c;
    last_beer_c = x.beer_c;
    last_valve = x.valve;
    updated_at = now;
    mode = x.mode;
    override_state = x.override.state;
    override_until = if is_zero x.override.until then pos 0 else unix x.override.until;
  }

  -- The rows after the loop, and whether each statement succeeded; `refused id` says whether the
  -- statement for a fermenter fails.
  unfoldable pub snapshot_rows :
      Time → (String → Bool) → List (Fermenter R) → Dict (StateRow R) → Dict (StateRow R)
  snapshot_rows now refused [] rows = rows
  snapshot_rows now refused (x ∷ xs) rows =
      snapshot_rows now refused xs (if refused x.id then rows else insert x.id (row_of now x) rows)

  unfoldable pub snapshot : Time → (String → Bool) → SystemState R → Db R → Db R
  unfolding snapshot_rows
  snapshot now refused s db = record db { states = snapshot_rows now refused s.fv db.states }

  unfoldable pub resume_modes : Dict (StateRow R) → SystemState R → SystemState R
  unfolding set_mode
  resume_modes [] s = s
  resume_modes ((id, r) ∷ rows) s = resume_modes rows (set_mode id r.mode s).0

  unfoldable pub apply_saved_modes : Bool → Db R → SystemState R → SystemState R
  unfolding resume_modes
  apply_saved_modes refused db s = if refused then s else resume_modes db.states s

-- A `sql.Rows`: the row that `Next` has moved to, if any, and the rows to come.
record Rows (R : Type 0) : Type 0 where
  current : Option (String × StateRow R)
  ahead : Dict (StateRow R)

module _ {R : Type 0} ⦃f : Float64 R⦄ where
  query : Db R → Rows R
  query db = record { current = none; ahead = db.states }

  -- Scan before the first Next is an error.
  scan : Rows R → Option (String × StateRow R)
  scan rows = rows.current

  abbrev resume_override : String → StateRow R → SystemState R → SystemState R
  resume_override id r s =
      if not (r.override_state == "")
      then (let until =
            if ltb_ℤ (pos 0) r.override_until then from_unix r.override_until else zero_time in
          (set_valve_override_until id r.override_state until s).0)
      else s

  abbrev resume_mode : String → StateRow R → SystemState R → SystemState R
  resume_mode id r s = if not (r.mode == "") then (set_mode id r.mode s).0 else s

  unfoldable pub apply_saved_targets : Bool → Db R → SystemState R → SystemState R
  unfolding query scan set_target set_mode set_valve_override_until
  apply_saved_targets refused db s =
      let resumed : SystemState R = elim (scan (query db)) [
        | none ↦ s
        | some (id, r) ↦ resume_override id r (resume_mode id r (set_target id r.target_c s).0)
      ] in
      if refused then s else resumed

  -- What `main` resumes, with its errors logged: the targets, then the modes.
  unfoldable pub boot : Bool → Bool → Db R → SystemState R → SystemState R
  unfolding apply_saved_targets apply_saved_modes
  boot targets_refused modes_refused db s =
      apply_saved_modes modes_refused db (apply_saved_targets targets_refused db s)
