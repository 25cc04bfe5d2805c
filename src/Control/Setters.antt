-- ===== src/Control/Setters.antt =====
-- The operations of `SystemState` that the API, the store and the scheduler call. Each holds the
-- mutex throughout, so it is one step. Its error is the message, or `none` for nil.
use phb_open_ferm.Prelude.{
  String, true, not, ◌&&◌, Option, none, some, List, [], ◌∷◌, map, ◌==◌, if◌then◌else◌,
}
use phb_open_ferm.Prelude.Int.{ℤ, pos, ltb_ℤ, leb_ℤ}
use phb_open_ferm.Time.{Time, Duration, zero_time, is_zero, shift, of_seconds}
use phb_open_ferm.Float64.{Float64}
use phb_open_ferm.Control.{
  Fermenter, SystemState, ControlMode, mode_valve, no_override, valve_open, valve_closed,
}
use phb_open_ferm.Control.Fleet.{find, update_first}

abbrev pub Error : Type 0
Error = Option String

abbrev pub not_found : Error
not_found = some "fermenter not found"

-- The arguments of a call of `OnTargetChange`.
pub record TargetChange (R : Type 0) : Type 0 where
  pub id : String
  pub new_t : R
  pub name : String

module _ {R : Type 0} where
  -- The loop of the setters that return an error.
  unfoldable pub set_first :
      String → (Fermenter R → Fermenter R) → SystemState R → SystemState R × Error
  set_first id f s = elim (find id s.fv) [
    | none ↦ (s, not_found)
    | some x ↦ (record s { fv = update_first id f s.fv }, none)
  ]

  abbrev pub with_mode : ControlMode → Fermenter R → Fermenter R
  with_mode m x = record x {
    mode = m;
    override =
        if not (m == mode_valve) && (not (x.override.state == "") && is_zero x.override.until)
        then no_override
        else x.override;
    allow_immediate = true;
  }

  unfoldable pub set_mode : String → ControlMode → SystemState R → SystemState R × Error
  unfolding set_first
  set_mode id m s = set_first id (with_mode m) s

  abbrev pub with_override : String → Time → Fermenter R → Fermenter R
  with_override st until x = record x {
    override = record { state = st; until = until };
    allow_immediate = true;
  }

  unfoldable pub force_valve :
      Time → String → String → Duration → SystemState R → SystemState R × Error
  unfolding set_first
  force_valve now id st ttl s =
      let until = if ltb_ℤ (pos 0) ttl then shift now ttl else zero_time in
      if not (st == valve_open) && not (st == valve_closed)
      then (s, some "bad state")
      else set_first id (with_override st until) s

  unfoldable pub clear_override : String → SystemState R → SystemState R
  clear_override id s = record s {
    fv = update_first id (λ x. record x { override = no_override; allow_immediate = true }) s.fv;
  }

  unfoldable pub set_valve_override_until :
      String → String → Time → SystemState R → SystemState R × Error
  unfolding set_first
  set_valve_override_until id st until s =
      if not (st == valve_open) && not (st == valve_closed)
      then (s, some "invalid override state")
      else set_first id (with_override st until) s

  unfoldable pub set_valve_override_for :
      Time → String → String → Duration → SystemState R → SystemState R × Error
  unfolding set_valve_override_until
  set_valve_override_for now id st d s = set_valve_override_until id st (shift now d) s

  unfoldable pub set_valve_override : String → String → SystemState R → SystemState R × Error
  unfolding set_valve_override_until
  set_valve_override id st s = set_valve_override_until id st zero_time s

  unfoldable pub update_beer_temp : Time → String → R → SystemState R → SystemState R
  update_beer_temp now id c s = record s {
    fv = update_first id (λ x. record x { beer_c = c; last_update = now }) s.fv;
  }

module _ {R : Type 0} ⦃f : Float64 R⦄ where
  abbrev pub with_target : R → Fermenter R → Fermenter R
  with_target t x =
      if not (f.eq x.target_c t) then record x { target_c = t; allow_immediate = true } else x

  -- The new state, the calls of the callback, and the error.
  unfoldable pub set_target :
      String → R → SystemState R → SystemState R × List (TargetChange R) × Error
  set_target id t s = elim (find id s.fv) [
    | none ↦ (s, [], not_found)
    | some x ↦ (
      record s { fv = update_first id (with_target t) s.fv },
      (if s.on_target_change
          then (let x' = with_target t x in
              record { id = x'.id; new_t = x'.target_c; name = x'.name } ∷ [])
          else []),
      none,
    )
  ]

  abbrev pub with_band : R → Fermenter R → Fermenter R
  with_band band_c x = if f.lt (f.decimal (pos 0) 0) band_c then record x { band_c = band_c } else x

  abbrev pub with_min_change : ℤ → Fermenter R → Fermenter R
  with_min_change n x = if leb_ℤ (pos 0) n then record x { min_change = of_seconds n } else x

  unfoldable pub apply_controller_settings : R → ℤ → ℤ → SystemState R → SystemState R
  apply_controller_settings band_c min_change_s max_open s = record s {
    fv = map (λ x. with_min_change min_change_s (with_band band_c x)) s.fv;
    max_open = if leb_ℤ (pos 0) max_open then max_open else s.max_open;
  }
