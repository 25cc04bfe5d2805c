-- ===== src/Api/Profiles.antt =====
-- The handlers of profile.go. `fv_id` is the path's parameter.
use phb_open_ferm.Prelude.{
  ℕ, zero, suc, String, Bool, false, not, ◌||◌, Option, none, some, List, [], ◌∷◌, ◌==◌, eqb,
  if◌then◌else◌,
}
use phb_open_ferm.Prelude.Int.{ℤ, pos, negsuc}
use phb_open_ferm.Decimal.{NumError, ok, syntax, range, parse_int}
use phb_open_ferm.Time.{Time, unix}
use phb_open_ferm.Control.{Fermenter}
use phb_open_ferm.Store.{Json, ProfileSpec, Assignment}
use phb_open_ferm.Store.Profiles.{
  create_profile, get_profile, list_profiles, get_assignment, upsert_assignment, delete_assignment,
}
use phb_open_ferm.Api.{
  App, Failures, reads_profiles, reads_profile, creates_profile, reads_assignment,
  writes_assignment, deletes_assignment, Answer, no_content, error, failed, json, shows_profiles,
  created, shows_assignment,
}

-- The body of an assignment after decoding; a body that is no JSON leaves the zero values.
pub record AssignBody (R : Type 0) : Type 0 where
  pub profile_id : ℤ
  pub from_c : Option R

abbrev number_or_zero : ℤ × NumError → ℤ
number_or_zero (n, ok) = n
number_or_zero (n, syntax) = pos 0
number_or_zero (n, range) = pos 0

-- The id of the body, or that of the query `?profile_id=`.
unfoldable pub wanted_profile : ℤ → String → ℤ
unfolding parse_int
wanted_profile (negsuc n) q = negsuc n
wanted_profile (pos (suc n)) q = pos (suc n)
wanted_profile (pos zero) q = if q == "" then pos 0 else number_or_zero (parse_int q)

-- What `?paused=` asks for, given whether the profile is paused now.
abbrev pub paused_of : String → Bool → Bool
paused_of q now_paused =
    if q == "" then not now_paused else q == "1" || (q == "true" || q == "TRUE")

-- The name of the first profile with an id, or the empty text.
unfoldable pub name_of : ℕ → List (ℕ × String) → String
name_of id [] = ""
name_of id ((n, name) ∷ ps) = if eqb n id then name else name_of id ps

abbrev listed_name : ℕ → Option (List (ℕ × String)) → String
listed_name id none = ""
listed_name id (some list) = name_of id list

module _ {R : Type 0} where
  -- The loop over all fermenters: the last one with the id gives the target.
  unfoldable pub last_target : String → List (Fermenter R) → Option R
  last_target id [] = none
  last_target id (x ∷ xs) = elim (last_target id xs) [
    | some t ↦ some t
    | none ↦ (if x.id == id then some x.target_c else none)
  ]

  unfoldable pub handle_list_profiles : Failures → App R → Answer R
  unfolding list_profiles
  handle_list_profiles fails app = elim (list_profiles (fails reads_profiles) app.db) [
    | none ↦ failed
    | some list ↦ json (shows_profiles list)
  ]

  unfoldable pub handle_create_profile :
      Json R → Time → Failures → Option (String × ProfileSpec R) → App R → App R × Answer R
  unfolding create_profile
  handle_create_profile js now fails none app = (app, error 400 "bad json")
  handle_create_profile js now fails (some (name, [])) app = (app, error 400 "spec.steps is empty")
  handle_create_profile js now fails (some (name, step ∷ steps)) app =
      let (db', made) = create_profile js now (fails creates_profile) name (step ∷ steps) app.db in
      elim made [ none ↦ (app, failed) | some id ↦ (record app { db = db' }, json (created id)) ]

  unfoldable pub handle_get_assignment : Failures → String → App R → Answer R
  unfolding get_assignment list_profiles name_of
  handle_get_assignment fails fv_id app =
      if fv_id == ""
      then error 400 "missing fv id"
      else elim (get_assignment (fails reads_assignment) fv_id app.db) [
        | none ↦ no_content
        | some none ↦ no_content
        | some (some a) ↦ json (
            shows_assignment a
              (listed_name a.profile_id (list_profiles (fails reads_profiles) app.db)))
      ]

  abbrev pub assigned_row : Time → String → ℕ → R → Assignment R
  assigned_row now fv_id profile_id from_c = record {
    fv_id = fv_id;
    profile_id = profile_id;
    started_ts = pos 0;
    step_idx = 0;
    step_started_ts = unix now;
    from_c = from_c;
    paused = false;
  }

  -- From the row of the new assignment on.
  unfoldable pub write_assignment : Time → Failures → String → ℕ → R → App R → App R × Answer R
  unfolding upsert_assignment
  write_assignment now fails fv_id profile_id from_c app =
      let (db', done) =
        upsert_assignment now (fails writes_assignment) (assigned_row now fv_id profile_id from_c)
          app.db in
      if done then (record app { db = db' }, no_content) else (app, error 500 "assign failed")

  -- With the profile id of the body or the query; no row has a negative one.
  unfoldable pub assign_profile :
      Json R → Time → Failures → String → ℤ → Option R → App R → App R × Answer R
  unfolding get_profile last_target write_assignment
  assign_profile js now fails fv_id (negsuc n) from_c app = (app, error 404 "profile not found")
  assign_profile js now fails fv_id (pos zero) from_c app = (app, error 400 "missing profile_id")
  assign_profile js now fails fv_id (pos (suc n)) from_c app =
      let base : Option R = elim from_c [ some t ↦ some t | none ↦ last_target fv_id app.sys.fv ] in
      elim (get_profile js (fails reads_profile) (suc n) app.db) [
        | none ↦ (app, error 404 "profile not found")
        | some spec ↦ elim base [
          | none ↦ (app, error 404 "fv not found")
          | some t ↦ write_assignment now fails fv_id (suc n) t app
        ]
      ]

  unfoldable pub handle_assign_profile :
      Json R → Time → Failures → String → AssignBody R → String → App R → App R × Answer R
  unfolding assign_profile wanted_profile
  handle_assign_profile js now fails fv_id body q app =
      if fv_id == ""
      then (app, error 400 "missing fv id")
      else assign_profile js now fails fv_id (wanted_profile body.profile_id q) body.from_c app

  -- With what the store returns for the fermenter.
  unfoldable pub pause_found :
      Time → Failures → String → Option (Option (Assignment R)) → App R → App R × Answer R
  unfolding upsert_assignment
  pause_found now fails q none app = (app, error 404 "no assignment")
  pause_found now fails q (some none) app = (app, error 404 "no assignment")
  pause_found now fails q (some (some a)) app =
      let (db', done) =
        upsert_assignment now (fails writes_assignment) (record a { paused = paused_of q a.paused })
          app.db in
      if done then (record app { db = db' }, no_content) else (app, error 500 "pause failed")

  unfoldable pub handle_pause_profile : Time → Failures → String → String → App R → App R × Answer R
  unfolding get_assignment pause_found
  handle_pause_profile now fails fv_id q app =
      if fv_id == ""
      then (app, error 400 "missing fv id")
      else pause_found now fails q (get_assignment (fails reads_assignment) fv_id app.db) app

  unfoldable pub handle_cancel_profile : Failures → String → App R → App R × Answer R
  unfolding delete_assignment
  handle_cancel_profile fails fv_id app =
      let (db', done) = delete_assignment (fails deletes_assignment) fv_id app.db in
      if fv_id == ""
      then (app, error 400 "missing fv id")
      else if done
      then (record app { db = db' }, no_content)
      else (app, error 500 "cancel failed")
