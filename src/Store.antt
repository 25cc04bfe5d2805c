-- ===== src/Store.antt =====
-- runtime-pi/internal/store/sqlite.go: the tables that the statements read and write. A statement that
-- SQLite refuses changes no table; whether it does is an argument of the operations that can see it.
-- The ids of events are left out.
pub mod Retry
pub mod Rows
pub mod Settings
pub mod Events
pub mod Samples
pub mod Profiles
use phb_open_ferm.Prelude.{ℕ, String, Bool, Option, List, []}
use phb_open_ferm.Prelude.Int.{ℤ}
use phb_open_ferm.Prelude.Dict.{Dict}
use phb_open_ferm.Time.{Time}

-- A row of `fermenter_state`; its key is the fv_id.
pub record StateRow (R : Type 0) : Type 0 where
  pub name : String
  pub target_c : R
  pub last_beer_c : R
  pub last_valve : String
  pub updated_at : Time
  pub mode : String
  pub override_state : String
  pub override_until : ℤ

-- A row of `events`.
pub record EventRow : Type 0 where
  pub ts : ℤ
  pub type : String
  pub fv_id : String
  pub data_text : String

-- A row of `profiles`; `spec_json` is the text that json.Marshal made.
pub record ProfileRow : Type 0 where
  pub id : ℕ
  pub name : String
  pub spec_json : String
  pub created_at : ℤ

-- A row of `profile_assignments`, and the struct of that name.
pub record Assignment (R : Type 0) : Type 0 where
  pub fv_id : String
  pub profile_id : ℕ
  pub started_ts : ℤ
  pub step_idx : ℕ
  pub step_started_ts : ℤ
  pub from_c : R
  pub paused : Bool

-- A row of `samples`; its key is the fv_id with the ts.
pub record SampleRow (R : Type 0) : Type 0 where
  pub ts : ℤ
  pub fv_id : String
  pub beer_c : R
  pub target_c : R
  pub valve : String

pub record Db (R : Type 0) : Type 0 where
  pub states : Dict (StateRow R)
  pub events : List EventRow
  pub samples : List (SampleRow R)
  pub profiles : List ProfileRow
  pub next_profile : ℕ
  pub assignments : Dict (Assignment R)
  pub settings : Dict String

pub record ProfileStep (R : Type 0) : Type 0 where
  pub type : String
  pub target_c : R
  pub duration_s : ℤ
  pub duration : String
  pub rate_c_per_hour : R

-- type ProfileSpec struct { Steps []struct { … } }
abbrev pub ProfileSpec : Type 0 → Type 0
ProfileSpec R = List (ProfileStep R)

-- json.Marshal and json.Unmarshal of a profile.
pub record Json (R : Type 0) : Type 0 where
  pub marshal : ProfileSpec R → String
  pub unmarshal : String → Option (ProfileSpec R)
