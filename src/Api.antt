-- ===== src/Api.antt =====
-- runtime-pi/internal/api: the server's state, and the handlers as functions from a decoded request to
-- the new state and the answer. Decoding a body is a step before them: `none` is a body that is no
-- JSON. A path parameter is the text that the router hands over.
pub mod Targets
pub mod Modes
pub mod Profiles
pub mod Settings
pub mod Records
pub mod Routes
pub mod Access
pub mod Requests
pub mod Serving
pub mod Errors
pub mod Assigning
pub mod Answers
pub mod Logging
use phb_open_ferm.Prelude.{ℕ, String, Bool, Option, List}
use phb_open_ferm.Prelude.Int.{ℤ}
use phb_open_ferm.Control.{SystemState}
use phb_open_ferm.Control.Export.{FermenterView}
use phb_open_ferm.Store.Events.{StoredEvent}
use phb_open_ferm.Store.{Db, EventRow, Assignment}
use phb_open_ferm.Store.Settings.{ControllerSettings}
use phb_open_ferm.Store.Samples.{SeriesPoint}
use phb_open_ferm.Alarm.{Alarm}
use phb_open_ferm.Alarm as Alarms
use phb_open_ferm.Session.{Server, Status}

-- What the handlers share. `server` holds the PIN and the sessions.
pub record App (R : Type 0) : Type 0 where
  pub sys : SystemState R
  pub db : Db R
  pub alarms : Alarms.Manager R
  pub server : Server
  pub units : String
  pub locale : String

-- The statements of the store that a handler runs.
pub data Statement : Type 0 where
  reads_profiles reads_profile creates_profile : Statement
  reads_assignment writes_assignment deletes_assignment : Statement
  saves_target saves_mode : Statement
  reads_setting saves_setting : String → Statement
  adds_event reads_events reads_samples : Statement

-- Which statements fail while a request is served.
abbrev pub Failures : Type 0
Failures = Statement → Bool

-- The bodies of the answers; `sql_error` is the text of an error of the store.
pub data Body (R : Type 0) : Type 0 where
  nothing : Body R
  message : String → Body R
  sql_error : Body R
  shows_state : List (FermenterView R) → Body R
  shows_prefs : String → String → Body R
  shows_mode : String → R → Option (String × ℤ) → Body R
  shows_profiles : List (ℕ × String) → Body R
  created : ℕ → Body R
  shows_assignment : Assignment R → String → Body R
  shows_settings : ControllerSettings R → Body R
  shows_alarms : List (Alarm R) → Body R
  shows_events : List EventRow → Body R
  shows_history : List StoredEvent → Body R
  shows_series : ℤ → ℤ → ℤ → List (SeriesPoint R) → Body R
  shows_status : Status → Body R
  sets_cookie : String → Body R

pub record Answer (R : Type 0) : Type 0 where
  pub status : ℕ
  pub body : Body R

module _ {R : Type 0} where
  abbrev pub no_content : Answer R
  no_content = record { status = 204; body = nothing }

  -- http.Error
  abbrev pub error : ℕ → String → Answer R
  error code text = record { status = code; body = message text }

  abbrev pub failed : Answer R
  failed = record { status = 500; body = sql_error }

  abbrev pub json : Body R → Answer R
  json b = record { status = 200; body = b }
