-- ===== src/Alarm.antt =====
-- runtime-pi/internal/alarm/manager.go: temperature alarms. `m.active` is a map from keys to alarms;
-- the events that go to the injected `addEvent` are results of the operations.
pub mod Evaluate
pub mod Phases
pub mod Laws
pub mod Keys
pub mod Accounting
use Prim.Native.String.{◌++◌}
use phb_open_ferm.Prelude.{
  ℕ, String, Bool, true, false, Option, none, some, List, [], ◌∷◌, map, ◌==◌, if◌then◌else◌, length,
}
use phb_open_ferm.Prelude.Dict.{Dict, lookup, insert, erase}
use phb_open_ferm.Time.{Time, Duration}
use phb_open_ferm.Float64.{Float64}
use phb_open_ferm.Control.{Fermenter}

-- type Type string
abbrev pub AlarmType : Type 0
AlarmType = String

abbrev pub high_temp : AlarmType
high_temp = "HIGH_TEMP"

abbrev pub low_temp : AlarmType
low_temp = "LOW_TEMP"

pub record Alarm (R : Type 0) : Type 0 where
  pub id : String
  pub type : AlarmType
  pub fv_id : String
  pub started : Time
  pub last_seen : Time
  pub acknowledged : Bool
  pub message : String
  pub value : R

-- func (m *Manager) key(t Type, fvID string) string
unfoldable pub key : AlarmType → String → String
key t fv_id = (t ++ ":") ++ fv_id

-- A call of `addEvent`.
pub record Event : Type 0 where
  pub typ : String
  pub fv_id : String
  pub data_text : String

-- `has_hook`: `addEvent` is not nil.
pub record Manager (R : Type 0) : Type 0 where
  pub active : Dict (Alarm R)
  pub high_marg : R
  pub low_marg : R
  pub debounce : Duration
  pub has_hook : Bool

module _ {R : Type 0} where
  unfoldable pub new_manager : R → R → Duration → Bool → Manager R
  new_manager high_marg low_marg debounce has_hook = record {
    active = [];
    high_marg = high_marg;
    low_marg = low_marg;
    debounce = debounce;
    has_hook = has_hook;
  }

  -- if m.addEvent != nil { m.addEvent(…) }
  abbrev pub emit : Manager R → Event → List Event
  emit m e = if m.has_hook then e ∷ [] else []

  unfoldable pub active_list : Manager R → List (Alarm R)
  active_list m = map (λ (k, a). a) m.active

  unfoldable pub active_count : Manager R → ℕ
  active_count m = length m.active

  unfoldable pub ack : String → Manager R → Manager R × List Event × Bool
  ack id m = elim (lookup id m.active) [
    | none ↦ (m, [], false)
    | some a ↦ (
      record m { active = insert id (record a { acknowledged = true }) m.active },
      emit m (record { typ = "ALARM_ACK"; fv_id = a.fv_id; data_text = a.id }),
      true,
    )
  ]

  -- func (m *Manager) clear(t Type, fv *control.Fermenter, now time.Time)
  unfoldable pub clear : AlarmType → Fermenter R → Manager R → Manager R × List Event
  clear t fv m =
      let id = key t fv.id in
      elim (lookup id m.active) [
        | none ↦ (m, [])
        | some _ ↦ (
          record m { active = erase id m.active },
          emit m (record { typ = "ALARM_CLEAR"; fv_id = fv.id; data_text = t }),
        )
      ]

module _ {R : Type 0} ⦃f : Float64 R⦄ where
  abbrev pub high_message : Manager R → Fermenter R → String
  high_message m fv =
      fv.name
      ++ " high: "
      ++ f.fixed 2 fv.beer_c
      ++ "°C > setpoint "
      ++ f.fixed 2 fv.target_c
      ++ "°C + "
      ++ f.fixed 2 m.high_marg
      ++ "°C"

  abbrev pub low_message : Manager R → Fermenter R → String
  low_message m fv =
      fv.name
      ++ " low: "
      ++ f.fixed 2 fv.beer_c
      ++ "°C < setpoint "
      ++ f.fixed 2 fv.target_c
      ++ "°C - "
      ++ f.fixed 2 m.low_marg
      ++ "°C"

  abbrev pub new_alarm : AlarmType → Fermenter R → Time → String → Alarm R
  new_alarm t fv now msg = record {
    id = key t fv.id;
    type = t;
    fv_id = fv.id;
    started = now;
    last_seen = now;
    acknowledged = false;
    message = msg;
    value = fv.beer_c;
  }

  -- a.LastSeen = now; a.Value = fv.BeerC
  abbrev pub refresh : Time → Fermenter R → Alarm R → Alarm R
  refresh now fv a = record a { last_seen = now; value = fv.beer_c }

  -- func (m *Manager) raise(t Type, fv *control.Fermenter, now time.Time)
  unfoldable pub raise : AlarmType → Fermenter R → Time → Manager R → Manager R × List Event
  raise t fv now m =
      let id = key t fv.id in
      let msg =
        if t == high_temp
        then high_message m fv
        else if t == low_temp
        then low_message m fv
        else "" in
      elim (lookup id m.active) [
        | none ↦ (
          record m { active = insert id (new_alarm t fv now msg) m.active },
          emit m (record { typ = "ALARM_OPEN"; fv_id = fv.id; data_text = msg }),
        )
        | some a ↦ (record m { active = insert id (refresh now fv a) m.active }, [])
      ]
