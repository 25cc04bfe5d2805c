-- ===== src/Alarm/Evaluate.antt =====
-- `Manager.Evaluate`: a pass over the fermenters collects what is out of band and what is not, then
-- alarms open or are refreshed, and then alarms that have been quiet long enough close.
use phb_open_ferm.Prelude.{String, Bool, not, none, some, List, [], ◌∷◌, ◌++◌, ◌==◌, if◌then◌else◌}
use phb_open_ferm.Prelude.Int.{leb_ℤ}
use phb_open_ferm.Prelude.Dict.{lookup, insert, erase}
use phb_open_ferm.Time.{Time, since}
use phb_open_ferm.Float64.{Float64}
use phb_open_ferm.Control.{Fermenter, SystemState}
use phb_open_ferm.Alarm.{
  AlarmType, Manager, Event, key, emit, high_temp, low_temp, high_message, low_message, new_alarm,
  refresh,
}

-- struct { typ Type; fv *control.Fermenter }
pub record Candidate (R : Type 0) : Type 0 where
  pub typ : AlarmType
  pub fv : Fermenter R

module _ {R : Type 0} where
  -- A loop that may change the manager and add events.
  unfoldable pub each :
      (Candidate R → Manager R → Manager R × List Event)
      → List (Candidate R)
      → Manager R
      → Manager R × List Event
  each step [] m = (m, [])
  each step (c ∷ cs) m =
      let (m', es) = step c m in let (m'', fs) = each step cs m' in (m'', es ++ fs)

module _ {R : Type 0} ⦃f : Float64 R⦄ where
  abbrev pub is_high : Manager R → Fermenter R → Bool
  is_high m fv = f.lt (f.add fv.target_c m.high_marg) fv.beer_c

  abbrev pub is_low : Manager R → Fermenter R → Bool
  is_low m fv = f.lt fv.beer_c (f.sub fv.target_c m.low_marg)

  abbrev pub candidate : AlarmType → Fermenter R → Candidate R
  candidate t fv = record { typ = t; fv = fv }

  abbrev pub only_if : Bool → Candidate R → List (Candidate R)
  only_if b c = if b then c ∷ [] else []

  -- toOpen and toClose after the pass over the fermenters.
  unfoldable pub to_open : Manager R → List (Fermenter R) → List (Candidate R)
  to_open m [] = []
  to_open m (fv ∷ rest) =
      only_if (is_high m fv) (candidate high_temp fv)
      ++ (only_if (is_low m fv) (candidate low_temp fv) ++ to_open m rest)

  unfoldable pub to_close : Manager R → List (Fermenter R) → List (Candidate R)
  to_close m [] = []
  to_close m (fv ∷ rest) =
      only_if (not (is_high m fv)) (candidate high_temp fv)
      ++ (only_if (not (is_low m fv)) (candidate low_temp fv) ++ to_close m rest)

  abbrev pub open_message : Manager R → Candidate R → String
  open_message m c = if c.typ == high_temp then high_message m c.fv else low_message m c.fv

  -- One round of the loop over toOpen.
  unfoldable pub open_one : Time → Candidate R → Manager R → Manager R × List Event
  open_one now c m =
      let id = key c.typ c.fv.id in
      elim (lookup id m.active) [
        | some a ↦ (record m { active = insert id (refresh now c.fv a) m.active }, [])
        | none ↦
            (let msg = if m.has_hook then open_message m c else "" in
              (
                record m { active = insert id (new_alarm c.typ c.fv now msg) m.active },
                emit m (record { typ = "ALARM_OPEN"; fv_id = c.fv.id; data_text = msg }),
              ))
      ]

  -- One round of the loop over toClose.
  unfoldable pub close_one : Time → Candidate R → Manager R → Manager R × List Event
  close_one now c m =
      let id = key c.typ c.fv.id in
      elim (lookup id m.active) [
        | none ↦ (m, [])
        | some a ↦
            (if leb_ℤ m.debounce (since now a.last_seen)
              then ((
                record m { active = erase id m.active },
                emit m (record { typ = "ALARM_CLEAR"; fv_id = c.fv.id; data_text = c.typ }),
              ))
              else (m, []))
      ]

  unfoldable pub evaluate : Time → SystemState R → Manager R → Manager R × List Event
  evaluate now state m =
      let (opened, es) = each (open_one now) (to_open m state.fv) m in
      let (closed, fs) = each (close_one now) (to_close m state.fv) opened in (closed, es ++ fs)
