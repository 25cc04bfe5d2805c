-- ===== src/Tests/Profiles.antt =====
-- The store and the scheduler at concrete tables.
use phb_open_ferm.Prelude.{
  ℕ, ◌≡◌, ◌⊎◌, ◌+◌, ◌<◌, refl, true, false, none, some, [], ◌∷◌, arith, get_elem?, ne_of_test, ap,
  ◌∙◌, zero, suc,
}
use mathlib.Core.Option.{some-injective}
use phb_open_ferm.Prelude.Int.{ℤ, pos, wrap64, ◌-ℤ◌}
use phb_open_ferm.Prelude.Dict.{lookup}
use phb_open_ferm.Time.{unix}
use phb_open_ferm.Float64.Scaled.{scaled}
use phb_open_ferm.Control.{Fermenter, SystemState, mode_profile, no_override, valve_open}
use phb_open_ferm.Control.Fleet.{find}
use phb_open_ferm.Control.Setters.{with_mode}
use phb_open_ferm.Store.{ProfileRow, Db, ProfileSpec, ProfileStep, Assignment, Json}
use phb_open_ferm.Store.Retry.{is_busy, exec_retry, DbError, exec_retry_first}
use phb_open_ferm.Store.Profiles.{get_profile, find_row}
use phb_open_ferm.Store.Rows.{snapshot, apply_saved_modes, boot}
use phb_open_ferm.Store.Rows.Resume.{snapshot_resumes_mode, boot_forgets}
use phb_open_ferm.Scheduler.{lowers_to, schedule}
use phb_open_ferm.Scheduler.Rounds.{current}
use phb_open_ferm.Scheduler.Holds.{no_faults, hold_advances}
use phb_open_ferm.Scheduler.Progress.{advanced, IsMove, schedule_moves}
use phb_open_ferm.Scheduler.Safety.{IsTracked, hold_without_seconds}
use phb_open_ferm.Tests.{at, warm, second, two}

abbrev pub hold : ProfileStep ℤ
hold = record {
  type = "Hold";
  target_c = pos 18000;
  duration_s = pos 0;
  duration = "36h";
  rate_c_per_hour = pos 0;
}

abbrev pub profile : ProfileSpec ℤ
profile = hold ∷ record hold { type = "ramp"; target_c = pos 12000 } ∷ []

-- The one text that stands for the profile.
abbrev pub json : Json ℤ
json = record { marshal = λ _. "p"; unmarshal = λ _. some profile }

abbrev pub empty : Db ℤ
empty = record {
  states = [];
  events = [];
  samples = [];
  profiles = [];
  next_profile = 1;
  assignments = [];
  settings = [];
}

abbrev pub held : Assignment ℤ
held = record {
  fv_id = "fv1";
  profile_id = 1;
  started_ts = pos 1_700_000_000;
  step_idx = 0;
  step_started_ts = pos 1_700_000_000;
  from_c = pos 20000;
  paused = false;
}

abbrev pub ale : ProfileRow
ale = record { id = 1; name = "Ale"; spec_json = "p"; created_at = pos 1_700_000_000 }

abbrev pub stored : Db ℤ
stored = record empty { profiles = ale ∷ []; next_profile = 2; assignments = ("fv1", held) ∷ [] }

abbrev pub guided : SystemState ℤ
guided = record two { fv = record warm { mode = mode_profile } ∷ second ∷ [] }

abbrev busy_twice : ℕ → DbError
busy_twice zero = some "database is locked"
busy_twice (suc zero) = some "SQLITE_BUSY"
busy_twice (suc (suc n)) = none

busy_at : (k : ℕ) → k < 2 → is_busy (busy_twice k) ≡ true
unfolding is_busy
busy_at zero h = refl
busy_at (suc zero) h = refl
busy_at (suc (suc k)) h = absurd (omega arith)

exec_retry_first_example :
    ((exec_retry busy_twice).err ≡ none)
    × ((exec_retry busy_twice).attempts ≡ 3)
    × ((exec_retry busy_twice).slept + 50 ≡ 200)
unfolding is_busy
exec_retry_first_example = exec_retry_first busy_twice 2 (omega arith) busy_at refl

once : (j : ℕ) (y : Fermenter ℤ) → get_elem? guided.fv j ≡ some y → y.id ≡ "fv1" → j ≡ 0
once zero y e same = refl
once (suc zero) y e same =
    let other : second ≡ y = some-injective _ _ e in
    absurd (ne_of_test "fv2" "fv1" refl (ap (λ (x : Fermenter ℤ). x.id) other ∙ same))
once (suc (suc j)) y e same = absurd (ground arith)

snapshot_resumes_mode_example :
    find "fv1" (apply_saved_modes false (snapshot (at 0) (λ _. false) guided empty) two).fv
    ≡ some (with_mode mode_profile warm)
unfolding find
snapshot_resumes_mode_example =
    snapshot_resumes_mode (at 0) (λ _. false) guided two empty 0
      (record warm { mode = mode_profile }) warm tt refl once refl refl

abbrev saved : Db ℤ
saved = record empty {
  states =
      (
        "fv1",
        record {
          name = "First";
          target_c = pos 4000;
          last_beer_c = pos 5000;
          last_valve = valve_open;
          updated_at = at 0;
          mode = mode_profile;
          override_state = valve_open;
          override_until = pos 0;
        },
      )
      ∷ [];
}

boot_forgets_example :
    (y : Fermenter ℤ) × (find "fv1" (boot false false saved two).fv ≡ some y)
    × (y.target_c ≡ pos 18000)
    × ((y.override ≡ no_override) ⊎ (y.override ≡ no_override))
    × (y.mode ≡ mode_profile)
unfolding find lookup
boot_forgets_example = boot_forgets false saved two "fv1" warm (refl, tt) refl

-- The hold is at its target, and does not end.
ran : schedule json (at 0) no_faults 0 (guided, stored) ≡ some (guided, stored)
unfolding schedule scaled lookup
ran = refl

pub tracked : IsTracked json stored
unfolding lookup
tracked id a spec is got steps = ground arith

schedule_moves_example :
    IsMove (at 0) json stored (current "fv1" stored.assignments) (current "fv1" stored.assignments)
schedule_moves_example =
    schedule_moves json (at 0) no_faults 0 guided stored (guided, stored) "fv1" ran

hold_without_seconds_example : current "fv1" stored.assignments ≡ some held
unfolding lowers_to lookup get_profile find_row
hold_without_seconds_example =
    hold_without_seconds json (at 0) no_faults 0 guided stored "fv1" held profile hold refl refl
      refl refl (omega arith) (guided, stored) ran

-- The same hold with ten seconds, which are over.
abbrev short : ProfileStep ℤ
short = record hold { duration_s = pos 10 }

abbrev short_json : Json ℤ
short_json = record { marshal = λ _. "p"; unmarshal = λ _. some (short ∷ hold ∷ []) }

hold_advances_example :
    (out : SystemState ℤ × Db ℤ) × (schedule short_json (at 0) no_faults 0 (guided, stored)
      ≡ some out)
    × (current "fv1" out.1.assignments ≡ some (advanced (at 0) held (pos 18000)))
unfolding lowers_to lookup get_profile find_row unix wrap64 ◌-ℤ◌
hold_advances_example =
    hold_advances short_json (at 0) 0 guided stored (record warm { mode = mode_profile }) held
      (short ∷ hold ∷ []) short refl refl refl refl refl refl refl refl refl
