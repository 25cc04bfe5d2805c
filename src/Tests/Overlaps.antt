-- ===== src/Tests/Overlaps.antt =====
-- Rounds and requests that overlap, from a start on tables with one assignment.
use phb_open_ferm.Prelude.{◌≡◌, refl, Option, none, some, arith}
use phb_open_ferm.Prelude.Int.{ℤ, pos}
use phb_open_ferm.Prelude.Dict.{lookup}
use phb_open_ferm.Float64.Scaled.{scaled}
use phb_open_ferm.Control.{SystemState}
use phb_open_ferm.Store.{Db}
use phb_open_ferm.Store.Rows.{snapshot}
use phb_open_ferm.Store.Profiles.{get_assignment, upserted}
use phb_open_ferm.Scheduler.{Faults}
use phb_open_ferm.Scheduler.Rounds.{current}
use phb_open_ferm.Scheduler.Holds.{no_faults}
use phb_open_ferm.Scheduler.Progress.{advanced}
use phb_open_ferm.Scheduler.Consistency.{IsConsistent}
use phb_open_ferm.Api.{no_content}
use phb_open_ferm.Api.Profiles.{handle_cancel_profile}
use phb_open_ferm.Process.{start}
use phb_open_ferm.Process.Overlap.{
  Round, has_row, has_moved, Overlap, Reach, idle, begin_round, continue_round, here, later, others,
  begins_round,
}
use phb_open_ferm.Process.Overlap.Safety.{overlap_never_panics}
use phb_open_ferm.Process.Overlap.Lost.{cancel_undone}
use phb_open_ferm.Tests.{at, warm}
use phb_open_ferm.Tests.Limits.{config}
use phb_open_ferm.Tests.Profiles.{json, held, stored, guided, profile}
use phb_open_ferm.Tests.Process.{no_boot_faults, no_pin}
use phb_open_ferm.Tests.Requests.{app, fine, stored-IsConsistent}

abbrev first : Overlap ℤ
first = idle (start (at 0) no_boot_faults no_pin config stored)

abbrev in_profile : Overlap ℤ
in_profile = record first { app = record first.app { sys = guided } }

abbrev reading : Round ℤ
reading = has_row (at 5) 0 (record warm { mode = "profile" }) held

round_begins : begin_round (at 5) no_faults 0 (in_profile.app.sys, in_profile.app.db) ≡ some reading
unfolding begin_round start snapshot get_assignment lookup
round_begins = refl

abbrev midway : Overlap ℤ
midway = record in_profile { round = some reading }

overlap_never_panics_example :
    IsConsistent json midway.app.db
    × ((e : Faults) (r : Round ℤ)
        → some reading ≡ some r
        → (out : (SystemState ℤ × Db ℤ) × Option (Round ℤ)) × (continue_round json e r
              (midway.app.sys, midway.app.db)
            ≡ some out))
overlap_never_panics_example =
    overlap_never_panics (at 0) no_boot_faults no_pin config stored {w = midway} stored-IsConsistent
      (later (later here (others in_profile.app refl refl))
        (begins_round (at 5) no_faults 0 reading refl round_begins))

abbrev moved : Overlap ℤ
moved = record (idle app) { round = some (has_moved (at 5) "fv1" held profile (pos 18000)) }

cancel_undone_example :
    let (gone, answer) = handle_cancel_profile fine "fv1" app in
    (answer ≡ no_content)
    × (current "fv1" gone.db.assignments ≡ none)
    × (v : Overlap ℤ) × Reach json (record moved { app = gone }) v
    × (current "fv1" v.app.db.assignments
        ≡ some (upserted (at 5) (advanced (at 5) held (pos 18000))))
cancel_undone_example =
    cancel_undone json (at 5) "fv1" held profile (pos 18000) moved fine no_faults refl refl
      (omega arith) refl refl refl
