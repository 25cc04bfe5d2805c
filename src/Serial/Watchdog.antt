-- ===== src/Serial/Watchdog.antt =====
-- When the watchdog acts.
use mathlib.Core.List.{reverse, reverse-cons, append_assoc}
use phb_open_ferm.Prelude.{
  String, ◌++◌, sym, keep, Bool-cases, inl, inr, ◌≡◌, refl, ap, ◌∙◌, Bool, true, false, Option,
  none, some, List, [], ◌∷◌, map, if◌then◌else◌, if-cases, All,
}
use phb_open_ferm.Prelude.Int.{ltb_ℤ}
use phb_open_ferm.Time.{Time, since}
use phb_open_ferm.Control.{Fermenter, SystemState, valve_closed}
use phb_open_ferm.Control.Operations.{close_all}
use phb_open_ferm.Store.Events.{add_event}
use phb_open_ferm.Serial.{
  Command, set_valve, send_closed, Lines, Link, Telemetry, Occasion, line_at, ping_at, watch_at,
  happen, run, read_line, on_telemetry, telemetry_of, send_ping, watch, telemetry_limit,
}

later_line :
    (line : Command) (sent lines : List Command)
    → reverse (line ∷ lines) ++ sent ≡ reverse lines ++ (line ∷ sent)
later_line line sent lines =
    ap (λ (l : List Command). l ++ sent) (reverse-cons line lines)
    ∙ append_assoc (reverse lines) (line ∷ []) sent

module _ {R : Type 0} where
  -- An independent reading of the history: the moment of the last line that carries telemetry, or the
  -- one that was there before.
  abbrev heard : Lines R → Occasion → Time → Time
  heard lines (line_at now none) t = t
  heard lines (line_at now (some line)) t = elim (telemetry_of lines line) [
    | none ↦ t
    | some _ ↦ now
  ]
  heard lines (ping_at now) t = t
  heard lines (watch_at now accepted refused) t = t

  abbrev pub last_heard : Lines R → List Occasion → Time → Time
  last_heard lines [] t = t
  last_heard lines (o ∷ os) t = last_heard lines os (heard lines o t)

  last_telem-happen :
      (lines : Lines R) (o : Occasion) (l : Link R)
      → (happen lines o l).last_telem ≡ heard lines o l.last_telem
  unfolding happen read_line on_telemetry send_ping watch
  last_telem-happen lines (line_at now none) l = refl
  last_telem-happen lines (line_at now (some line)) l = go (telemetry_of lines line)
    where
      go :
          (o : Option (Telemetry R))
          → (elim o as (λ _. Link R) [
            | none ↦ record l { last_seen = now }
            | some t ↦ on_telemetry now t (record l { last_seen = now })
          ]).last_telem
            ≡ elim o [ none ↦ l.last_telem | some _ ↦ now ]
      go none = refl
      go (some t) = refl
  last_telem-happen lines (ping_at now) l = refl
  last_telem-happen lines (watch_at now accepted refused) l =
      if-cases (λ (r : Link R). r.last_telem ≡ l.last_telem)
        (ltb_ℤ telemetry_limit (since now l.last_telem)) (λ _. refl) (λ _. refl)

  last_telem-run :
      (lines : Lines R) (os : List Occasion) (l : Link R)
      → (run lines os l).last_telem ≡ last_heard lines os l.last_telem
  unfolding run
  last_telem-run lines [] l = refl
  last_telem-run lines (o ∷ os) l =
      last_telem-run lines os (happen lines o l)
      ∙ ap (last_heard lines os) (last_telem-happen lines o l)

  shut-closed :
      (xs : List (Fermenter R))
      → All
          (λ (x : Fermenter R). x.valve ≡ valve_closed)
          (map (λ (x : Fermenter R). record x { valve = valve_closed }) xs)
  shut-closed [] = tt
  shut-closed (x ∷ xs) = (refl, shut-closed xs)

  close_all-closed :
      (s : SystemState R) → All (λ (x : Fermenter R). x.valve ≡ valve_closed) (close_all s).fv
  unfolding close_all
  close_all-closed s = shut-closed s.fv

  abbrev pub closing : List (Fermenter R) → List Command
  closing xs = map (λ (x : Fermenter R). set_valve x.id "closed") xs

  -- The closing lines for the fermenters, the latest first, where the port takes them.
  abbrev pub closings : (String → Bool) → List (Fermenter R) → List Command
  closings accepted xs = reverse (closing (keep (λ (x : Fermenter R). accepted x.id) xs))

  send_closed_lem :
      (accepted : String → Bool) (xs : List (Fermenter R)) (sent : List Command)
      → send_closed accepted xs sent ≡ closings accepted xs ++ sent
  unfolding send_closed
  send_closed_lem accepted [] sent = refl
  send_closed_lem accepted (x ∷ xs) sent =
      let line = set_valve x.id "closed" in
      let rest = keep (λ (y : Fermenter R). accepted y.id) xs in
      elim (Bool-cases (accepted x.id)) [
        | inl e ↦
            rw (e, if◌then◌else◌)
              (send_closed_lem accepted xs (line ∷ sent)
                ∙ sym (later_line line sent (closing rest)))
        | inr e ↦ rw (e, if◌then◌else◌) (send_closed_lem accepted xs sent)
      ]

  -- After any lines and ticks: if the last telemetry is more than 30 seconds ago, a tick of the
  -- watchdog leaves every valve closed in the state, sends a closing line for each fermenter, in the
  -- order of the state and where the port takes it, and adds an event unless the statement fails; if
  -- not, it changes nothing.
  pub watch_exact :
      (lines : Lines R) (os : List Occasion) (l : Link R) (now : Time) (accepted : String → Bool)
      (refused : Bool)
      → let before = run lines os l in
        let after = watch now accepted refused before in
        let silent = ltb_ℤ telemetry_limit (since now (last_heard lines os l.last_telem)) in
        (silent ≡ true
          → All (λ (x : Fermenter R). x.valve ≡ valve_closed) after.sys.fv
            × (after.sent ≡ closings accepted before.sys.fv ++ before.sent)
            × (after.db
                ≡ add_event now refused "serial_timeout" "" "no telemetry >30s; all valves closed"
                    before.db))
        × (silent ≡ false → after ≡ before)
  unfolding watch
  watch_exact lines os l now accepted refused =
      let before = run lines os l in
      let same =
        ap (λ (t : Time). ltb_ℤ telemetry_limit (since now t)) (last_telem-run lines os l) in
      (
        λ late.
            rw (same, late, watch, if◌then◌else◌)
              (
                close_all-closed before.sys,
                send_closed_lem accepted before.sys.fv before.sent,
                refl,
              ),
        λ recent. rw (same, recent, watch, if◌then◌else◌) refl,
      )
