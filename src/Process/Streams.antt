-- ===== src/Process/Streams.antt =====
-- The goroutine of runtime-pi/cmd/fermenter/main.go that broadcasts the state each second, with the
-- hub. json.Marshal is an argument, which gives no text where it fails.
use mathlib.Core.List.{Sublist}
use phb_open_ferm.Prelude.{
  ℕ, ◌≤◌, String, ◌≡◌, refl, ap, subst, Bool, some, List, [], ◌∷◌, ◌++◌, map, length,
}
use phb_open_ferm.Time.{Time}
use phb_open_ferm.Float64.{Float64}
use phb_open_ferm.Control.{SystemState}
use phb_open_ferm.Control.Export.{FermenterView, export}
use phb_open_ferm.Sse.{
  Turn, broadcasts, connects, handles, ends, Hub, new_hub, run, messages, capacity,
}
use phb_open_ferm.Sse.Delivery.{streams_in_order}

-- A second of the goroutine over a state, or a turn of a connection.
pub data StreamTurn (R : Type 0) : Type 0 where
  shows : Time → SystemState R → StreamTurn R
  joins : StreamTurn R
  writes : ℕ → Bool → StreamTurn R
  leaves : ℕ → StreamTurn R

module _ {R : Type 0} ⦃f : Float64 R⦄ (marshal : List (FermenterView R) → String) where
  -- msg, _ := json.Marshal(state.Export()); hub.Broadcast(msg)
  unfoldable pub stream_turn : StreamTurn R → Turn
  unfolding export
  stream_turn (shows now s) = broadcasts (marshal (export now s))
  stream_turn joins = connects
  stream_turn (writes c sent) = handles c sent
  stream_turn (leaves c) = ends c

  -- What the seconds show, in their order.
  unfoldable pub shown_states : List (StreamTurn R) → List String
  unfolding export
  shown_states [] = []
  shown_states (shows now s ∷ ts) = marshal (export now s) ∷ shown_states ts
  shown_states (joins ∷ ts) = shown_states ts
  shown_states (writes c sent ∷ ts) = shown_states ts
  shown_states (leaves c ∷ ts) = shown_states ts

  messages-stream_turn :
      (ts : List (StreamTurn R)) → messages (map stream_turn ts) ≡ shown_states ts
  unfolding messages stream_turn shown_states
  messages-stream_turn [] = refl
  messages-stream_turn (shows now s ∷ ts) =
      ap (◌∷◌ (marshal (export now s))) (messages-stream_turn ts)
  messages-stream_turn (joins ∷ ts) = messages-stream_turn ts
  messages-stream_turn (writes c sent ∷ ts) = messages-stream_turn ts
  messages-stream_turn (leaves c ∷ ts) = messages-stream_turn ts

  -- However seconds and connections follow each other, no broadcast panics, and what a connection has
  -- written, followed by at most 8 texts that wait, are states of the seconds, in the order of time.
  pub streams_show_states :
      (ts : List (StreamTurn R))
      → (h : Hub) × (run (map stream_turn ts) new_hub ≡ some h)
        × ((c : ℕ)
            → Sublist ((h.channels c).written ++ (h.channels c).queue) (shown_states ts)
              × (length (h.channels c).queue ≤ capacity))
  streams_show_states ts =
      let (h, ran, each) = streams_in_order (map stream_turn ts) in
      (
        h,
        ran,
        λ c. (
          subst (Sublist ((h.channels c).written ++ (h.channels c).queue)) (messages-stream_turn ts)
              (each c).0,
          (each c).1,
        ),
      )
