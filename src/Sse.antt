-- ===== src/Sse.antt =====
-- runtime-pi/internal/sse/sse.go: the hub that sends every broadcast to the open connections. A
-- channel is named by a number; one that was made is in `channels`. Its handler's turns and the
-- broadcasts follow each other in some order. The order in which a broadcast walks the clients makes
-- no difference, since each gets its own channel.
pub mod Sending
pub mod Clients
pub mod Feeding
pub mod Delivery
use Prim.Native.String as Text
use phb_open_ferm.Prelude.{
  ℕ, ◌+◌, String, Bool, true, false, not, Option, none, some, List, [], ◌∷◌, ◌++◌, map, eqb, ltb,
  keep, if◌then◌else◌, length,
}

-- A `chan []byte`, with the messages that its handler has written out, each as its `event_text`.
-- `closed`: close(c) was called.
pub record Channel : Type 0 where
  pub queue : List String
  pub written : List String
  pub closed : Bool

abbrev pub capacity : ℕ
capacity = 8

-- make(chan []byte, 8)
abbrev pub new_channel : Channel
new_channel = record { queue = []; written = []; closed = false }

-- What the handler writes for a message.
abbrev pub event_text : String → String
event_text msg = Text.◌++◌ "data: " (Text.◌++◌ msg "\n\n")

-- `next` is the name of the channel that is made next.
pub record Hub : Type 0 where
  pub clients : List ℕ
  pub channels : ℕ → Channel
  pub next : ℕ

abbrev pub new_hub : Hub
new_hub = record { clients = []; channels = λ c. new_channel; next = 0 }

abbrev pub assign : (ℕ → Channel) → ℕ → Channel → ℕ → Channel
assign channels c ch d = if eqb c d then ch else channels d

abbrev pub is_client : ℕ → List ℕ → Bool
is_client c [] = false
is_client c (d ∷ ds) = if eqb c d then true else is_client c ds

-- select { case c <- msg: default: }, which panics on a closed channel: `none`.
unfoldable pub send : String → Channel → Option Channel
send msg ch =
    if ch.closed
    then none
    else if ltb (length ch.queue) capacity
    then some (record ch { queue = ch.queue ++ (msg ∷ []) })
    else some ch

unfoldable pub send_all : String → List ℕ → (ℕ → Channel) → Option (ℕ → Channel)
unfolding send
send_all msg [] channels = some channels
send_all msg (c ∷ cs) channels = elim (send msg (channels c)) [
  | none ↦ none
  | some ch ↦ send_all msg cs (assign channels c ch)
]

unfoldable pub broadcast : String → Hub → Option Hub
unfolding send_all
broadcast msg h = elim (send_all msg h.clients h.channels) [
  | none ↦ none
  | some channels ↦ some (record h { channels = channels })
]

-- The start of `ServeHTTP`.
unfoldable pub connect : Hub → Hub
connect h = record {
  clients = h.next ∷ h.clients;
  channels = assign h.channels h.next new_channel;
  next = h.next + 1;
}

-- Its end: the deferred function.
unfoldable pub leave : ℕ → Hub → Hub
leave c h = record h {
  clients = keep (λ d. not (eqb c d)) h.clients;
  channels = assign h.channels c (record (h.channels c) { closed = true });
}

-- `case msg := <-c` with the write, which returns an error or not; after an error the handler ends.
-- An empty channel blocks.
unfoldable pub take_one : ℕ → Bool → List String → Hub → Hub
unfolding leave
take_one c sent [] h = h
take_one c true (msg ∷ rest) h =
    let ch = h.channels c in
    let taken : Channel = record ch { queue = rest; written = ch.written ++ (msg ∷ []) } in
    record h { channels = assign h.channels c taken }
take_one c false (msg ∷ rest) h =
    let ch = h.channels c in
    leave c (record h { channels = assign h.channels c (record ch { queue = rest }) })

-- `handles` and `ends` are turns of the handler of a channel, `ends` that of a context that is done.
pub data Turn : Type 0 where
  broadcasts : String → Turn
  connects : Turn
  handles : ℕ → Bool → Turn
  ends : ℕ → Turn

-- A handler that has ended, or has not started, has no turn. `none` is a panic.
unfoldable pub perform : Turn → Hub → Option Hub
unfolding broadcast connect take_one leave
perform (broadcasts msg) h = broadcast msg h
perform connects h = some (connect h)
perform (handles c sent) h =
    if is_client c h.clients then some (take_one c sent (h.channels c).queue h) else some h
perform (ends c) h = if is_client c h.clients then some (leave c h) else some h

unfoldable pub run : List Turn → Hub → Option Hub
unfolding perform
run [] h = some h
run (t ∷ ts) h = elim (perform t h) [ none ↦ none | some h' ↦ run ts h' ]

-- The messages of the broadcasts.
unfoldable pub messages : List Turn → List String
messages [] = []
messages (broadcasts msg ∷ ts) = msg ∷ messages ts
messages (connects ∷ ts) = messages ts
messages (handles c sent ∷ ts) = messages ts
messages (ends c ∷ ts) = messages ts
