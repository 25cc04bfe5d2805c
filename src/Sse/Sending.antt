-- ===== src/Sse/Sending.antt =====
-- What one broadcast does to the channels of the clients.
use phb_open_ferm.Prelude.{
  ℕ, String, ◌≡◌, refl, ◌∙◌, true, false, some, List, [], ◌∷◌, ◌++◌, arith, eqb, ltb, if◌then◌else◌,
  if-cases, length, Bool-cases, inl, inr,
}
use phb_open_ferm.Sse.{Channel, Hub, assign, is_client, send, send_all, broadcast, capacity}

abbrev pub IsDistinct : List ℕ → Type 0
IsDistinct [] = Unit
IsDistinct (c ∷ cs) = (is_client c cs ≡ false) × IsDistinct cs

abbrev pub IsOpen : (ℕ → Channel) → List ℕ → Type 0
IsOpen channels cs = (c : ℕ) → is_client c cs ≡ true → (channels c).closed ≡ false

-- A channel after a broadcast: a message for which there is no room is lost.
abbrev pub offered : String → Channel → Channel
offered msg ch =
    if ltb (length ch.queue) capacity then record ch { queue = ch.queue ++ (msg ∷ []) } else ch

abbrev pub offered_to : String → List ℕ → (ℕ → Channel) → ℕ → Channel
offered_to msg cs channels d = if is_client d cs then offered msg (channels d) else channels d

send-open : (msg : String) (ch : Channel) → ch.closed ≡ false → send msg ch ≡ some (offered msg ch)
unfolding send
send-open msg ch e = elim (Bool-cases (ltb (length ch.queue) capacity)) [
  | inl room ↦ rw (send, e, room, if◌then◌else◌) refl
  | inr full ↦ rw (send, e, full, if◌then◌else◌) refl
]

pub offered_closed : (msg : String) (ch : Channel) → (offered msg ch).closed ≡ ch.closed
offered_closed msg ch =
    if-cases (λ (o : Channel). o.closed ≡ ch.closed) (ltb (length ch.queue) capacity) (λ _. refl)
      (λ _. refl)

pub same_number : (c d : ℕ) → eqb c d ≡ true → c ≡ d
same_number c d e = ground arith

IsOpen-assign :
    (msg : String) (c : ℕ) (cs : List ℕ) (channels : ℕ → Channel)
    → IsDistinct (c ∷ cs)
    → IsOpen channels (c ∷ cs)
    → IsOpen (assign channels c (offered msg (channels c))) cs
IsOpen-assign msg c cs channels distinct ready d client = elim (Bool-cases (eqb c d)) [
  | inl e ↦
      (let twice : is_client c cs ≡ true = rw (same_number c d e) client in
        absurd (ground (arith, twice, distinct.0)))
  | inr e ↦ rw (e, if◌then◌else◌) (ready d (ground (arith, client)))
]

offered_to_step :
    (msg : String) (c : ℕ) (cs : List ℕ) (channels : ℕ → Channel) (d : ℕ)
    → IsDistinct (c ∷ cs)
    → offered_to msg cs (assign channels c (offered msg (channels c))) d
      ≡ offered_to msg (c ∷ cs) channels d
offered_to_step msg c cs channels d distinct = elim (Bool-cases (eqb c d)) [
  | inl e ↦
      (let same = same_number c d e in
        let itself : eqb d d ≡ true = ground arith in
        let once : is_client d cs ≡ false = rw (← same) distinct.0 in
        rw (e, once, same, itself, if◌then◌else◌) refl)
  | inr e ↦ (let other : eqb d c ≡ false = ground arith in rw (e, other, if◌then◌else◌) refl)
]

pub send_all_exact :
    (msg : String) (cs : List ℕ) (channels : ℕ → Channel)
    → IsDistinct cs
    → IsOpen channels cs
    → (channels' : ℕ → Channel) × (send_all msg cs channels ≡ some channels')
      × ((d : ℕ) → channels' d ≡ offered_to msg cs channels d)
unfolding send_all
send_all_exact msg [] channels distinct ready = (channels, refl, λ d. refl)
send_all_exact msg (c ∷ cs) channels distinct ready =
    let first = send-open msg (channels c) (ready c (ground arith)) in
    let moved = assign channels c (offered msg (channels c)) in
    let (channels', ran, here) =
      send_all_exact msg cs moved distinct.1 (IsOpen-assign msg c cs channels distinct ready) in
    (
      channels',
      rw (send_all, first) ran,
      λ d. here d ∙ offered_to_step msg c cs channels d distinct,
    )

-- With each open channel among the clients once, a broadcast does not panic. Each client whose channel
-- has room gets the message at its end; a full channel loses it; no other channel changes.
pub broadcast_exact :
    (msg : String) (h : Hub)
    → IsDistinct h.clients
    → IsOpen h.channels h.clients
    → (h' : Hub) × (broadcast msg h ≡ some h')
      × (h'.clients ≡ h.clients)
      × (h'.next ≡ h.next)
      × ((c : ℕ) → h'.channels c ≡ offered_to msg h.clients h.channels c)
unfolding broadcast
broadcast_exact msg h distinct ready =
    let (channels, ran, here) = send_all_exact msg h.clients h.channels distinct ready in
    (record h { channels = channels }, rw (broadcast, ran) refl, refl, refl, here)
