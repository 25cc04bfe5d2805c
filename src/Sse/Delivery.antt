-- ===== src/Sse/Delivery.antt =====
-- What reaches a connection of the hub, over all turns.
use mathlib.Core.List.{Sublist, append_assoc, nil-sublist, append-nil}
use phb_open_ferm.Prelude.{
  ℕ, ◌<◌, ◌≤◌, String, ◌≡◌, refl, sym, ap, ◌∙◌, subst, Bool, true, false, Option, some, List, [],
  ◌∷◌, ◌++◌, arith, eqb, if◌then◌else◌, if-cases, length, All,
}
use phb_open_ferm.Sse.{
  Channel, Hub, Turn, broadcasts, connects, handles, ends, new_hub, new_channel, assign, is_client,
  broadcast, connect, leave, take_one, perform, run, messages, capacity,
}
use phb_open_ferm.Sse.Sending.{IsDistinct, IsOpen, same_number, offered_closed, broadcast_exact}
use phb_open_ferm.Sse.Clients.{
  without_client, IsDistinct-without, below-without, new_missing, below_later,
}
use phb_open_ferm.Sse.Feeding.{
  IsFed, assign-IsFed, IsFed-longer, IsFed-offered, IsFed-taken, IsFed-dropped,
}

pub record IsDelivering (sent : List String) (h : Hub) : Type 0 where
  pub distinct : IsDistinct h.clients
  pub below : All (λ (c : ℕ). c < h.next) h.clients
  pub ready : IsOpen h.channels h.clients
  pub fed : (c : ℕ) → IsFed sent (h.channels c)

IsDelivering-leave :
    (sent : List String) (c : ℕ) (h : Hub) → IsDelivering sent h → IsDelivering sent (leave c h)
unfolding leave
IsDelivering-leave sent c h s = record {
  distinct = IsDistinct-without c h.clients s.distinct;
  below = below-without c h.next h.clients s.below;
  ready = λ d client.
      (let (was, other) = without_client c d h.clients client in
        rw (other, if◌then◌else◌) (s.ready d was));
  fed =
      assign-IsFed sent c (record (h.channels c) { closed = true }) h.channels
        (record { in_order = (s.fed c).in_order; bounded = (s.fed c).bounded }) s.fed;
}

IsDelivering-connect :
    (sent : List String) (h : Hub) → IsDelivering sent h → IsDelivering sent (connect h)
unfolding connect
IsDelivering-connect sent h s = record {
  distinct = (new_missing h.next h.clients s.below, s.distinct);
  below = (omega arith, below_later h.next h.clients s.below);
  ready = λ d client.
      if-cases (λ (ch : Channel). ch.closed ≡ false) (eqb h.next d) (λ _. refl)
        (λ other. s.ready d (ground (arith, other, client)));
  fed =
      assign-IsFed sent h.next new_channel h.channels
        (record { in_order = nil-sublist sent; bounded = omega arith }) s.fed;
}

IsDelivering-assign :
    (sent : List String) (c : ℕ) (ch : Channel) (h : Hub)
    → ch.closed ≡ (h.channels c).closed
    → IsFed sent ch
    → IsDelivering sent h
    → IsDelivering sent (record h { channels = assign h.channels c ch })
IsDelivering-assign sent c ch h same fed s = record {
  distinct = s.distinct;
  below = s.below;
  ready = λ d client.
      if-cases (λ (x : Channel). x.closed ≡ false) (eqb c d)
        (λ e. same ∙ rw (same_number c d e) (s.ready d client)) (λ _. s.ready d client);
  fed = assign-IsFed sent c ch h.channels fed s.fed;
}

IsDelivering-take_one :
    (sent : List String) (c : ℕ) (ok : Bool) (q : List String) (h : Hub)
    → (h.channels c).queue ≡ q
    → IsDelivering sent h
    → IsDelivering sent (take_one c ok q h)
unfolding take_one
IsDelivering-take_one sent c ok [] h e s = s
IsDelivering-take_one sent c true (msg ∷ rest) h e s =
    IsDelivering-assign sent c _ h refl (IsFed-taken sent msg rest (h.channels c) e (s.fed c)) s
IsDelivering-take_one sent c false (msg ∷ rest) h e s = IsDelivering-leave sent c _ (
    IsDelivering-assign sent c (record (h.channels c) { queue = rest }) h refl
      (IsFed-dropped sent msg rest (h.channels c) e (s.fed c)) s)

IsDelivering-broadcast :
    (sent : List String) (msg : String) (h : Hub)
    → IsDelivering sent h
    → (h' : Hub) × (broadcast msg h ≡ some h') × IsDelivering (sent ++ (msg ∷ [])) h'
IsDelivering-broadcast sent msg h s =
    let (h', ran, clients, next, here) = broadcast_exact msg h s.distinct s.ready in
    (
      h',
      ran,
      record {
        distinct = rw clients s.distinct;
        below = rw (clients, next) s.below;
        ready = λ d client.
            ap (λ (ch : Channel). ch.closed) (here d)
            ∙ if-cases (λ (ch : Channel). ch.closed ≡ false) (is_client d h.clients)
                (λ e. offered_closed msg (h.channels d) ∙ s.ready d e)
                (λ e. s.ready d (ap (is_client d) (sym clients) ∙ client));
        fed = λ d. subst (IsFed (sent ++ (msg ∷ []))) (sym (here d)) (
            if-cases (IsFed (sent ++ (msg ∷ []))) (is_client d h.clients)
              (λ _. IsFed-offered sent msg (h.channels d) (s.fed d))
              (λ _. IsFed-longer sent (msg ∷ []) (h.channels d) (s.fed d)));
      },
    )

perform-IsDelivering :
    (sent : List String) (t : Turn) (h : Hub)
    → IsDelivering sent h
    → (h' : Hub) × (perform t h ≡ some h') × IsDelivering (sent ++ messages (t ∷ [])) h'
unfolding perform messages
perform-IsDelivering sent (broadcasts msg) h s = IsDelivering-broadcast sent msg h s
perform-IsDelivering sent connects h s =
    (connect h, refl, rw (append-nil sent) (IsDelivering-connect sent h s))
perform-IsDelivering sent (handles c ok) h s =
    if-cases (λ (o : Option Hub). (h' : Hub) × (o ≡ some h') × IsDelivering (sent ++ []) h')
      (is_client c h.clients)
      (λ _. (
        take_one c ok (h.channels c).queue h,
        refl,
        rw (append-nil sent) (IsDelivering-take_one sent c ok (h.channels c).queue h refl s),
      ))
      (λ _. (h, refl, rw (append-nil sent) s))
perform-IsDelivering sent (ends c) h s =
    if-cases (λ (o : Option Hub). (h' : Hub) × (o ≡ some h') × IsDelivering (sent ++ []) h')
      (is_client c h.clients)
      (λ _. (leave c h, refl, rw (append-nil sent) (IsDelivering-leave sent c h s)))
      (λ _. (h, refl, rw (append-nil sent) s))

messages-cons : (t : Turn) (ts : List Turn) → messages (t ∷ ts) ≡ messages (t ∷ []) ++ messages ts
unfolding messages
messages-cons (broadcasts msg) ts = refl
messages-cons connects ts = refl
messages-cons (handles c ok) ts = refl
messages-cons (ends c) ts = refl

run-IsDelivering :
    (ts : List Turn) (sent : List String) (h : Hub)
    → IsDelivering sent h
    → (h' : Hub) × (run ts h ≡ some h') × IsDelivering (sent ++ messages ts) h'
unfolding run messages
run-IsDelivering [] sent h s = (h, refl, rw (append-nil sent) s)
run-IsDelivering (t ∷ ts) sent h s =
    let (h', ran, s') = perform-IsDelivering sent t h s in
    let (h'', rest, s'') = run-IsDelivering ts (sent ++ messages (t ∷ [])) h' s' in
    (
      h'',
      rw (run, ran) rest,
      rw (messages-cons t ts, ← append_assoc sent (messages (t ∷ [])) (messages ts)) s'',
    )

-- From the new hub, whatever turns of broadcasts, connections and handlers follow each other, none of
-- them sends on a closed channel, and each connection's response is made of messages that were
-- broadcast, in the order of the broadcasts, with at most 8 more that wait in the same order.
pub streams_in_order :
    (ts : List Turn)
    → (h : Hub) × (run ts new_hub ≡ some h)
      × ((c : ℕ)
          → Sublist ((h.channels c).written ++ (h.channels c).queue) (messages ts)
            × (length (h.channels c).queue ≤ capacity))
streams_in_order ts =
    let (h, ran, s) = run-IsDelivering ts [] new_hub (record {
      distinct = tt;
      below = tt;
      ready = λ d client. refl;
      fed = λ d. record { in_order = nil-sublist []; bounded = omega arith };
    }) in
    (h, ran, λ c. ((s.fed c).in_order, (s.fed c).bounded))
