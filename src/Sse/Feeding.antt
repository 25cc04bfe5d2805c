-- ===== src/Sse/Feeding.antt =====
-- What a channel holds of the messages that were broadcast.
use mathlib.Core.List.{Sublist, append_assoc, sublist-append_left}
use mathlib.Core.List.Sublist as Sublists
use phb_open_ferm.Prelude.{
  ℕ, ◌≤◌, String, ◌≡◌, sym, subst, List, [], ◌∷◌, ◌++◌, arith, eqb, ltb, if-cases, length,
  length-append,
}
use phb_open_ferm.Sse.{Channel, assign, capacity}
use phb_open_ferm.Sse.Sending.{offered}

-- What was written and what waits are among the messages, in their order, and no more waits than the
-- channel holds.
pub record IsFed (sent : List String) (ch : Channel) : Type 0 where
  pub in_order : Sublist (ch.written ++ ch.queue) sent
  pub bounded : length ch.queue ≤ capacity

pub assign-IsFed :
    (sent : List String) (c : ℕ) (ch : Channel) (channels : ℕ → Channel)
    → IsFed sent ch
    → ((d : ℕ) → IsFed sent (channels d))
    → (d : ℕ) → IsFed sent (assign channels c ch d)
assign-IsFed sent c ch channels new old d = if-cases (IsFed sent) (eqb c d) (λ _. new) (λ _. old d)

-- More messages.
pub IsFed-longer :
    (sent more : List String) (ch : Channel) → IsFed sent ch → IsFed (sent ++ more) ch
IsFed-longer sent more ch h = record {
  in_order = Sublists.trans h.in_order (sublist-append_left sent more);
  bounded = h.bounded;
}

pub IsFed-offered :
    (sent : List String) (msg : String) (ch : Channel)
    → IsFed sent ch
    → IsFed (sent ++ (msg ∷ [])) (offered msg ch)
IsFed-offered sent msg ch h =
    if-cases (IsFed (sent ++ (msg ∷ []))) (ltb (length ch.queue) capacity)
      (λ room. record {
        in_order =
            subst (λ l. Sublist l (sent ++ (msg ∷ [])))
              (append_assoc ch.written ch.queue (msg ∷ []))
              (Sublists.append h.in_order (Sublists.refl (msg ∷ [])));
        bounded = ground (arith, length-append ch.queue (msg ∷ []));
      })
      (λ _. IsFed-longer sent (msg ∷ []) ch h)

-- A channel with one message less.
pub IsFed-taken :
    (sent : List String) (msg : String) (rest : List String) (ch : Channel)
    → ch.queue ≡ msg ∷ rest
    → IsFed sent ch
    → IsFed sent (record ch { queue = rest; written = ch.written ++ (msg ∷ []) })
IsFed-taken sent msg rest ch e h =
    let whole : Sublist (ch.written ++ (msg ∷ rest)) sent =
      subst (λ l. Sublist (ch.written ++ l) sent) e h.in_order in
    let long : length (msg ∷ rest) ≤ capacity =
      subst (λ (l : List String). length l ≤ capacity) e h.bounded in
    record {
      in_order = subst (λ l. Sublist l sent) (sym (append_assoc ch.written (msg ∷ []) rest)) whole;
      bounded = omega (arith, long);
    }

pub IsFed-dropped :
    (sent : List String) (msg : String) (rest : List String) (ch : Channel)
    → ch.queue ≡ msg ∷ rest
    → IsFed sent ch
    → IsFed sent (record ch { queue = rest })
IsFed-dropped sent msg rest ch e h =
    let taken = IsFed-taken sent msg rest ch e h in
    record {
      in_order =
          Sublists.trans
            (Sublists.append (sublist-append_left ch.written (msg ∷ [])) (Sublists.refl rest))
            taken.in_order;
      bounded = taken.bounded;
    }
