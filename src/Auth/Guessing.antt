-- ===== src/Auth/Guessing.antt =====
-- How many PINs an address can try.
use phb_open_ferm.Prelude.{
  ℕ, ◌+◌, ◌*◌, ◌≤◌, ◌<◌, String, ◌≡◌, ◌≢◌, refl, ◌∙◌, inl, inr, true, false, some, List, [], ◌∷◌,
  arith, eq_iff, test_self, All, Bool-cases,
}
use native.Mathlib.Decide.{ℕ_discrete}
use phb_open_ferm.Prelude.Int.{ℤ}
use phb_open_ferm.Prelude.Dict.{lookup, lookup-insert}
use phb_open_ferm.Time.{Time, shift, shift_pos, minutes, nanos}
use phb_open_ferm.Auth.{
  Manager, Answer, err_locked, err_bad_pin, unlock, is_blocked, fails_of, fail,
}

-- An attempt: when, with which PIN, for how long, and the token that it would get.
pub record Attempt : Type 0 where
  pub now : Time
  pub pin : String
  pub asked : ℤ
  pub fresh : String

abbrev bad_weight : Answer → ℕ
bad_weight err_bad_pin = 1
bad_weight _ = 0

-- The PINs of an address that were compared and found wrong.
unfoldable pub wrong_guesses : String → List Attempt → Manager → ℕ
wrong_guesses ip [] m = 0
wrong_guesses ip (a ∷ as') m =
    let r = unlock a.now a.fresh a.pin a.asked ip m in bad_weight r.1 + wrong_guesses ip as' r.0

-- An attempt with a wrong PIN within two minutes of a start.
pub record IsGuess (start : Time) (pin : String) (a : Attempt) : Type 0 where
  pub wrong : a.pin ≢ pin
  pub from : start ≤ a.now
  pub within : a.now < start + 2 * 60 * nanos

module _ (ip pin : String) (start : Time) (set : pin ≢ "") where
  -- The address is blocked for the whole of the two minutes.
  IsShutOut : Manager → Type 0
  IsShutOut m = (until : Time) × (lookup ip m.block ≡ some until) × (start + 2 * 60 * nanos ≤ until)

  shut_out_step :
      (a : Attempt) (m : Manager)
      → m.pin ≡ pin
      → IsGuess start pin a
      → IsShutOut m
      → unlock a.now a.fresh a.pin a.asked ip m ≡ (m, err_locked)
  unfolding unlock IsShutOut
  shut_out_step a m same g (until, at, late) =
      let blocked : is_blocked a.now ip m ≡ true = rw (at, is_blocked) (ground (arith, g.within)) in
      ground (arith, eq_iff m.pin "")

  shut_out_run :
      (as' : List Attempt) (m : Manager)
      → m.pin ≡ pin
      → All (IsGuess start pin) as'
      → IsShutOut m
      → wrong_guesses ip as' m ≡ 0
  unfolding wrong_guesses
  shut_out_run [] m same gs s = refl
  shut_out_run (a ∷ as') m same gs s =
      rw (shut_out_step a m same gs.0 s) (omega (arith, shut_out_run as' m same gs.1 s))

  -- A guess that is not refused at once is a failure.
  guess_step :
      (a : Attempt) (m : Manager)
      → m.pin ≡ pin
      → IsGuess start pin a
      → is_blocked a.now ip m ≡ false
      → unlock a.now a.fresh a.pin a.asked ip m ≡ (fail a.now ip m, err_bad_pin)
  unfolding unlock
  guess_step a m same g free = ground (arith, eq_iff m.pin "", eq_iff a.pin m.pin)

  blocked_step :
      (a : Attempt) (m : Manager)
      → m.pin ≡ pin
      → is_blocked a.now ip m ≡ true
      → unlock a.now a.fresh a.pin a.asked ip m ≡ (m, err_locked)
  unfolding unlock
  blocked_step a m same blocked = ground (arith, eq_iff m.pin "")

  fail_last :
      (a : Attempt) (m : Manager)
      → IsGuess start pin a
      → fails_of ip m ≡ 4
      → IsShutOut (fail a.now ip m)
  unfolding IsShutOut
  fail_last a m g four = (
    shift a.now (minutes 2),
    rw four (lookup-insert ip ip (shift a.now (minutes 2)) m.block ∙ rw (test_self ip)),
    omega (arith, g.from, shift_pos a.now (2 * 60 * nanos)),
  )

  fail_more :
      (now : Time) (m : Manager)
      → fails_of ip m ≤ 3
      → fails_of ip (fail now ip m) ≡ fails_of ip m + 1
  fail_more now m few =
      ground (arith, lookup-insert ip ip (fails_of ip m + 1) m.fails, test_self ip)

  pin-fail : (now : Time) (m : Manager) → (fail now ip m).pin ≡ m.pin
  pin-fail now m = ground arith

  -- With a PIN set and at most four earlier failures of an address, its attempts with a wrong PIN
  -- within two minutes of a start, however many and in whatever order of times: those of them that
  -- are compared with the PIN are, together with the earlier failures, at most five; the others are
  -- refused unread.
  pub guesses_bounded :
      (as' : List Attempt) (m : Manager)
      → m.pin ≡ pin
      → All (IsGuess start pin) as'
      → fails_of ip m ≤ 4
      → wrong_guesses ip as' m + fails_of ip m ≤ 5
  unfolding wrong_guesses
  guesses_bounded [] m same gs few = omega arith
  guesses_bounded (a ∷ as') m same gs few = elim (Bool-cases (is_blocked a.now ip m)) [
    | inl blocked ↦
        rw (blocked_step a m same blocked) (omega (arith, guesses_bounded as' m same gs.1 few))
    | inr free ↦ rw (guess_step a m same gs.0 free) (elim (ℕ_discrete (fails_of ip m) 4) [
      | yes four ↦ omega (
        arith,
        shut_out_run as' (fail a.now ip m) (pin-fail a.now m ∙ same) gs.1 (fail_last a m gs.0 four),
      )
      | no other ↦ omega (
        arith,
        fail_more a.now m (omega arith),
        guesses_bounded as' (fail a.now ip m) (pin-fail a.now m ∙ same) gs.1
            (omega (arith, fail_more a.now m (omega arith))),
      )
    ])
  ]
