-- ===== src/Auth/Sessions.antt =====
-- The life of a session of `auth.Manager`.
use phb_open_ferm.Prelude.{String, ◌≡◌, ◌≢◌, true, false, ◌==◌, not, arith, eq_iff, if◌then◌else◌}
use phb_open_ferm.Prelude.Int.{ℤ, pos, ◌≤ℤ◌, ltb_ℤ}
use phb_open_ferm.Prelude.Dict.{lookup, lookup-insert, lookup-erase}
use phb_open_ferm.Time.{Time, Duration, after, shift, hours}
use phb_open_ferm.Auth.{Manager, granted, unlock, valid, lock, session_ttl, is_blocked, new_manager}

-- A request for a positive number of minutes gets two hours at most, also where the product of
-- minutes and nanoseconds wraps.
pub session_ttl_bound :
    (def_ttl : Duration) (n : ℤ) → ltb_ℤ (pos 0) n ≡ true → session_ttl def_ttl n ≤ℤ hours 2
unfolding session_ttl
session_ttl_bound def_ttl n h = ground arith

-- With a PIN set and the address not blocked, the right PIN gets the fresh token with an end, and
-- afterwards that token is valid exactly up to this end, while any other token that is not empty is
-- valid exactly when it was.
pub unlock_grants :
    (now t : Time) (fresh pin token ip : String) (n : ℤ) (m : Manager)
    → m.pin ≢ ""
    → pin ≡ m.pin
    → is_blocked now ip m ≡ false
    → token ≢ ""
    → let r = unlock now fresh pin n ip m in
      let exp = shift now (session_ttl m.def_ttl n) in
      (r.1 ≡ granted fresh exp)
      × ((valid t token r.0).0
          ≡ (if fresh == token then not (after t exp) else (valid t token m).0))
unfolding unlock valid
unlock_grants now t fresh pin token ip n m set right free named = ground (
  arith,
  eq_iff m.pin "",
  eq_iff pin m.pin,
  eq_iff token "",
  lookup-insert fresh token (shift now (session_ttl m.def_ttl n)) m.sessions,
)

-- A locked token is invalid at all times, and the others are as before.
pub valid-lock :
    (t : Time) (token other : String) (m : Manager)
    → token ≢ ""
    → other ≢ ""
    → (valid t other (lock token m)).0 ≡ (if token == other then false else (valid t other m).0)
unfolding valid lock
valid-lock t token other m named named' =
    ground (arith, eq_iff token "", eq_iff other "", lookup-erase token other m.sessions)

-- With no PIN configured `Unlock` hands out the token "unlocked", but a fresh manager's `Valid` refuses
-- it, as it refuses every other token that is not empty.
pub no_pin_refuses :
    (now t : Time) (def_ttl : Duration) (fresh pin ip token : String) (n : ℤ)
    → token ≢ ""
    → let r = unlock now fresh pin n ip (new_manager "" def_ttl) in
      (r.1 ≡ granted "unlocked" (shift now (hours 24))) × ((valid t token r.0).0 ≡ false)
unfolding unlock valid new_manager lookup
no_pin_refuses now t def_ttl fresh pin ip token n h = ground (arith, eq_iff token "")
