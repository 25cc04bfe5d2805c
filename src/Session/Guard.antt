-- ===== src/Session/Guard.antt =====
-- The guard in front of the routes that write.
use text.Mathlib.Text.{starts_with}
use phb_open_ferm.Prelude.{
  ◌≤◌, String, ◌≡◌, ◌≢◌, inl, inr, Bool, true, false, none, some, arith, ◌==◌, eq_iff, sym, ap, ◌∙◌,
  Option-cases, if◌then◌else◌,
}
use mathlib.Core.Bool.{false≢true}
use phb_open_ferm.Prelude.Dict.{lookup, lookup-erase}
use phb_open_ferm.Time.{Time}
use phb_open_ferm.Session.{Server, Request, require_auth, valid_session, is_safe}

-- A request that writes, outside the routes of the login.
pub record IsProtected (r : Request) : Type 0 where
  pub unsafe : is_safe r ≡ false
  pub outside : starts_with r.path "/api/auth" ≡ false

valid_session-true :
    (now : Time) (id : String) (s : Server)
    → (valid_session now id s).1 ≡ true
    → (exp : Time) × (id ≢ "")
      × (lookup id s.sessions ≡ some exp)
      × (now ≤ exp)
      × ((valid_session now id s).0 ≡ s)
unfolding valid_session
valid_session-true now id s h = elim (Option-cases (lookup id s.sessions)) [
  | inl e ↦ absurd (false≢true (sym (missing e) ∙ h))
  | inr (exp, e) ↦
      (exp, ground (arith, eq_iff id ""), e, ground (arith, eq_iff id ""), ground arith)
]
  where
    missing : lookup id s.sessions ≡ none → (valid_session now id s).1 ≡ false
    missing e = ground arith

-- With a PIN set, a protected request is handed on only with the cookie of a session that has not run
-- out, and then the sessions are as they were.
pub guard_requires_session :
    (now : Time) (r : Request) (s : Server)
    → s.pin ≢ ""
    → IsProtected r
    → (require_auth now r s).1 ≡ true
    → (id : String) × (exp : Time) × (r.cookie ≡ some id)
      × (id ≢ "")
      × (lookup id s.sessions ≡ some exp)
      × (now ≤ exp)
      × ((require_auth now r s).0 ≡ s)
unfolding require_auth
guard_requires_session now r s set p passed = elim (Option-cases r.cookie) [
  | inl e ↦ absurd (false≢true (sym (no_cookie e) ∙ passed))
  | inr (id, e) ↦
      let same = by_cookie id e in
      let (exp, named, at, early, kept) =
        valid_session-true now id s (ap (λ (q : Server × Bool). q.1) (sym same) ∙ passed) in
      (id, exp, e, named, at, early, ap (λ (q : Server × Bool). q.0) same ∙ kept)
]
  where
    no_cookie : r.cookie ≡ none → (require_auth now r s).1 ≡ false
    no_cookie e = ground (arith, eq_iff s.pin "")

    by_cookie : (id : String) → r.cookie ≡ some id → require_auth now r s ≡ valid_session now id s
    by_cookie id e = ground (arith, eq_iff s.pin "")

-- A request with the cookie of a session that has not run out is handed on, whatever its method and
-- path, and the sessions stay as they were.
pub guard_admits_session :
    (now : Time) (r : Request) (s : Server) (id : String) (exp : Time)
    → r.cookie ≡ some id
    → id ≢ ""
    → lookup id s.sessions ≡ some exp
    → now ≤ exp
    → require_auth now r s ≡ (s, true)
unfolding require_auth valid_session
guard_admits_session now r s id exp c named at fresh = ground (arith, eq_iff id "")

-- A session that has run out is gone once it has been shown, and no other session changes.
pub valid_session_purges :
    (now : Time) (id other : String) (s : Server) (exp : Time)
    → id ≢ ""
    → lookup id s.sessions ≡ some exp
    → exp ≤ now
    → exp ≢ now
    → let r = valid_session now id s in
      (r.1 ≡ false)
      × (lookup other r.0.sessions ≡ (if id == other then none else lookup other s.sessions))
unfolding valid_session
valid_session_purges now id other s exp named at late ne =
    ground (arith, eq_iff id "", lookup-erase id other s.sessions)
