-- ===== src/Session/Login.antt =====
-- Login and logout.
use mathlib.Core.Option.{some-injective}
use phb_open_ferm.Prelude.{
  refl, inl, inr, ◌==◌, if_true, if_false, Bool-cases, ne_of_test, eq_of_test, ◌≤◌, String, ◌≡◌,
  ◌≢◌, ◌⊎◌, Bool, true, false, Option, none, some, arith, eq_iff, ap, test_self, ◌∙◌,
}
use phb_open_ferm.Prelude.Dict.{lookup-insert, lookup-erase}
use phb_open_ferm.Time.{Time, shift}
use phb_open_ferm.Session.{
  Server, Request, no_reply, says, grants, require_auth, valid_session, handle_auth_pin,
  handle_auth_logout, drop_session, new_session,
}
use phb_open_ferm.Session.Guard.{IsProtected, guard_admits_session}

-- With no PIN configured, a login is answered 204 with nothing. With one, a login whose body holds it
-- makes the new session and is answered 204 with its cookie, one whose body is no JSON or holds no PIN
-- is answered 400, and one with another PIN 403, and these change nothing.
pub login_exact :
    (now : Time) (fresh : String) (body : Option String) (s : Server)
    → let r = handle_auth_pin now fresh body s in
      ((s.pin ≡ "") × (r ≡ (s, 204, no_reply)))
      ⊎ ((s.pin ≢ "") × (body ≡ some s.pin) × (r ≡ (new_session now fresh s, 204, grants fresh)))
      ⊎ ((s.pin ≢ "") × ((body ≡ none) ⊎ (body ≡ some "")) × (r ≡ (s, 400, says "bad request")))
      ⊎ ((s.pin ≢ "")
          × (body ≢ none)
          × (body ≢ some "")
          × (body ≢ some s.pin)
          × (r ≡ (s, 403, says "forbidden")))
unfolding handle_auth_pin
login_exact now fresh body s = elim (Bool-cases (s.pin == "")) [
  | inl e ↦ inl (eq_of_test s.pin "" e, if_true (s.pin == "") _ e)
  | inr e ↦ inr (login_set body e)
]
  where
    login_set :
        (o : Option String)
        → (s.pin == "") ≡ false
        → let r = handle_auth_pin now fresh o s in
          ((s.pin ≢ "") × (o ≡ some s.pin) × (r ≡ (new_session now fresh s, 204, grants fresh)))
          ⊎ ((s.pin ≢ "") × ((o ≡ none) ⊎ (o ≡ some "")) × (r ≡ (s, 400, says "bad request")))
          ⊎ ((s.pin ≢ "")
              × (o ≢ none)
              × (o ≢ some "")
              × (o ≢ some s.pin)
              × (r ≡ (s, 403, says "forbidden")))
    login_set none e = inr (inl (ne_of_test s.pin "" e, inl refl, if_false (s.pin == "") _ e))
    login_set (some pin) e = elim (Bool-cases (pin == "")) [
      | inl blank ↦ inr (
          inl (
            ne_of_test s.pin "" e,
            inr (ap some (eq_of_test pin "" blank)),
            if_false (s.pin == "") _ e ∙ if_true (pin == "") _ blank,
          ))
      | inr typed ↦ elim (Bool-cases (pin == s.pin)) [
        | inl right ↦ inl (
          ne_of_test s.pin "" e,
          ap some (eq_of_test pin s.pin right),
          if_false (s.pin == "") _ e ∙ if_false (pin == "") _ typed ∙ rw (right) refl,
        )
        | inr wrong ↦ inr (
            inr (
              ne_of_test s.pin "" e,
              λ same. cc,
              λ same. ne_of_test pin "" typed (some-injective _ _ same),
              λ same. ne_of_test pin s.pin wrong (some-injective _ _ same),
              if_false (s.pin == "") _ e ∙ if_false (pin == "") _ typed ∙ rw (wrong) refl,
            ))
      ]
    ]

-- With a PIN configured, the cookie of a login with it passes the guard until the session's time is
-- over.
pub login_admits :
    (now later : Time) (fresh : String) (s : Server) (r : Request)
    → s.pin ≢ ""
    → fresh ≢ ""
    → r.cookie ≡ some fresh
    → later ≤ shift now s.session_ttl
    → (require_auth later r (handle_auth_pin now fresh (some s.pin) s).0).1 ≡ true
unfolding handle_auth_pin new_session
login_admits now later fresh s r set named c early =
    let made : (handle_auth_pin now fresh (some s.pin) s).0 ≡ new_session now fresh s =
      ground (arith, eq_iff s.pin "", test_self s.pin) in
    rw made (
      ap (λ (q : Server × Bool). q.1)
        (guard_admits_session later r (new_session now fresh s) fresh (shift now s.session_ttl) c
          named (lookup-insert fresh fresh _ s.sessions ∙ rw (test_self fresh)) early))

-- With a PIN configured, the cookie of a session that was logged out does not pass the guard on a
-- protected request.
pub logout_refuses :
    (later : Time) (id : String) (s : Server) (out r : Request)
    → s.pin ≢ ""
    → out.cookie ≡ some id
    → r.cookie ≡ some id
    → IsProtected r
    → (require_auth later r (handle_auth_logout out s).0).1 ≡ false
unfolding handle_auth_logout require_auth valid_session drop_session
logout_refuses later id s out r set oc rc p =
    ground (arith, eq_iff id "", eq_iff s.pin "", lookup-erase id id s.sessions, test_self id)
