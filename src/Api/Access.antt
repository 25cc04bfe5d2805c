-- ===== src/Api/Access.antt =====
-- Who may write, on the routes of the API.
use Prim.Native.String.{◌++◌, len, slice}
use text.Mathlib.Text.{starts_with}
use text.Mathlib.TextEquality.{starts_with_iff}
use text.Mathlib.TextLemmas.{append_assoc}
use text.Mathlib.TextPositions.{slice-append_left}
use phb_open_ferm.Prelude.{
  ◌≤◌, String, ◌≡◌, ◌≢◌, refl, sym, ap, ◌∙◌, ◌⊎◌, inl, inr, true, false, some, if◌then◌else◌, subst,
  ne_of_test, Bool-cases, arith,
}
use phb_open_ferm.Prelude.Dict.{lookup}
use phb_open_ferm.Time.{Time}
use phb_open_ferm.Float64.{Float64}
use phb_open_ferm.Session.{Server, Request, require_auth, valid_session}
use phb_open_ferm.Session.Guard.{IsProtected, guard_requires_session}
use phb_open_ferm.Api.{App}
use phb_open_ferm.Api.Routes.{
  Context, Write, writes, path_of, fv_path, request_of, unauthorized, handle_write, serve,
  post_prefs, post_target, post_profile, post_assign, post_cancel, post_pause, post_mode,
  post_valve, post_valve_clear, post_settings,
}

prefix_differs : (p q t u : String) → len p ≡ len q → p ≢ q → starts_with (p ++ t) (q ++ u) ≡ false
prefix_differs p q t u long other = elim (Bool-cases (starts_with (p ++ t) (q ++ u))) [
  | inr e ↦ e
  | inl e ↦
      (let (r, whole) = (starts_with_iff (p ++ t) (q ++ u)).0 e in
        let longer : q ++ (u ++ r) ≡ p ++ t = sym (append_assoc q u r) ∙ whole in
        absurd (
          other (
            sym (slice-append_left p t)
            ∙ ap (slice (p ++ t) 0) long
            ∙ ap (λ v. slice v 0 (len q)) (sym longer)
            ∙ slice-append_left q (u ++ r))))
]

fv_path_outside : (id rest : String) → starts_with (fv_path id rest) "/api/auth" ≡ false
fv_path_outside id rest =
    subst (λ v. starts_with v "/api/auth" ≡ false) (sym (append_assoc "/api/f" "v/" (id ++ rest)))
      (prefix_differs "/api/f" "/api/a" ("v/" ++ (id ++ rest)) "uth" refl
        (ne_of_test "/api/f" "/api/a" refl))

module _ {R : Type 0} where
  path_outside : (w : Write R) → starts_with (path_of w) "/api/auth" ≡ false
  unfolding path_of
  path_outside (post_prefs body) = refl
  path_outside (post_target id body) = fv_path_outside id "/target"
  path_outside (post_profile body) = refl
  path_outside (post_assign id body q) = fv_path_outside id "/profile/assign"
  path_outside (post_cancel id) = fv_path_outside id "/profile/cancel"
  path_outside (post_pause id q) = fv_path_outside id "/profile/pause"
  path_outside (post_mode id body) = fv_path_outside id "/mode"
  path_outside (post_valve id body) = fv_path_outside id "/valve"
  path_outside (post_valve_clear id) = fv_path_outside id "/valve/clear"
  path_outside (post_settings body) = refl

  request-IsProtected : (c : Context R) (w : Write R) → IsProtected (request_of c w)
  request-IsProtected c w = record { unsafe = refl; outside = path_outside w }

guard_keeps_pin : (now : Time) (r : Request) (s : Server) → (require_auth now r s).0.pin ≡ s.pin
unfolding require_auth valid_session
guard_keeps_pin now r s = ground arith

module _ {R : Type 0} ⦃f : Float64 R⦄ where
  serve_refused :
      (c : Context R) (w : Write R) (app : App R)
      → (require_auth c.now (request_of c w) app.server).1 ≡ false
      → serve c (writes w) app
        ≡ (record app { server = (require_auth c.now (request_of c w) app.server).0 }, unauthorized)
  unfolding serve
  serve_refused c w app e = rw (e, if◌then◌else◌) refl

  serve_passed :
      (c : Context R) (w : Write R) (app : App R)
      → require_auth c.now (request_of c w) app.server ≡ (app.server, true)
      → serve c (writes w) app ≡ handle_write c w app
  unfolding serve
  serve_passed c w app e = rw (e, if◌then◌else◌) refl

  -- The cookie is that of a session that has not run out.
  abbrev pub IsLive : Context R → Server → Type 0
  IsLive c s =
      (id : String) × (exp : Time) × (c.cookie ≡ some id)
      × (id ≢ "")
      × (lookup id s.sessions ≡ some exp)
      × (c.now ≤ exp)

  -- With a PIN set, a request to a route that writes, whichever it is and whatever it asks for, either
  -- has the cookie of a session that has not run out, and is served by the route's handler, or is
  -- answered 401 and changes nothing but the sessions.
  pub write_needs_session :
      (c : Context R) (w : Write R) (app : App R)
      → app.server.pin ≢ ""
      → (IsLive c app.server × (serve c (writes w) app ≡ handle_write c w app))
        ⊎ ((server' : Server) × (server'.pin ≡ app.server.pin)
            × (serve c (writes w) app ≡ (record app { server = server' }, unauthorized)))
  write_needs_session c w app set =
      let guard = require_auth c.now (request_of c w) app.server in
      elim (Bool-cases guard.1) [
        | inl e ↦
            (let (id, exp, at, named, found, early, kept) =
                guard_requires_session c.now (request_of c w) app.server set
                  (request-IsProtected c w) e in
              let passed : guard ≡ (app.server, true) = ground (arith, e, kept) in
              inl ((id, exp, at, named, found, early), serve_passed c w app passed))
        | inr e ↦
            inr
              (guard.0, guard_keeps_pin c.now (request_of c w) app.server, serve_refused c w app e)
      ]
