-- ===== src/Session.antt =====
-- runtime-pi/internal/api/auth.go and the session part of `NewServer`: cookie sessions of the API. An
-- operation reads the clock once; the random session id is an argument.
pub mod Guard
pub mod Login
use text.Mathlib.Text.{starts_with}
use phb_open_ferm.Prelude.{
  ℕ, String, Bool, true, false, not, ◌&&◌, ◌||◌, Option, none, some, [], ◌==◌, if◌then◌else◌,
}
use phb_open_ferm.Prelude.Int.{ℤ, pos, ltb_ℤ, ◌*ℤ◌, wrap64}
use phb_open_ferm.Prelude.Dict.{Dict, lookup, insert, erase}
use phb_open_ferm.Time.{Time, Duration, zero_time, after, shift, minutes, unix}

-- The fields of `Server` that the sessions use.
pub record Server : Type 0 where
  pub pin : String
  pub session_ttl : Duration
  pub sessions : Dict Time

-- PHB_PIN and PHB_SESSION_MINUTES; the number of the second where strconv.Atoi reads one.
unfoldable pub new_server : String → Option ℤ → Server
unfolding ◌*ℤ◌ wrap64
new_server pin session_minutes =
    let ttl_min : ℤ = elim session_minutes [
      | none ↦ pos 10
      | some n ↦ (if ltb_ℤ (pos 0) n then n else pos 10)
    ] in
    record { pin = pin; session_ttl = wrap64 (ttl_min *ℤ minutes 1); sessions = [] }

unfoldable pub new_session : Time → String → Server → Server
new_session now id s = record s { sessions = insert id (shift now s.session_ttl) s.sessions }

-- An expired session is deleted when it is shown.
unfoldable pub valid_session : Time → String → Server → Server × Bool
valid_session now id s = if id == "" then (s, false) else elim (lookup id s.sessions) [
  | none ↦ (s, false)
  | some exp ↦
      (if after now exp then (record s { sessions = erase id s.sessions }, false) else (s, true))
]

unfoldable pub drop_session : String → Server → Server
drop_session id s = if id == "" then s else record s { sessions = erase id s.sessions }

-- A request as the guard reads it; `cookie` is that of the name "phb_session".
pub record Request : Type 0 where
  pub method : String
  pub path : String
  pub cookie : Option String

-- GET, HEAD and OPTIONS
abbrev pub is_safe : Request → Bool
is_safe r = r.method == "GET" || (r.method == "HEAD" || r.method == "OPTIONS")

-- r.Cookie(cookieName) and s.validSession(c.Value)
abbrev pub cookie_valid : Time → Request → Server → Server × Bool
cookie_valid now r s = elim r.cookie [ none ↦ (s, false) | some v ↦ valid_session now v s ]

-- `requireAuth`: whether the request is handed on; else the answer is 401.
unfoldable pub require_auth : Time → Request → Server → Server × Bool
require_auth now r s =
    if s.pin == ""
    then (s, true)
    else if is_safe r
    then (s, true)
    else if starts_with r.path "/api/auth"
    then (s, true)
    else cookie_valid now r s

pub record Status : Type 0 where
  pub enabled : Bool
  pub authorized : Bool
  pub expires_at : ℤ

-- GET /api/auth/status
unfoldable pub handle_auth_status : Time → Request → Server → Server × Status
handle_auth_status now r s =
    let closed : Status = record {
      enabled = not (s.pin == "");
      authorized = false;
      expires_at = pos 0;
    } in
    let (s', ok) = cookie_valid now r s in
    let exp : Time = elim r.cookie [
      | none ↦ zero_time
      | some v ↦ elim (lookup v s'.sessions) [ none ↦ zero_time | some t ↦ t ]
    ] in
    if s.pin == ""
    then (s, closed)
    else if ok
    then (s', record { enabled = true; authorized = true; expires_at = unix exp })
    else (s', closed)

-- What a login is answered beside its status: nothing, the text of http.Error, or a cookie with the id
-- of a session.
pub data LoginReply : Type 0 where
  no_reply : LoginReply
  says : String → LoginReply
  grants : String → LoginReply

-- POST /api/auth/login: the status code and the reply. `body` is the PIN of the decoded body, or `none`
-- if the body is no JSON.
unfoldable pub handle_auth_pin : Time → String → Option String → Server → Server × ℕ × LoginReply
handle_auth_pin now fresh body s = if s.pin == "" then (s, 204, no_reply) else elim body [
  | none ↦ (s, 400, says "bad request")
  | some pin ↦
      (if pin == ""
        then (s, 400, says "bad request")
        else if not (pin == s.pin)
        then (s, 403, says "forbidden")
        else (new_session now fresh s, 204, grants fresh))
]

-- POST /api/auth/logout
unfoldable pub handle_auth_logout : Request → Server → Server × ℕ
handle_auth_logout r s = (elim r.cookie [ none ↦ s | some v ↦ drop_session v s ], 204)
