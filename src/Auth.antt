-- ===== src/Auth.antt =====
-- runtime-pi/internal/auth/auth.go: unlocking by PIN, with a block after five failures from an
-- address. An operation reads the clock once; the random token is an argument.
pub mod Sessions
pub mod Guessing
use phb_open_ferm.Prelude.{
  ℕ, ◌+◌, String, Bool, true, false, Option, none, some, [], ◌==◌, not, ◌&&◌, ◌||◌, leb,
  if◌then◌else◌,
}
use phb_open_ferm.Prelude.Int.{ℤ, pos, ltb_ℤ, leb_ℤ, ◌*ℤ◌, wrap64}
use phb_open_ferm.Prelude.Dict.{Dict, lookup, insert, erase}
use phb_open_ferm.Time.{Time, Duration, zero_time, before, after, shift, minutes, hours}

pub record Manager : Type 0 where
  pub pin : String
  pub def_ttl : Duration
  pub sessions : Dict Time
  pub block : Dict Time
  pub fails : Dict ℕ

-- If pin == "" the lock is disabled (everything allowed).
unfoldable pub new_manager : String → Duration → Manager
new_manager pin def_ttl = record {
  pin = pin;
  def_ttl = if leb_ℤ def_ttl (pos 0) then minutes 10 else def_ttl;
  sessions = [];
  block = [];
  fails = [];
}

-- What the package reads of a request.
pub record Request : Type 0 where
  pub forwarded_for : String
  pub remote_addr : String
  pub session_header : String
  pub session_cookie : Option String

-- strings.Split(s, ",")[0], strings.TrimSpace, and the host of net.SplitHostPort (empty on an error).
pub record Texts : Type 0 where
  pub first_part : String → String
  pub trim_space : String → String
  pub host_of : String → String

unfoldable pub client_ip : Texts → Request → String
client_ip lib r =
    if not (r.forwarded_for == "")
    then lib.trim_space (lib.first_part r.forwarded_for)
    else (let host = lib.host_of r.remote_addr in if host == "" then r.remote_addr else host)

-- The results of `Unlock`.
pub data Answer : Type 0 where
  granted : String → Time → Answer
  err_locked err_bad_pin : Answer

-- m.fails[ip] of a map to int
abbrev pub fails_of : String → Manager → ℕ
fails_of ip m = elim (lookup ip m.fails) [ none ↦ 0 | some n ↦ n ]

-- until, ok := m.block[ip]; ok && time.Now().Before(until)
abbrev pub is_blocked : Time → String → Manager → Bool
is_blocked now ip m = elim (lookup ip m.block) [ none ↦ false | some until ↦ before now until ]

-- A request for more than two hours gets two hours.
unfoldable pub session_ttl : Duration → ℤ → Duration
unfolding ◌*ℤ◌ wrap64
session_ttl def_ttl n =
    let req = wrap64 (n *ℤ minutes 1) in
    if ltb_ℤ (pos 0) n then (if ltb_ℤ (hours 2) req then hours 2 else req) else def_ttl

-- A wrong PIN.
abbrev pub fail : Time → String → Manager → Manager
fail now ip m =
    let n = fails_of ip m + 1 in
    if leb 5 n
    then record m { block = insert ip (shift now (minutes 2)) m.block; fails = insert ip 0 m.fails }
    else record m { fails = insert ip n m.fails }

unfoldable pub unlock : Time → String → String → ℤ → String → Manager → Manager × Answer
unlock now fresh pin minutes_asked ip m =
    let exp = shift now (session_ttl m.def_ttl minutes_asked) in
    if m.pin == ""
    then (m, granted "unlocked" (shift now (hours 24)))
    else if is_blocked now ip m
    then (m, err_locked)
    else if not (pin == m.pin)
    then (fail now ip m, err_bad_pin)
    else ((
      record m { fails = insert ip 0 m.fails; sessions = insert fresh exp m.sessions },
      granted fresh exp,
    ))

unfoldable pub valid : Time → String → Manager → Bool × Time
valid now token m =
    if token == ""
    then (if m.pin == "" then (true, shift now (hours 24)) else (false, zero_time))
    else elim (lookup token m.sessions) [
      | none ↦ (false, zero_time)
      | some exp ↦ (if after now exp then (false, zero_time) else (true, exp))
    ]

unfoldable pub lock : String → Manager → Manager
lock token m = if token == "" then m else record m { sessions = erase token m.sessions }

unfoldable pub extract_token : Request → String
extract_token r =
    if not (r.session_header == "")
    then r.session_header
    else elim r.session_cookie [ none ↦ "" | some v ↦ v ]

-- The middleware: the status that it writes, or `none` if it hands the request on.
unfoldable pub require_session : Time → Request → Manager → Option ℕ
require_session now r m = if (valid now (extract_token r) m).0 then none else some 401
