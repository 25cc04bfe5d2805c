-- ===== src/Tests/Access.antt =====
-- PINs and sessions at concrete states.
use phb_open_ferm.Prelude.{
  Option, true, ℕ, ◌≡◌, ◌≢◌, ◌≤◌, ◌+◌, ◌⊎◌, refl, String, none, some, List, [], ◌∷◌, ne_of_test,
  arith,
}
use phb_open_ferm.Prelude.Int.{pos}
use phb_open_ferm.Prelude.Dict.{lookup}
use phb_open_ferm.Time.{minutes}
use phb_open_ferm.Auth.{Manager, fails_of}
use phb_open_ferm.Auth.Guessing.{Attempt, wrong_guesses, guesses_bounded}
use phb_open_ferm.Time.{shift}
use phb_open_ferm.Session.{
  require_auth, no_reply, says, grants, Server, Request, new_session, handle_auth_pin,
}
use phb_open_ferm.Session.Guard.{IsProtected}
use phb_open_ferm.Session.Login.{login_exact, login_admits}
use phb_open_ferm.Tests.{at}

abbrev manager : Manager
manager = record {
  pin = "1234";
  def_ttl = minutes 10;
  sessions = ("old", at 100) ∷ [];
  block = [];
  fails = [];
}

abbrev guess : ℕ → Attempt
guess s = record { now = at s; pin = "0000"; asked = pos 0; fresh = "new" }

abbrev guesses : List Attempt
guesses = guess 0 ∷ guess 1 ∷ guess 2 ∷ []

guess_wrong : ◌≢◌ {A = String} "0000" "1234"
guess_wrong = ne_of_test "0000" "1234" refl

guesses_bounded_example : wrong_guesses "10.0.0.9" guesses manager + fails_of "10.0.0.9" manager ≤ 5
unfolding lookup
guesses_bounded_example =
    guesses_bounded "10.0.0.9" "1234" (at 0) (ne_of_test _ _ refl) guesses manager refl
      (
        record { wrong = guess_wrong; from = omega arith; within = omega arith },
        (
          record { wrong = guess_wrong; from = omega arith; within = omega arith },
          (record { wrong = guess_wrong; from = omega arith; within = omega arith }, tt),
        ),
      )
      (omega arith)

abbrev server : Server
server = record { pin = "1234"; session_ttl = minutes 10; sessions = ("abc", at 100) ∷ [] }

abbrev write_request : Request
write_request = record { method = "POST"; path = "/api/fv/fv1/mode"; cookie = some "abc" }

write_request-IsProtected : IsProtected write_request
write_request-IsProtected = record { unsafe = refl; outside = refl }

abbrev wrong_pin : Option String
wrong_pin = some "9999"

login_exact_example :
    let r = handle_auth_pin (at 0) "new" wrong_pin server in
    ((server.pin ≡ "") × (r ≡ (server, 204, no_reply)))
    ⊎ ((server.pin ≢ "")
        × (wrong_pin ≡ some server.pin)
        × (r ≡ (new_session (at 0) "new" server, 204, grants "new")))
    ⊎ ((server.pin ≢ "")
        × ((wrong_pin ≡ none) ⊎ (wrong_pin ≡ some ""))
        × (r ≡ (server, 400, says "bad request")))
    ⊎ ((server.pin ≢ "")
        × (wrong_pin ≢ none)
        × (wrong_pin ≢ some "")
        × (wrong_pin ≢ some server.pin)
        × (r ≡ (server, 403, says "forbidden")))
login_exact_example = login_exact (at 0) "new" wrong_pin server

login_admits_example :
    (require_auth
      (at 60)
      (record write_request { cookie = some "new" })
      (handle_auth_pin (at 0) "new" (some "1234") server).0).1
    ≡ true
unfolding shift
login_admits_example =
    login_admits (at 0) (at 60) "new" server (record write_request { cookie = some "new" })
      (ne_of_test _ _ refl) (ne_of_test _ _ refl) refl (ground arith)
