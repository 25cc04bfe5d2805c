-- ===== src/Store/Retry.antt =====
-- `execRetry`: a statement that finds the database busy is tried again, six times at most.
use text.Mathlib.Text.{find?}
use native.Mathlib.Nat.{pow-suc}
use phb_open_ferm.Prelude.{
  ℕ, zero, suc, ◌+◌, ◌*◌, ◌^◌, ◌≤◌, ◌<◌, String, ◌≡◌, refl, Bool, true, false, ◌||◌, Option, none,
  some, arith, if◌then◌else◌,
}

-- An error of the driver, or `none` for nil.
abbrev pub DbError : Type 0
DbError = Option String

-- strings.Contains
abbrev contains : String → String → Bool
contains s t = elim (find? s t) [ none ↦ false | some _ ↦ true ]

unfoldable pub is_busy : DbError → Bool
is_busy none = false
is_busy (some s) = contains s "SQLITE_BUSY" || contains s "database is locked"

-- The error, the attempts made, and the milliseconds slept.
pub record Tried : Type 0 where
  pub err : DbError
  pub attempts : ℕ
  pub slept : ℕ

-- The loop with the rounds left, the round, the backoff, the last error and the time slept; `exec i`
-- is what the i-th attempt returns.
unfoldable pub exec_loop : (ℕ → DbError) → ℕ → ℕ → ℕ → DbError → ℕ → Tried
exec_loop exec zero i backoff err slept = record { err = err; attempts = i; slept = slept }
exec_loop exec (suc left) i backoff err slept =
    let again = exec_loop exec left (i + 1) (backoff * 2) (exec i) (slept + backoff) in
    if is_busy (exec i) then again else record { err = exec i; attempts = i + 1; slept = slept }

unfoldable pub exec_retry : (ℕ → DbError) → Tried
unfolding exec_loop
exec_retry exec = exec_loop exec 6 0 50 none 0

-- The loop ended at round `n`, which is not busy, after naps of `backoff` and its doublings.
record EndsAt (exec : ℕ → DbError) (n j backoff slept : ℕ) (t : Tried) : Type 0 where
  err : t.err ≡ exec n
  attempts : t.attempts ≡ n + 1
  napped : t.slept + backoff ≡ slept + backoff * 2 ^ j

-- A busy attempt goes on to the next round.
exec_loop_busy :
    (exec : ℕ → DbError) (left i backoff : ℕ) (last : DbError) (slept : ℕ)
    → is_busy (exec i) ≡ true
    → exec_loop exec (suc left) i backoff last slept
      ≡ exec_loop exec left (i + 1) (backoff * 2) (exec i) (slept + backoff)
unfolding exec_loop
exec_loop_busy exec left i backoff last slept e = rw (e, if◌then◌else◌) refl

exec_loop_free :
    (exec : ℕ → DbError) (left i backoff : ℕ) (last : DbError) (slept : ℕ)
    → is_busy (exec i) ≡ false
    → exec_loop exec (suc left) i backoff last slept
      ≡ record { err = exec i; attempts = i + 1; slept = slept }
unfolding exec_loop
exec_loop_free exec left i backoff last slept e = rw (e, if◌then◌else◌) refl

double_nap : (b j : ℕ) → b * 2 ^ suc j ≡ b * 2 * 2 ^ j
double_nap b j = rw (pow-suc 2 j) (grind arith)

exec_loop_until :
    (exec : ℕ → DbError) (left i j n backoff : ℕ) (last : DbError) (slept : ℕ)
    → j < left
    → n ≡ i + j
    → ((k : ℕ) → i ≤ k → k < n → is_busy (exec k) ≡ true)
    → is_busy (exec n) ≡ false
    → EndsAt exec n j backoff slept (exec_loop exec left i backoff last slept)
exec_loop_until exec zero i j n backoff last slept h e busy free = elim h [ ]
exec_loop_until exec (suc left) i zero n backoff last slept h e busy free =
    let same : n ≡ i = omega arith in
    let now : is_busy (exec i) ≡ false = rw (← same) free in
    rw (exec_loop_free exec left i backoff last slept now, same)
      (record { err = refl; attempts = refl; napped = omega arith })
exec_loop_until exec (suc left) i (suc j) n backoff last slept h e busy free =
    let rest =
      exec_loop_until exec left (i + 1) j n (backoff * 2) (exec i) (slept + backoff) (omega arith)
        (omega arith) (λ k lo hi. busy k (omega arith) hi) free in
    let now : is_busy (exec i) ≡ true = busy i (omega arith) (omega arith) in
    rw (exec_loop_busy exec left i backoff last slept now) (record {
      err = rest.err;
      attempts = rest.attempts;
      napped = omega (arith, rest.napped, double_nap backoff j);
    })

-- If the first attempt that does not find the database busy is the one after `j` busy ones, with `j`
-- below six, `execRetry` returns what that attempt returns, makes no further one, and has slept for
-- 50 ms and its doublings, one nap for each busy attempt.
pub exec_retry_first :
    (exec : ℕ → DbError) (j : ℕ)
    → j < 6
    → ((k : ℕ) → k < j → is_busy (exec k) ≡ true)
    → is_busy (exec j) ≡ false
    → ((exec_retry exec).err ≡ exec j)
      × ((exec_retry exec).attempts ≡ j + 1)
      × ((exec_retry exec).slept + 50 ≡ 50 * 2 ^ j)
unfolding exec_retry
exec_retry_first exec j h busy free =
    let r = exec_loop_until exec 6 0 j j 50 none 0 h (omega arith) (λ k lo hi. busy k hi) free in
    (r.err, r.attempts, omega (arith, r.napped))

-- If six attempts in a row find the database busy, `execRetry` gives up with the error of the
-- sixth, after naps of 3150 ms in all.
pub exec_retry_gives_up :
    (exec : ℕ → DbError)
    → ((k : ℕ) → k < 6 → is_busy (exec k) ≡ true)
    → exec_retry exec ≡ record { err = exec 5; attempts = 6; slept = 3150 }
unfolding exec_retry exec_loop
exec_retry_gives_up exec busy = rw (
  busy 0 (omega arith),
  busy 1 (omega arith),
  busy 2 (omega arith),
  busy 3 (omega arith),
  busy 4 (omega arith),
  busy 5 (omega arith),
  if◌then◌else◌,
)
