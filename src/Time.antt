-- ===== src/Time.antt =====
-- What the program uses of Go's `time` package. A `time.Time` is the nanoseconds since the start of
-- year 1, which is the zero time; a `time.Duration` is an `int64` of nanoseconds.
use phb_open_ferm.Prelude.{ℕ, ◌+◌, ◌*◌, ◌/◌, ◌≤◌, ◌<◌, ◌^◌, ◌≡◌, Bool, arith, ltb, eqb}
use phb_open_ferm.Prelude.Int.{ℤ, pos, pos_part, sub_ℕ, ◌+ℤ◌, ◌*ℤ◌, saturate64, wrap64}

abbrev pub Time : Type 0
Time = ℕ

abbrev pub Duration : Type 0
Duration = ℤ

abbrev pub zero_time : Time
zero_time = 0

abbrev pub is_zero : Time → Bool
is_zero t = eqb t 0

-- a.Before(b)
abbrev pub before : Time → Time → Bool
before a b = ltb a b

-- a.After(b)
abbrev pub after : Time → Time → Bool
after a b = ltb b a

abbrev pub nanos : ℕ
nanos = 1_000_000_000

abbrev pub second : Duration
second = pos nanos

abbrev pub minutes : ℕ → Duration
minutes n = pos (n * 60 * nanos)

abbrev pub hours : ℕ → Duration
hours n = pos (n * 3600 * nanos)

-- a.Sub(b): a difference past the range of a duration gives the nearest end.
unfoldable pub since : Time → Time → Duration
unfolding saturate64
since a b = saturate64 (sub_ℕ a b)

-- t.Add(d). No time of the program lies before year 1.
unfoldable pub shift : Time → Duration → Time
unfolding ◌+ℤ◌
shift t d = pos_part (pos t +ℤ d)

-- time.Duration(n) * time.Second, a product of `int64`s.
unfoldable pub of_seconds : ℤ → Duration
unfolding ◌*ℤ◌ wrap64
of_seconds n = wrap64 (n *ℤ second)

-- Seconds from the start of year 1 to the start of 1970.
abbrev pub epoch : ℕ
epoch = 62_135_596_800

-- t.Unix()
unfoldable pub unix : Time → ℤ
unix t = sub_ℕ (t / nanos) epoch

-- time.Unix(s, 0)
unfoldable pub from_unix : ℤ → Time
unfolding ◌+ℤ◌
from_unix s = pos_part (s +ℤ pos epoch) * nanos

-- A whole second survives the way to Unix seconds and back.
pub unix-from_unix : (s : ℕ) → unix (from_unix (pos s)) ≡ pos s
unfolding unix from_unix
unix-from_unix s = ground arith

-- A time that is a whole second is recovered.
pub from_unix-unix : (t : Time) → from_unix (unix t) ≡ t / nanos * nanos
unfolding unix from_unix
from_unix-unix t = ground arith

-- `since` is exact below 292 years.
pub since_exact : (a b : Time) → a < 2 ^ 63 + b → b ≤ a → since a b ≡ sub_ℕ a b
unfolding since
since_exact a b h k = ground arith

-- A negative count of seconds aside, seconds below 292 years do not wrap.
pub of_seconds_exact : (n : ℕ) → n ≤ 9_000_000_000 → of_seconds (pos n) ≡ pos (n * nanos)
unfolding of_seconds
of_seconds_exact n h = ground arith

-- No time passes between a moment and itself.
pub since_self : (t : Time) → since t t ≡ pos 0
unfolding since
since_self t = ground arith

-- Moving on by a duration that is not negative.
pub shift_pos : (t d : ℕ) → shift t (pos d) ≡ t + d
unfolding shift
shift_pos t d = ground arith
