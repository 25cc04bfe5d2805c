-- ===== src/Decimal.antt =====
-- Go's `strconv` for decimal numbers: Itoa and FormatInt, ParseInt and Atoi. All four are used with
-- base ten and 64 bits.
pub mod RoundTrip
use Prim.Native.Char.{Char, IsScalar, code}
use Prim.Native.Nat.{Ordering, compare}
use phb_open_ferm.Prelude.{
  ℕ, zero, suc, ◌+◌, ◌-◌, ◌*◌, ◌/◌, ◌%◌, ◌^◌, ◌<◌, ◌≡◌, arith, String, Bool, true, false, ◌&&◌, ltb,
  leb, eqb, if◌then◌else◌,
}
use phb_open_ferm.Prelude.Int.{ℤ, pos, negsuc, sub_ℕ, int64_max, int64_min}

compare_small : (n : ℕ) → n < 55296 → compare n 55296 ≡ Ordering.lt
compare_small n h = ground arith

pub digit-IsScalar : (n : ℕ) → IsScalar (b'0' + n % 10)
digit-IsScalar n = rw (compare_small (b'0' + n % 10) (omega arith)) tt

-- The last digit of a number.
abbrev pub digit : ℕ → Char
digit n = Char.char (b'0' + n % 10) (digit-IsScalar n)

-- The digits of a number before a text, the last one first; a number has fewer digits than it
-- counts, so the number itself is enough fuel.
unfoldable pub emit : ℕ → ℕ → String → String
emit zero n text = text
emit (suc fuel) n text =
    let more = emit fuel (n / 10) (String.◌∷◌ (digit n) text) in if eqb n 0 then text else more

unfoldable pub format_nat : ℕ → String
unfolding emit
format_nat n = if eqb n 0 then "0" else emit n n ""

unfoldable pub format_int : ℤ → String
unfolding format_nat
format_int (pos n) = format_nat n
format_int (negsuc n) = String.◌∷◌ "-" (format_nat (suc n))

pub data NumError : Type 0 where
  ok syntax range : NumError

abbrev pub max_uint64 : ℕ
max_uint64 = 2 ^ 64 - 1

-- The loop of ParseUint.
unfoldable pub scan_digits : String → ℕ → ℕ × NumError
scan_digits String.[] n = (n, ok)
scan_digits (String.◌∷◌ c rest) n =
    let next = n * 10 + (code c - b'0') in
    let more = scan_digits rest next in
    if leb b'0' (code c) && leb (code c) b'9'
    then (if ltb max_uint64 next then (max_uint64, range) else more)
    else (0, syntax)

unfoldable pub parse_uint : String → ℕ × NumError
unfolding scan_digits
parse_uint String.[] = (0, syntax)
parse_uint (String.◌∷◌ c rest) = scan_digits (String.◌∷◌ c rest) 0

abbrev pub signed : Bool → ℕ × NumError → ℤ × NumError
signed negative (n, syntax) = (pos 0, syntax)
signed true (n, range) = (int64_min, range)
signed false (n, range) = (int64_max, range)
signed true (n, ok) = if ltb (2 ^ 63) n then (int64_min, range) else (sub_ℕ 0 n, ok)
signed false (n, ok) = if ltb n (2 ^ 63) then (pos n, ok) else (int64_max, range)

-- ParseInt; Atoi returns the same. The value beside an error is 0, or the nearest end of the range.
unfoldable pub parse_int : String → ℤ × NumError
unfolding parse_uint
parse_int String.[] = (pos 0, syntax)
parse_int (String.◌∷◌ c rest) =
    if eqb (code c) b'-'
    then signed true (parse_uint rest)
    else if eqb (code c) b'+'
    then signed false (parse_uint rest)
    else signed false (parse_uint (String.◌∷◌ c rest))
