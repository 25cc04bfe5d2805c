-- ===== src/Decimal/RoundTrip.antt =====
-- What is printed is read back.

use phb_open_ferm.Prelude.{
  ℕ, zero, suc, ◌+◌, ◌-◌, ◌*◌, ◌/◌, ◌%◌, ◌^◌, ◌≤◌, ◌<◌, String, ◌≡◌, ◌≢◌, refl, ap, ◌∙◌, true,
  false, arith, eqb, if◌then◌else◌, Bool-cases, if-cases, inl, inr,
}
use phb_open_ferm.Prelude.Int.{ℤ, pos, negsuc, ◌≤ℤ◌, int64_max, int64_min}
use phb_open_ferm.Decimal.{
  digit, emit, format_nat, format_int, ok, max_uint64, scan_digits, parse_uint, signed, parse_int,
}

-- Reading the last digit of `n` after the digits before it gives `n`.
scan_last :
    (n : ℕ) (text : String)
    → n ≤ max_uint64
    → scan_digits (String.◌∷◌ (digit n) text) (n / 10) ≡ scan_digits text n
unfolding scan_digits
scan_last n text fits =
    let whole : n / 10 * 10 + (b'0' + n % 10 - b'0') ≡ n = omega arith in rw whole (ground arith)

scan-emit :
    (fuel n : ℕ) (text : String)
    → n ≤ fuel
    → n ≤ max_uint64
    → scan_digits (emit fuel n text) 0 ≡ scan_digits text n
unfolding emit
scan-emit zero n text h fits = let none_left : n ≡ 0 = omega arith in rw none_left refl
scan-emit (suc fuel) n text h fits = elim (Bool-cases (eqb n 0)) [
  | inl done ↦ let none_left : n ≡ 0 = ground arith in rw (done, if◌then◌else◌) (rw none_left refl)
  | inr more ↦
      rw (more, if◌then◌else◌)
        (scan-emit fuel (n / 10) (String.◌∷◌ (digit n) text) (ground arith) (omega arith)
          ∙ scan_last n text fits)
]

-- The text that `emit` makes starts with a digit.
module _ (P : String → Type 0) (one : (n : ℕ) (rest : String) → P (String.◌∷◌ (digit n) rest)) where
  emit_starts : (fuel n m : ℕ) (rest : String) → P (emit fuel n (String.◌∷◌ (digit m) rest))
  unfolding emit
  emit_starts zero n m rest = one m rest
  emit_starts (suc fuel) n m rest =
      if-cases P (eqb n 0) (λ _. one m rest) (λ _. emit_starts fuel (n / 10) n _)

  emit_nonzero : (fuel n : ℕ) → n ≢ 0 → n ≤ fuel → P (emit fuel n "")
  unfolding emit
  emit_nonzero zero n nz h = absurd (nz (omega arith))
  emit_nonzero (suc fuel) n nz h =
      if-cases P (eqb n 0) (λ z. absurd (nz (ground arith))) (λ _. emit_starts fuel (n / 10) n "")

  format_nat_starts : (n : ℕ) → P (format_nat n)
  unfolding format_nat
  format_nat_starts n =
      if-cases P (eqb n 0) (λ _. one 0 "") (λ more. emit_nonzero n n (ground arith) (omega arith))

scan-format_nat : (n : ℕ) → n ≤ max_uint64 → scan_digits (format_nat n) 0 ≡ (n, ok)
unfolding format_nat scan_digits
scan-format_nat n fits =
    if-cases (λ s. scan_digits s 0 ≡ (n, ok)) (eqb n 0) (λ none_left. ground arith)
      (λ more. scan-emit n n "" (omega arith) fits)

parse_uint-format_nat : (n : ℕ) → n ≤ max_uint64 → parse_uint (format_nat n) ≡ (n, ok)
unfolding parse_uint
parse_uint-format_nat n fits =
    format_nat_starts (λ s. parse_uint s ≡ scan_digits s 0) (λ m rest. refl) n
    ∙ scan-format_nat n fits

parse_int-format_nat : (n : ℕ) → n < 2 ^ 63 → parse_int (format_nat n) ≡ (pos n, ok)
unfolding parse_int
parse_int-format_nat n fits =
    format_nat_starts (λ s. parse_int s ≡ signed false (parse_uint s)) (λ m rest. ground arith) n
    ∙ rw (parse_uint-format_nat n (omega arith)) (ground arith)

-- Every `int64` is read back from its decimal print.
pub parse_int-format_int :
    (a : ℤ) → int64_min ≤ℤ a → a ≤ℤ int64_max → parse_int (format_int a) ≡ (a, ok)
unfolding format_int parse_int
parse_int-format_int (pos n) lo hi = parse_int-format_nat n (omega arith)
parse_int-format_int (negsuc n) lo hi =
    ap (signed true) (parse_uint-format_nat (suc n) (omega arith)) ∙ ground arith

pub format_int-ne-empty : (a : ℤ) → format_int a ≢ ""
unfolding format_int
format_int-ne-empty (pos n) = format_nat_starts (λ s. s ≢ "") (λ m rest e. cc) n
format_int-ne-empty (negsuc n) = λ e. cc
