-- ===== src/Float64/Scaled.antt =====
-- An instance of the interface: thousandths, as integers. It shows that the hypotheses on floats can
-- be met, and lets the definitions run in tests.
use phb_open_ferm.Prelude.{ℕ, zero, suc, eqb, String, ◌+◌, ◌*◌, ◌/◌, ◌^◌, if◌then◌else◌}
use phb_open_ferm.Prelude.Int.{
  ℤ, pos, negsuc, pos_part, neg_part, sub_ℕ, ◌+ℤ◌, ◌-ℤ◌, ltb_ℤ, leb_ℤ, eqb_ℤ,
}
use Prim.Native.Char.{code}
use Prim.Native.String.{◌++◌}
use phb_open_ferm.Float64.{Float64}

-- The quotient towards zero.
abbrev quotient : ℤ → ℕ → ℤ
quotient a n = sub_ℕ (pos_part a / n) (neg_part a / n)

abbrev product : ℤ → ℤ → ℤ
product a b =
    sub_ℕ (pos_part a * pos_part b + neg_part a * neg_part b)
      (pos_part a * neg_part b + neg_part a * pos_part b)

abbrev magnitude : ℤ → ℕ
magnitude a = pos_part a + neg_part a

abbrev signed_quotient : ℤ → ℤ → ℤ
signed_quotient a (pos n) = quotient a n
signed_quotient a (negsuc n) = quotient (sub_ℕ (neg_part a) (pos_part a)) (n + 1)

abbrev nearest : ℤ → ℤ
nearest a = sub_ℕ ((pos_part a + 500) / 1000 * 1000) ((neg_part a + 500) / 1000 * 1000)

-- Numbers are written in tallies, after the sign.
abbrev tally : ℕ → String
tally zero = String.[]
tally (suc n) = "|" ++ tally n

abbrev count_tally : String → ℕ
count_tally String.[] = 0
count_tally (String.◌∷◌ c s) = suc (count_tally s)

abbrev show : ℤ → String
show (pos n) = "+" ++ tally n
show (negsuc n) = "-" ++ tally n

abbrev read : String → ℤ
read String.[] = pos 0
read (String.◌∷◌ c s) = if eqb (code c) b'-' then negsuc (count_tally s) else pos (count_tally s)

instance unfoldable pub scaled : Float64 ℤ
unfolding ◌+ℤ◌ ◌-ℤ◌
scaled = record {
  lt = ltb_ℤ;
  le = leb_ℤ;
  eq = eqb_ℤ;
  add = ◌+ℤ◌;
  sub = ◌-ℤ◌;
  mul = λ a b. quotient (product a b) 1000;
  div = λ a b. signed_quotient (product a (pos 1000)) b;
  abs = λ a. pos (magnitude a);
  round = nearest;
  of_int = λ n. product n (pos 1000);
  to_int = λ a. quotient a 1000;
  decimal = λ n k. quotient (product n (pos 1000)) (10 ^ k);
  seconds = λ d. quotient d 1_000_000;
  fixed = λ _. show;
  general = show;
  parse_float = read;
}
