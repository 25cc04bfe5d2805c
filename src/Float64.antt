-- ===== src/Float64.antt =====
-- What the program does with a `float64`, as an interface: the type and its operations are not part
-- of the repository. A statement that needs a law of them takes it as a hypothesis.
pub mod Scaled
use phb_open_ferm.Prelude.{ℕ, String, Bool, ◌≡◌, true, false}
use phb_open_ferm.Prelude.Int.{ℤ, pos}
use phb_open_ferm.Time.{Duration}

pub record Float64 (R : Type 0) : Type 0 where
  -- a < b; `a > b` is `lt b a`
  pub lt : R → R → Bool
  -- a <= b
  pub le : R → R → Bool
  -- a == b
  pub eq : R → R → Bool
  pub add : R → R → R
  pub sub : R → R → R
  pub mul : R → R → R
  pub div : R → R → R
  -- math.Abs, math.Round
  pub abs : R → R
  pub round : R → R
  -- float64(n), and int64(x) and int(x)
  pub of_int : ℤ → R
  pub to_int : R → ℤ
  -- the literal n * 10 ^ (-k)
  pub decimal : ℤ → ℕ → R
  -- d.Seconds()
  pub seconds : Duration → R
  -- fmt.Sprintf with "%.kf" and with "%g", and the number that strconv.ParseFloat returns, beside an
  -- error too
  pub fixed : ℕ → R → String
  pub general : R → String
  pub parse_float : String → R
