-- ===== src/Prelude/Float.antt =====
-- `float64`, as the program uses it: an interface, with the laws of the comparisons that its
-- theorems need. Its values are the floats that are no NaN, and its zero has one sign.
pub mod Fixed
use Prim.Native.Nat.{ℕ, ◌*◌, ◌/◌, ◌^◌}
use mathlib.Core.Path.{◌≡◌, refl}
use mathlib.Core.Bool.{Bool, true, false, not}
use native.Mathlib.Omega.{arith}
use rune_mcp.Prelude.Int.{ℤ, pos, minus_ℕ}
use rune_mcp.Prelude.Text.{Text, decimal}
use rune_mcp.Prelude.Tests.{◌==◌, if◌then◌else◌}

pub record Float : Type 1 where
  pub F : Type 0
  pub lit : ℕ → ℕ → F  -- `lit n k` is the literal n / 10^k, also `float64(n)` with k = 0
  pub neg : F → F
  pub add : F → F → F
  pub sub : F → F → F
  pub mul : F → F → F
  pub div : F → F → F
  pub pow : F → F → F  -- math.Pow
  pub round : F → F  -- math.Round
  pub trunc : F → ℤ  -- int(x)
  pub format_1 : F → Text  -- Sprintf("%.1f", x)
  pub lt : F → F → Bool  -- a < b
  pub asym : (a b : F) → lt a b ≡ true → lt b a ≡ false
  pub neg_trans : (a b c : F) → lt b a ≡ false → lt c b ≡ false → lt c a ≡ false
  pub zero_lt_one : lt (lit 0 0) (lit 1 0) ≡ true
  pub minus_one_lt_zero : lt (neg (lit 1 0)) (lit 0 0) ≡ true

module _ ⦃fl : Float⦄ where
  abbrev pub flt : fl.F → fl.F → Bool
  flt a b = fl.lt a b

  -- a > b
  abbrev pub fgt : fl.F → fl.F → Bool
  fgt a b = fl.lt b a

  -- a >= b
  abbrev pub fge : fl.F → fl.F → Bool
  fge a b = not (fl.lt a b)

  -- math.Max
  abbrev pub fmax : fl.F → fl.F → fl.F
  fmax a b = if fl.lt a b then b else a

  -- math.Min
  abbrev pub fmin : fl.F → fl.F → fl.F
  fmin a b = if fl.lt b a then b else a

  abbrev pub fzero : fl.F
  fzero = fl.lit 0 0

  abbrev pub fone : fl.F
  fone = fl.lit 1 0

module _ ⦃fl : Float⦄ where
  pub flt_irrefl : (a : fl.F) → fl.lt a a ≡ false
  flt_irrefl a = ground (arith, fl.asym a a)

abbrev cut : ℕ → ℕ → ℤ
cut p n = if n == 0 then pos p else minus_ℕ n

-- The fixed-point numbers are such an interface.
abbrev pub fixed : Float
fixed = record {
  F = Fixed.Fixed;
  lit = λ n k. Fixed.Fixed.pos (n * 10000 / 10 ^ k);
  neg = Fixed.negate;
  add = Fixed.plus;
  sub = Fixed.minus;
  mul = Fixed.times;
  div = Fixed.over;
  pow = Fixed.power;
  round = Fixed.rounded;
  format_1 = λ a. decimal (Fixed.pos_part a / 10000);
  trunc = λ a. cut (Fixed.pos_part a / 10000) (Fixed.neg_part a / 10000);
  lt = Fixed.less;
  asym = Fixed.less_asym;
  neg_trans = Fixed.less_neg_trans;
  zero_lt_one = refl;
  minus_one_lt_zero = refl;
}
