-- ===== src/Prelude/Float/Fixed.antt =====
-- Fixed-point numbers with four decimals, to run the model of a computation with floats.
-- `negsuc n` is -(n + 1) ten-thousandths.
use Prim.Native.Nat.{ℕ, zero, suc, ◌+◌, ◌-◌, ◌*◌, ◌/◌}
use mathlib.Core.Path.{◌≡◌}
use mathlib.Core.Bool.{Bool, true, false}
use native.Mathlib.Omega.{arith}
use rune_mcp.Prelude.Tests.{ltb, leb, if◌then◌else◌}

pub data Fixed : Type 0 where
  pos : ℕ → Fixed
  negsuc : ℕ → Fixed

abbrev pub pos_part : Fixed → ℕ
pos_part (pos n) = n
pos_part (negsuc n) = 0

abbrev pub neg_part : Fixed → ℕ
neg_part (pos n) = 0
neg_part (negsuc n) = suc n

-- (a - b) ten-thousandths
abbrev pub difference : ℕ → ℕ → Fixed
difference a b = if leb b a then pos (a - b) else negsuc (b - a - 1)

abbrev pub negate : Fixed → Fixed
negate a = difference (neg_part a) (pos_part a)

abbrev pub plus : Fixed → Fixed → Fixed
plus a b = difference (pos_part a + pos_part b) (neg_part a + neg_part b)

abbrev pub minus : Fixed → Fixed → Fixed
minus a b = difference (pos_part a + neg_part b) (neg_part a + pos_part b)

abbrev pub times : Fixed → Fixed → Fixed
times a b =
    difference ((pos_part a * pos_part b + neg_part a * neg_part b) / 10000)
      ((pos_part a * neg_part b + neg_part a * pos_part b) / 10000)

abbrev pub over : Fixed → Fixed → Fixed
over a b =
    let d = pos_part b + neg_part b in
    difference ((pos_part a * pos_part b + neg_part a * neg_part b) * 10000 / (d * d))
      ((pos_part a * neg_part b + neg_part a * pos_part b) * 10000 / (d * d))

abbrev power_of : Fixed → ℕ → Fixed
power_of a zero = pos 10000
power_of a (suc n) = times a (power_of a n)

-- The exponent is cut to a whole number.
abbrev pub power : Fixed → Fixed → Fixed
power a b = power_of a (pos_part b / 10000)

abbrev pub rounded : Fixed → Fixed
rounded a = difference ((pos_part a + 5000) / 10000 * 10000) ((neg_part a + 5000) / 10000 * 10000)

abbrev pub less : Fixed → Fixed → Bool
less a b = ltb (pos_part a + neg_part b) (pos_part b + neg_part a)

pub less_asym : (a b : Fixed) → less a b ≡ true → less b a ≡ false
less_asym a b h = ground arith

pub less_neg_trans : (a b c : Fixed) → less b a ≡ false → less c b ≡ false → less c a ≡ false
less_neg_trans a b c h k = ground arith
