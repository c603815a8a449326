-- ===== src/Base/Ratio.antt =====
-- The numbers of the program that need not be whole: exact fractions with a positive denominator.
-- Rounding by binary floating point is not modelled; what the program rounds itself is.
use Prim.Native.Nat.{ℕ, suc, ◌-◌, ◌*◌, ◌/◌}
use mathlib.Core.Bool.{Bool}
use mafuta.Base.Tests.{if◌then◌else◌}
use mafuta.Base.Int.{ℤ, pos, negsuc, pos_part, ◌+ℤ◌, ◌*ℤ◌, neg, abs, ltb_ℤ, leb_ℤ}

-- `num / (den_pred + 1)`
pub record Ratio : Type 0 where
  pub num : ℤ
  pub den_pred : ℕ

abbrev pub den : Ratio → ℕ
den r = suc r.den_pred

abbrev pub of_ℤ : ℤ → Ratio
of_ℤ z = record { num = z; den_pred = 0 }

abbrev pub of_ℕ : ℕ → Ratio
of_ℕ n = of_ℤ (pos n)

-- `z / d` for a positive `d`.
abbrev pub over : ℤ → ℕ → Ratio
over z d = record { num = z; den_pred = d - 1 }

abbrev pub lt_ratio : Ratio → Ratio → Bool
lt_ratio a b = ltb_ℤ (a.num *ℤ pos (den b)) (b.num *ℤ pos (den a))

abbrev pub le_ratio : Ratio → Ratio → Bool
le_ratio a b = leb_ℤ (a.num *ℤ pos (den b)) (b.num *ℤ pos (den a))

unfoldable pub add_ratio : Ratio → Ratio → Ratio
add_ratio a b = over (a.num *ℤ pos (den b) +ℤ b.num *ℤ pos (den a)) (den a * den b)

unfoldable pub neg_ratio : Ratio → Ratio
neg_ratio a = record a { num = neg a.num }

unfoldable pub sub_ratio : Ratio → Ratio → Ratio
unfolding add_ratio neg_ratio
sub_ratio a b = add_ratio a (neg_ratio b)

unfoldable pub mul_ratio : Ratio → Ratio → Ratio
mul_ratio a b = over (a.num *ℤ b.num) (den a * den b)

-- The program divides by what it has tested to be positive, or by a positive constant.
unfoldable pub div_ratio : Ratio → Ratio → Ratio
div_ratio a b = over (a.num *ℤ pos (den b)) (den a * pos_part b.num)

-- Math.min and Math.max
unfoldable pub min_ratio : Ratio → Ratio → Ratio
min_ratio a b = if le_ratio a b then a else b

unfoldable pub max_ratio : Ratio → Ratio → Ratio
max_ratio a b = if le_ratio a b then b else a

-- Math.abs
unfoldable pub abs_ratio : Ratio → Ratio
abs_ratio a = record a { num = abs a.num }

unfoldable pub floor_div : ℤ → ℕ → ℤ
floor_div (pos n) d = pos (n / d)
floor_div (negsuc n) d = negsuc (n / d)

-- Math.round: to the nearest whole number, and up from the middle.
unfoldable pub math_round : Ratio → ℤ
unfolding floor_div
math_round r = floor_div (pos 2 *ℤ r.num +ℤ pos (den r)) (2 * den r)
