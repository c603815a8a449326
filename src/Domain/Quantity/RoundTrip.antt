-- ===== src/Domain/Quantity/RoundTrip.antt =====
-- packages/core/src/domain/quantity.ts: the two conversions one after the other.
use mafuta.Base.{arith, ◌≡◌}
use mafuta.Base.Int.{ℤ, pos, negsuc, ◌*ℤ◌, ◌+ℤ◌}
use mafuta.Base.Ratio.{math_round, mul_ratio, neg_ratio, floor_div}
use mafuta.Domain.Quantity.{litres_to_ml, ml_to_litres, round_half_away_from_zero}

-- A volume in whole millilitres that is turned into litres and back is the same.
pub litres_to_ml-ml_to_litres : (z : ℤ) → litres_to_ml (ml_to_litres z) ≡ z
unfolding litres_to_ml ml_to_litres math_round floor_div ◌*ℤ◌ ◌+ℤ◌ mul_ratio neg_ratio
    round_half_away_from_zero
litres_to_ml-ml_to_litres (pos n) = ground arith
litres_to_ml-ml_to_litres (negsuc n) = ground arith
