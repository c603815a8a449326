-- ===== src/Domain/Quantity.antt =====
-- packages/core/src/domain/quantity.ts: volumes are whole millilitres, and litres stand at the
-- boundary only.
pub mod Decimal
pub mod Written
pub mod RoundTrip
use mafuta.Base.{ℕ, ◌-◌, ◌*◌, ◌/◌, String, List, [], ◌∷◌, if◌then◌else◌, ltb, template}
use mafuta.Base.Text.{text_take, pad_start}
use mafuta.Runtime.{Runtime}
use mafuta.Base.Int.{ℤ, pos, neg, pos_part, abs, ltb_ℤ, ◌+ℤ◌, leb_ℤ}
use mafuta.Base.Ratio.{
  Ratio, over, of_ℤ, of_ℕ, lt_ratio, mul_ratio, div_ratio, neg_ratio, math_round,
}

abbrev pub ml_per_litre : ℕ
ml_per_litre = 1000

unfoldable pub round_half_away_from_zero : Ratio → ℤ
unfolding math_round neg_ratio
round_half_away_from_zero value =
    if lt_ratio value (of_ℕ 0) then neg (math_round (neg_ratio value)) else math_round value

-- A fraction is finite, so the source's RangeError has no case here.
unfoldable pub litres_to_ml : Ratio → ℤ
unfolding round_half_away_from_zero mul_ratio
litres_to_ml litres = round_half_away_from_zero (mul_ratio litres (of_ℕ ml_per_litre))

unfoldable pub ml_to_litres : ℤ → Ratio
ml_to_litres millilitres = over millilitres ml_per_litre

-- With whole and non-negative `decimals`; `Math.min(3, decimals)` places.
unfoldable pub format_litres : Runtime → ℤ → ℕ → String
unfolding template text_take pad_start
format_litres rt millilitres decimals =
    let places = if ltb 3 decimals then 3 else decimals in
    let absolute = pos_part (abs millilitres) in
    let whole = absolute / ml_per_litre in
    let fraction = absolute - whole * ml_per_litre in
    let fraction_text = text_take places (pad_start 3 "0" (rt.int_text (pos fraction))) in
    let sign : String = if ltb_ℤ millilitres (pos 0) then "-" else "" in
    if ltb 0 places
    then template (sign ∷ rt.int_text (pos whole) ∷ "." ∷ fraction_text ∷ [])
    else template (sign ∷ rt.int_text (pos whole) ∷ [])

unfoldable pub litres_string : Runtime → ℤ → String
unfolding format_litres
litres_string rt millilitres = format_litres rt millilitres 3

sum_from : ℤ → List ℤ → ℤ
sum_from total [] = total
sum_from total (value ∷ rest) = sum_from (total +ℤ value) rest

unfoldable pub sum_ml : List ℤ → ℤ
unfolding sum_from
sum_ml values = sum_from (pos 0) values

unfoldable pub percent_of : ℤ → ℤ → Ratio
unfolding mul_ratio div_ratio
percent_of part total =
    if leb_ℤ total (pos 0)
    then of_ℕ 0
    else mul_ratio (div_ratio (of_ℤ part) (of_ℤ total)) (of_ℕ 100)

unfoldable pub litres_per_hour_to_ml_per_hour : Ratio → ℤ
unfolding litres_to_ml
litres_per_hour_to_ml_per_hour litres_per_hour = litres_to_ml litres_per_hour

-- To 0.01 mm.
unfoldable pub round_level_mm : Ratio → Ratio
unfolding mul_ratio math_round
round_level_mm level_mm = over (math_round (mul_ratio level_mm (of_ℕ 100))) 100
