-- ===== src/Domain/Quantity/Decimal.antt =====
-- packages/core/src/domain/quantity.ts: the litres that formatLitres writes, as JavaScript's numbers
-- read them. `String(n)` and `Number(s)` are documented here for whole numbers and for decimals.
use Prim.Native.Char.{Char, code}
use Prim.Native.String.{String}
use mafuta.Base.{
  ℕ, zero, suc, ◌+◌, ◌-◌, ◌*◌, ◌/◌, ◌%◌, Option, none, some, ltb, nat_eq, if◌then◌else◌,
}
use mafuta.Base.Int.{pos}
use mafuta.Base.Ratio.{Ratio, over, neg_ratio}

unfoldable pub digit : ℕ → Char
digit d =
    if nat_eq d 0
    then "0"
    else if nat_eq d 1
    then "1"
    else if nat_eq d 2
    then "2"
    else if nat_eq d 3
    then "3"
    else if nat_eq d 4
    then "4"
    else if nat_eq d 5
    then "5"
    else if nat_eq d 6
    then "6"
    else if nat_eq d 7
    then "7"
    else if nat_eq d 8
    then "8"
    else "9"

-- The digits of `n` before `rest`; `n < fuel` is enough.
unfoldable pub digits_before : (fuel n : ℕ) → String → String
digits_before zero n rest = rest
digits_before (suc fuel) n rest =
    let shorter = digits_before fuel (n / 10) (String.◌∷◌ (digit (n % 10)) rest) in
    if ltb n 10 then String.◌∷◌ (digit n) rest else shorter

-- `String(n)` for a whole number that is not negative.
unfoldable pub decimal_text : ℕ → String
unfolding digits_before digit
decimal_text n = digits_before (suc n) n ""

unfoldable pub digit_of : Char → Option ℕ
digit_of c = if ltb (code c) 48 then none else if ltb 57 (code c) then none else some (code c - 48)

-- The digits after the point: the number without its point, and the power of ten it is divided by.
unfoldable pub read_places : (number power : ℕ) → String → Option (ℕ × ℕ)
read_places number power String.[] = some (number, power)
read_places number power (String.◌∷◌ c s) = elim (digit_of c) [
  | none ↦ none
  | some d ↦ read_places (number * 10 + d) (power * 10) s
]

unfoldable pub read_whole : (number : ℕ) → String → Option (ℕ × ℕ)
unfolding read_places digit_of
read_whole number String.[] = some (number, 1)
read_whole number (String.◌∷◌ c s) = elim (digit_of c) [
  | none ↦ if nat_eq (code c) 46 then read_places number 1 s else none
  | some d ↦ read_whole (number * 10 + d) s
]

unfoldable pub read_number : String → Option (ℕ × ℕ)
unfolding read_whole
read_number String.[] = none
read_number (String.◌∷◌ c s) = elim (digit_of c) [ none ↦ none | some d ↦ read_whole d s ]

unfoldable pub read_negative : String → Option Ratio
unfolding neg_ratio
read_negative String.[] = none
read_negative (String.◌∷◌ c s) = elim (read_number s) [
  | none ↦ none
  | some (number, power) ↦
      if nat_eq (code c) 45 then some (neg_ratio (over (pos number) power)) else none
]

-- The value of a decimal, which is digits with an optional sign before them and an optional point
-- among or behind them, and `none` for any other text.
unfoldable pub decimal_value : String → Option Ratio
unfolding read_number read_negative
decimal_value s = elim (read_number s) [
  | none ↦ read_negative s
  | some (number, power) ↦ some (over (pos number) power)
]
