-- ===== src/Domain/Quantity/Written.antt =====
-- packages/core/src/domain/quantity.ts: what the text of `litresString` shows.
use Prim.Native.String.append
use Prim.Native.String.{◌++◌}
use mathlib.Core.Path.{ap₂}
use text.Mathlib.TextLemmas.{append-nil}
use mafuta.Base.{
  ℕ, zero, suc, ◌+◌, ◌*◌, ◌-◌, ◌/◌, ◌%◌, ◌<◌, Option, some, none, Bool, true, false, ltb, nat_eq,
  ◌==◌, ◌&&◌, eq_iff, String, ◌≡◌, refl, sym, ◌∙◌, ap, arith, if◌then◌else◌, Bool-cases, subst, inl,
  inr, template, [], ◌∷◌,
}
use mafuta.Base.Int.{ℤ, pos, negsuc, ltb_ℤ}
use mafuta.Base.Ratio.{over, neg_ratio}
use mafuta.Base.Text.{text_take, pad_start}
use mafuta.Runtime.{Runtime}
use mafuta.Domain.Quantity.{litres_string, format_litres, ml_to_litres}
use mafuta.Domain.Quantity.Decimal.{
  digit, digits_before, decimal_text, digit_of, read_places, read_whole, read_number, read_negative,
  decimal_value,
}

all_below : ℕ → (ℕ → Bool) → Bool
all_below zero test = true
all_below (suc n) test = test n && all_below n test

all_below_lem : (k n : ℕ) (test : ℕ → Bool) → all_below k test ≡ true → n < k → test n ≡ true
unfolding all_below
all_below_lem zero n test h lt = absurd (omega arith)
all_below_lem (suc k) n test h lt = ground (arith, all_below_lem k n test)

holds : Option ℕ → ℕ → Bool
holds none d = false
holds (some e) d = nat_eq e d

holds_lem : (found : Option ℕ) (d : ℕ) → holds found d ≡ true → found ≡ some d
unfolding holds
holds_lem none d h = cc
holds_lem (some e) d h = ground arith

digit_of-digit : (d : ℕ) → d < 10 → digit_of (digit d) ≡ some d
unfolding all_below holds digit_of digit
digit_of-digit d h =
    holds_lem (digit_of (digit d)) d (all_below_lem 10 d (λ d. holds (digit_of (digit d)) d) refl h)

read_number-digit :
    (d : ℕ) (s : String) → d < 10 → read_number (String.◌∷◌ (digit d) s) ≡ read_whole d s
unfolding read_number
read_number-digit d s h = rw (digit_of-digit d h, read_number) refl

read_whole-digit :
    (n d : ℕ) (s : String)
    → d < 10
    → read_whole n (String.◌∷◌ (digit d) s) ≡ read_whole (n * 10 + d) s
unfolding read_whole
read_whole-digit n d s h = rw (digit_of-digit d h, read_whole) refl

read_places-digit :
    (n p d : ℕ) (s : String)
    → d < 10
    → read_places n p (String.◌∷◌ (digit d) s) ≡ read_places (n * 10 + d) (p * 10) s
unfolding read_places
read_places-digit n p d s h = rw (digit_of-digit d h, read_places) refl

-- Reading the digits of `n` gives `n`.
read_number-digits_before :
    (fuel n : ℕ) (rest : String)
    → n < fuel
    → read_number (digits_before fuel n rest) ≡ read_whole n rest
unfolding digits_before
read_number-digits_before zero n rest h = absurd (omega arith)
read_number-digits_before (suc fuel) n rest h = elim (Bool-cases (ltb n 10)) [
  | inl one ↦ rw (one, digits_before) (read_number-digit n rest (ground arith))
  | inr more ↦
      let shorter : n / 10 < fuel = ground arith in
      let same : n / 10 * 10 + n % 10 ≡ n = omega arith in
      rw (more, digits_before)
        (read_number-digits_before fuel (n / 10) _ shorter
          ∙ (read_whole-digit (n / 10) (n % 10) rest (omega arith)
              ∙ ap (λ m. read_whole m rest) same))
]

append-digits_before :
    (fuel n : ℕ) (rest s : String)
    → digits_before fuel n rest ++ s ≡ digits_before fuel n (rest ++ s)
unfolding digits_before
append-digits_before zero n rest s = refl
append-digits_before (suc fuel) n rest s = elim (Bool-cases (ltb n 10)) [
  | inl one ↦ rw one (append.cons _ rest s)
  | inr more ↦ rw more (
      append-digits_before fuel (n / 10) _ s
      ∙ ap (digits_before fuel (n / 10)) (append.cons _ rest s))
]

-- The three places of a fraction of a litre.
three_places : ℕ → String
three_places f =
    String.◌∷◌ (digit (f / 100)) (String.◌∷◌ (digit (f / 10 % 10)) (String.◌∷◌ (digit (f % 10)) ""))

three_places_lem :
    (f : ℕ) → f < 1000 → text_take 3 (pad_start 3 "0" (decimal_text f)) ≡ three_places f
unfolding all_below three_places pad_start text_take decimal_text
three_places_lem f h = (eq_iff _ _).0 (
    all_below_lem 1000 f (λ f. text_take 3 (pad_start 3 "0" (decimal_text f)) == three_places f)
      refl h)

read_places_lem :
    (whole f : ℕ) → f < 1000 → read_places whole 1 (three_places f) ≡ some (whole * 1000 + f, 1000)
unfolding read_places three_places
read_places_lem whole f h =
    let same : ((whole * 10 + f / 100) * 10 + f / 10 % 10) * 10 + f % 10 ≡ whole * 1000 + f =
      omega arith in
    read_places-digit whole 1 (f / 100)
      (String.◌∷◌ (digit (f / 10 % 10)) (String.◌∷◌ (digit (f % 10)) "")) (omega arith)
    ∙ (read_places-digit (whole * 10 + f / 100) 10 (f / 10 % 10) (String.◌∷◌ (digit (f % 10)) "")
          (omega arith)
        ∙ (read_places-digit _ 100 (f % 10) "" (omega arith) ∙ ap (λ m. some (m, 1000)) same))

-- The text of the places after a point.
joined_places : (s f : String) → s ++ ("." ++ (f ++ "")) ≡ s ++ String.◌∷◌ "." f
joined_places s f =
    ap (λ x. s ++ x)
      (append.cons "." "" (f ++ "")
        ∙ ap (λ x. String.◌∷◌ "." x) (append.nil (f ++ "") ∙ append-nil f))

read_number-point :
    (whole f : ℕ)
    → f < 1000
    → read_number (decimal_text whole ++ String.◌∷◌ "." (three_places f))
      ≡ some (whole * 1000 + f, 1000)
unfolding decimal_text read_whole
read_number-point whole f h =
    let places = String.◌∷◌ "." (three_places f) in
    ap read_number (
      append-digits_before (suc whole) whole "" places
      ∙ ap (digits_before (suc whole) whole) (append.nil places))
    ∙ (read_number-digits_before (suc whole) whole places (omega arith) ∙ read_places_lem whole f h)

module _ (rt : Runtime) (shows : (n : ℕ) → rt.int_text (pos n) ≡ decimal_text n) where
  -- The text of a volume that is not negative.
  unsigned_litres : ℕ → String
  unfolding template text_take pad_start
  unsigned_litres n = template (
      rt.int_text (pos (n / 1000))
      ∷ "."
      ∷ text_take 3 (pad_start 3 "0" (rt.int_text (pos (n - n / 1000 * 1000))))
      ∷ [])

  unsigned_litres_lem : (n : ℕ) → read_number (unsigned_litres n) ≡ some (n, 1000)
  unfolding unsigned_litres template
  unsigned_litres_lem n =
      let f = n - n / 1000 * 1000 in
      let same : n / 1000 * 1000 + f ≡ n = omega arith in
      let places =
        ap (λ s. text_take 3 (pad_start 3 "0" s)) (shows f) ∙ three_places_lem f (omega arith) in
      let text =
        ap₂ (λ s p. s ++ ("." ++ (p ++ ""))) (shows (n / 1000)) places
        ∙ joined_places (decimal_text (n / 1000)) (three_places f) in
      ap read_number text
      ∙ (read_number-point (n / 1000) f (omega arith) ∙ ap (λ m. some (m, 1000)) same)

  read_negative-minus :
      (s : String) (n : ℕ)
      → read_number s ≡ some (n, 1000)
      → decimal_value ("-" ++ s) ≡ some (neg_ratio (over (pos n) 1000))
  unfolding decimal_value read_number digit_of read_negative
  read_negative-minus s n h =
      ap decimal_value (append.cons "-" "" s ∙ ap (λ x. String.◌∷◌ "-" x) (append.nil s))
      ∙ rw (h, read_negative) refl

  -- What `litresString` writes shows the volume in litres.
  pub decimal_value-litres_string :
      (z : ℤ) → decimal_value (litres_string rt z) ≡ some (ml_to_litres z)
  unfolding litres_string ml_to_litres format_litres unsigned_litres template decimal_value
      neg_ratio
  decimal_value-litres_string (pos n) =
      let not_below : ltb_ℤ (pos n) (pos 0) ≡ false = ground arith in
      subst
        (λ b.
          decimal_value ((if b then "-" else "") ++ unsigned_litres n) ≡ some (over (pos n) 1000))
        (sym not_below)
        (ap decimal_value (append.nil (unsigned_litres n))
          ∙ rw (unsigned_litres_lem n, decimal_value) refl)
  decimal_value-litres_string (negsuc n) =
      let below : ltb_ℤ (negsuc n) (pos 0) ≡ true = ground arith in
      let same : neg_ratio (over (pos (suc n)) 1000) ≡ over (negsuc n) 1000 = ground arith in
      subst
        (λ b.
          decimal_value ((if b then "-" else "") ++ unsigned_litres (suc n))
          ≡ some (over (negsuc n) 1000))
        (sym below)
        (read_negative-minus (unsigned_litres (suc n)) (suc n) (unsigned_litres_lem (suc n))
          ∙ ap (λ r. some r) same)
