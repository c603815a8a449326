-- ===== src/Base/Lists.antt =====
-- Lists measured by native numbers and filtered by Boolean tests, under the library's names.
use Prim.Native.Nat.{ℕ, zero, suc, ◌+◌, ◌-◌, ◌≤◌}
use mathlib.Core.Path.{◌≡◌, refl, sym, subst}
use mathlib.Core.Bool.{Bool, true, false, ◌&&◌, ◌||◌}
use mathlib.Core.Logic.{◌⊎◌, inl, inr, ◌↔◌}
use mathlib.Core.List.{List, [], ◌∷◌, ◌++◌, reverse, reverse_aux}
use mathlib.Core.Option.{Option, none, some}
use native.Mathlib.Omega.{arith}
use mafuta.Base.Tests.{if◌then◌else◌}

module _ {ℓ} {A : Type ℓ} where
  abbrev pub length : List A → ℕ
  length [] = 0
  length (x ∷ xs) = suc (length xs)

  abbrev pub take : ℕ → List A → List A
  take zero xs = []
  take (suc n) [] = []
  take (suc n) (x ∷ xs) = x ∷ take n xs

  abbrev pub filter : (A → Bool) → List A → List A
  filter p [] = []
  filter p (x ∷ xs) = if p x then x ∷ filter p xs else filter p xs

  abbrev pub any : (A → Bool) → List A → Bool
  any p [] = false
  any p (x ∷ xs) = p x || any p xs

  abbrev pub all : (A → Bool) → List A → Bool
  all p [] = true
  all p (x ∷ xs) = p x && all p xs

  abbrev pub drop : ℕ → List A → List A
  drop zero xs = xs
  drop (suc n) [] = []
  drop (suc n) (x ∷ xs) = drop n xs

  -- `xs.slice(-n)`; `slice(-0)` is the whole list.
  unfoldable pub last_n : ℕ → List A → List A
  last_n zero xs = xs
  last_n (suc n) xs = drop (length xs - suc n) xs

  -- Array.prototype.find
  abbrev pub find : (A → Bool) → List A → Option A
  find p [] = none
  find p (x ∷ xs) = if p x then some x else find p xs

  -- `xs[xs.length - 1]`
  abbrev pub get_last? : List A → Option A
  get_last? [] = none
  get_last? (x ∷ []) = some x
  get_last? (x ∷ y ∷ xs) = get_last? (y ∷ xs)

  pub length-take-le : (n : ℕ) (xs : List A) → length (take n xs) ≤ n
  length-take-le zero xs = omega arith
  length-take-le (suc n) [] = omega arith
  length-take-le (suc n) (x ∷ xs) = omega (arith, length-take-le n xs)

  pub length-append : (xs ys : List A) → length (xs ++ ys) ≡ length xs + length ys
  length-append [] ys = omega arith
  length-append (x ∷ xs) ys = omega (arith, length-append xs ys)

-- Membership by recursion, which the tactics take apart.
abbrev pub Among : {A : Type 0} → A → List A → Type 0
Among a [] = ⊥
Among a (x ∷ xs) = (a ≡ x) ⊎ Among a xs

module _ {ℓ κ} {A : Type ℓ} (P : A → Type κ) where
  abbrev pub All : List A → Type κ
  All [] = Unit
  All (x ∷ xs) = P x × All xs

  pub All-append : (xs ys : List A) → All xs → All ys → All (xs ++ ys)
  All-append [] ys h k = k
  All-append (x ∷ xs) ys h k = (h.0, All-append xs ys h.1 k)

  pub All-take : (n : ℕ) (xs : List A) → All xs → All (take n xs)
  All-take zero xs h = tt
  All-take (suc n) [] h = tt
  All-take (suc n) (x ∷ xs) h = (h.0, All-take n xs h.1)

  All-reverse_aux : (xs ys : List A) → All xs → All ys → All (reverse_aux xs ys)
  All-reverse_aux [] ys h k = k
  All-reverse_aux (x ∷ xs) ys h k = All-reverse_aux xs (x ∷ ys) h.1 (h.0, k)

  pub All-reverse : (xs : List A) → All xs → All (reverse xs)
  All-reverse xs h = All-reverse_aux xs [] h tt

module _ {ℓ κ} {A : Type ℓ} (P Q : A → Type κ) where
  pub All-both : (xs : List A) → All P xs → All Q xs → All (λ x. P x × Q x) xs
  All-both [] h k = tt
  All-both (x ∷ xs) h k = ((h.0, k.0), All-both xs h.1 k.1)

  pub All-map : (xs : List A) → ((x : A) → P x → Q x) → All P xs → All Q xs
  All-map [] f h = tt
  All-map (x ∷ xs) f h = (f x h.0, All-map xs f h.1)

module _ {ℓ} {A : Type ℓ} (p : A → Bool) where
  -- What a filter keeps passes the test.
  pub filter-All : (xs : List A) → All (λ x. p x ≡ true) (filter p xs)
  filter-All [] = tt
  filter-All (x ∷ xs) = ground (arith, filter-All xs)

  pub All-filter {κ} : (P : A → Type κ) (xs : List A) → All P xs → All P (filter p xs)
  All-filter P [] h = tt
  All-filter P (x ∷ xs) h =
      elim (p x) as (λ b. All P (if b then x ∷ filter p xs else filter p xs)) [
        | true ↦ (h.0, All-filter P xs h.1)
        | false ↦ All-filter P xs h.1
      ]

pub Among-filter :
    {A : Type 0} (p : A → Bool) (x : A) (xs : List A)
    → Among x (filter p xs) ↔ (Among x xs × (p x ≡ true))
Among-filter p x [] = ground arith
Among-filter p x (y ∷ ys) = ground (arith, Among-filter p x ys)

pub All-Among : {A : Type 0} (P : A → Type 0) (x : A) (xs : List A) → All P xs → Among x xs → P x
All-Among P x [] h among = absurd among
All-Among P x (y ∷ ys) h (inl same) = subst P (sym same) h.0
All-Among P x (y ∷ ys) h (inr there) = All-Among P x ys h.1 there

module _ {A : Type 0} (p : A → Bool) where
  pub any-Among : (x : A) (xs : List A) → Among x xs → p x ≡ true → any p xs ≡ true
  any-Among x [] among h = absurd among
  any-Among x (y ∷ ys) (inl same) h = rw (sym same, h) refl
  any-Among x (y ∷ ys) (inr there) h = ground (arith, any-Among x ys there h)

  pub any-some : (xs : List A) → any p xs ≡ true → (x : A) × Among x xs × (p x ≡ true)
  any-some [] h = cc
  any-some (y ∷ ys) h =
      elim (p y)
          as (λ b. p y ≡ b → (b || any p ys) ≡ true → (x : A) × Among x (y ∷ ys) × (p x ≡ true)) [
            | true ↦ λ now _. (y, inl refl, now)
            | false ↦
                λ _ later. let (x, among, passes) = any-some ys later in (x, inr among, passes)
          ]
        refl h

  pub filter-nil : (xs : List A) → ((x : A) → Among x xs → p x ≡ false) → filter p xs ≡ []
  filter-nil [] h = refl
  filter-nil (y ∷ ys) h = rw (h y (inl refl), filter-nil ys (λ x among. h x (inr among))) refl
