-- ===== src/Base/Sort.antt =====
-- Array.prototype.sort: stable, by a test that is true where the comparator is positive.
use mathlib.Core.Bool.{Bool, true, false}
use mathlib.Core.List.{List, [], ◌∷◌}
use mafuta.Base.Tests.{if◌then◌else◌}
use mathlib.Core.Logic.{◌↔◌}
use native.Mathlib.Omega.{arith}
use mafuta.Base.Lists.{All, Among}

module _ {A : Type 0} (after : A → A → Bool) where
  unfoldable pub insert_sorted : A → List A → List A
  insert_sorted x [] = x ∷ []
  insert_sorted x (y ∷ ys) = if after x y then y ∷ insert_sorted x ys else x ∷ y ∷ ys

  unfoldable pub sort : List A → List A
  unfolding insert_sorted
  sort [] = []
  sort (x ∷ xs) = insert_sorted x (sort xs)

  module _ (P : A → Type 0) where
    insert_sorted-All : (x : A) (ys : List A) → P x → All P ys → All P (insert_sorted x ys)
    unfolding insert_sorted
    insert_sorted-All x [] p h = (p, tt)
    insert_sorted-All x (y ∷ ys) p h =
        elim (after x y) as (λ b. All P (if b then y ∷ insert_sorted x ys else x ∷ y ∷ ys)) [
          | true ↦ (h.0, insert_sorted-All x ys p h.1)
          | false ↦ (p, h)
        ]

    pub sort-All : (xs : List A) → All P xs → All P (sort xs)
    unfolding sort
    sort-All [] h = tt
    sort-All (x ∷ xs) h = insert_sorted-All x (sort xs) h.0 (sort-All xs h.1)

    All-insert_sorted : (x : A) (ys : List A) → All P (insert_sorted x ys) → P x × All P ys
    unfolding insert_sorted
    All-insert_sorted x [] h = h
    All-insert_sorted x (y ∷ ys) h =
        (elim (after x y)
            as (λ b.
              All P (if b then y ∷ insert_sorted x ys else x ∷ y ∷ ys) → P x × All P (y ∷ ys)) [
                | true ↦ λ k. let (p, rest) = All-insert_sorted x ys k.1 in (p, (k.0, rest))
                | false ↦ λ k. k
              ])
          h

    -- Sorting drops nothing.
    pub All-sort : (xs : List A) → All P (sort xs) → All P xs
    unfolding sort
    All-sort [] h = tt
    All-sort (x ∷ xs) h = let (p, rest) = All-insert_sorted x (sort xs) h in (p, All-sort xs rest)

  Among-insert_sorted : (a x : A) (ys : List A) → Among a (insert_sorted x ys) ↔ Among a (x ∷ ys)
  unfolding insert_sorted
  Among-insert_sorted a x [] = ground arith
  Among-insert_sorted a x (y ∷ ys) = ground (arith, Among-insert_sorted a x ys)

  -- Sorting keeps the elements.
  pub Among-sort : (a : A) (xs : List A) → Among a (sort xs) ↔ Among a xs
  unfolding sort
  Among-sort a [] = ground arith
  Among-sort a (x ∷ xs) = ground (arith, Among-insert_sorted a x (sort xs), Among-sort a xs)
