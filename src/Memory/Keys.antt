-- ===== src/Memory/Keys.antt =====
-- packages/core/src/adapters/memory/memory-store.ts: the keys of different tenants.
use Prim.Native.Char.{Char, code}
use Prim.Native.String.append
use Prim.Native.String.{String, [], ◌∷◌, ◌++◌}
use mathlib.Core.Path.{Path, sym, ◌∙◌, ap, ap₂}
use text.Mathlib.TextLemmas.{head-eq_of_cons-eq, tail-eq_of_cons-eq, append-nil}
use mafuta.Base.{◌≡◌, refl, Bool, true, false, not, ◌&&◌, nat_eq, arith, template, subst}
use mafuta.Memory.{scoped_key}

-- No character of the text is `:`.
unfoldable pub has_no_colon : String → Bool
has_no_colon [] = true
has_no_colon (c ∷ s) = not (nat_eq (code c) 58) && has_no_colon s

-- `t:rest`
abbrev pub joined : String → String → String
joined t rest = t ++ (":" ++ rest)

pub joined_empty : (s : String) → Path String (joined [] s) (":" ∷ s)
joined_empty s = append.nil _ ∙ (append.cons ":" [] s ∙ ap (λ x. ":" ∷ x) (append.nil s))

has_no_colon-cons :
    (c : Char) (t : String)
    → has_no_colon (c ∷ t) ≡ true
    → (nat_eq (code c) 58 ≡ false) × (has_no_colon t ≡ true)
unfolding has_no_colon
has_no_colon-cons c t h = ground arith

head_colon :
    (c : Char) (t s s' : String)
    → has_no_colon (c ∷ t) ≡ true
    → Path String (joined [] s) (joined (c ∷ t) s')
    → ⊥
head_colon c t s s' h e =
    let same : Path Char ":" c =
      head-eq_of_cons-eq (sym (joined_empty s) ∙ (e ∙ append.cons c t (":" ++ s'))) in
    let other : nat_eq 58 58 ≡ false =
      subst (λ d. nat_eq (code d) 58 ≡ false) (sym same) (has_no_colon-cons c t h).0 in
    cc

pub joined_injective :
    (t u s s' : String)
    → has_no_colon t ≡ true
    → has_no_colon u ≡ true
    → Path String (joined t s) (joined u s')
    → Path String t u
joined_injective [] [] s s' h k e = refl
joined_injective [] (d ∷ u) s s' h k e = absurd (head_colon d u s s' k e)
joined_injective (c ∷ t) [] s s' h k e = absurd (head_colon c t s' s h (sym e))
joined_injective (c ∷ t) (d ∷ u) s s' h k e =
    let whole = sym (append.cons c t (":" ++ s)) ∙ (e ∙ append.cons d u (":" ++ s')) in
    ap₂ (λ x y. x ∷ y) (head-eq_of_cons-eq whole)
      (joined_injective t u s s' (has_no_colon-cons c t h).1 (has_no_colon-cons d u k).1
        (tail-eq_of_cons-eq whole))

pub scoped_key-joined : (t i : String) → Path String (scoped_key t i) (joined t i)
unfolding scoped_key template
scoped_key-joined t i = ap (λ x. t ++ (":" ++ x)) (append-nil i)

-- The keys of two tenants never meet.
unfoldable pub Apart : String → String → Type 0
Apart t u = (i j : String) → scoped_key t i ≡ scoped_key u j → ⊥

-- The keys of two different tenants whose ids hold no colon are never the same, whatever the ids of
-- the entities are.
pub has_no_colon-Apart :
    (t u : String) → has_no_colon t ≡ true → has_no_colon u ≡ true → ¬ (t ≡ u) → Apart t u
unfolding Apart
has_no_colon-Apart t u h k different i j e =
    different
      (joined_injective t u i j h k (sym (scoped_key-joined t i) ∙ (e ∙ scoped_key-joined u j)))
