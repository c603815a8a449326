-- ===== src/Services/Ledger/Fresh.antt =====
-- packages/core/src/types/ids.ts: the ids that are drawn for readings, and the keys under which readings
-- with such ids are stored.
use Prim.Native.Char.{Char, code}
use Prim.Native.String.append
use Prim.Native.String.{[], ◌∷◌, ◌++◌}
use mathlib.Core.Path.{Path}
use text.Mathlib.TextLemmas.{append-nil, append_cancel_left, tail-eq_of_cons-eq}
use mafuta.Base.{ℕ, String, true, false, ◌≡◌, refl, sym, ◌∙◌, ap, template, arith, nat_eq, not}
use mafuta.Runtime.{Runtime}
use mafuta.Memory.{scoped_key}
use mafuta.Memory.Keys.{has_no_colon, joined, joined_empty, scoped_key-joined}
use mafuta.Services.Writes.Puts.{reading_id}

has_no_colon-append :
    (s t : String) → has_no_colon s ≡ true → has_no_colon t ≡ true → has_no_colon (s ++ t) ≡ true
unfolding has_no_colon
has_no_colon-append [] t h k = ap has_no_colon (append.nil t) ∙ k
has_no_colon-append (c ∷ s) t h k =
    let (here, there) : (not (nat_eq (code c) 58) ≡ true) × (has_no_colon s ≡ true) =
      ground (arith, h) in
    ap has_no_colon (append.cons c s t) ∙ rw (here, has_no_colon-append s t there k) refl

-- A text with a colon in it has one.
joined-has_colon : (t s : String) → has_no_colon (joined t s) ≡ false
unfolding has_no_colon
joined-has_colon [] s = ap has_no_colon (joined_empty s)
joined-has_colon (c ∷ t) s =
    ap has_no_colon (append.cons c t (":" ++ s)) ∙ rw (joined-has_colon t s) (ground arith)

no_colon_behind :
    (c : Char) (u s r : String)
    → has_no_colon s ≡ true
    → Path String (joined [] s) (joined (c ∷ u) r)
    → ⊥
no_colon_behind c u s r h e =
    let rest = tail-eq_of_cons-eq (sym (joined_empty s) ∙ (e ∙ append.cons c u (":" ++ r))) in
    let colon = ap has_no_colon rest ∙ joined-has_colon u r in cc (rw h at colon)

-- What stands behind the last colon is the same.
last_part :
    (t u s r : String)
    → has_no_colon s ≡ true
    → has_no_colon r ≡ true
    → Path String (joined t s) (joined u r)
    → Path String s r
last_part [] [] s r h k e = append_cancel_left ":" s r (append_cancel_left [] _ _ e)
last_part [] (c ∷ u) s r h k e = absurd (no_colon_behind c u s r h e)
last_part (c ∷ t) [] s r h k e = absurd (no_colon_behind c t r s k (sym e))
last_part (c ∷ t) (d ∷ u) s r h k e =
    last_part t u s r h k
      (tail-eq_of_cons-eq (sym (append.cons c t (":" ++ s)) ∙ (e ∙ append.cons d u (":" ++ r))))

-- The random identifiers hold no colon and are never the same.
module _ (rt : Runtime) (distinct : (m n : ℕ) → rt.uuid m ≡ rt.uuid n → m ≡ n)
    (no_colon : (n : ℕ) → has_no_colon (rt.uuid n) ≡ true) where
  has_no_colon-reading_id : (n : ℕ) → has_no_colon (reading_id rt n) ≡ true
  unfolding template has_no_colon
  has_no_colon-reading_id n = has_no_colon-append "rdg" ("-" ++ (rt.uuid n ++ "")) refl (
      has_no_colon-append "-" (rt.uuid n ++ "") refl
        (has_no_colon-append (rt.uuid n) "" (no_colon n) refl))

  reading_id-injective : (m n : ℕ) → reading_id rt m ≡ reading_id rt n → m ≡ n
  unfolding template
  reading_id-injective m n e =
      let rest = append_cancel_left "-" _ _ (append_cancel_left "rdg" _ _ e) in
      distinct m n (sym (append-nil (rt.uuid m)) ∙ (rest ∙ append-nil (rt.uuid n)))

  -- The keys of two readings with drawn ids are the same only for the same draw.
  pub same_draw :
      (t u : String) (m n : ℕ)
      → scoped_key t (reading_id rt m) ≡ scoped_key u (reading_id rt n)
      → m ≡ n
  same_draw t u m n e = reading_id-injective m n (
      last_part t u (reading_id rt m) (reading_id rt n) (has_no_colon-reading_id m)
        (has_no_colon-reading_id n)
        (sym (scoped_key-joined t (reading_id rt m)) ∙ (e ∙ scoped_key-joined u (reading_id rt n))))
