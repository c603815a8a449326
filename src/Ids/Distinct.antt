-- ===== src/Ids/Distinct.antt =====
-- packages/core/src/types/ids.ts: the tenants that pass the check have keys of their own.
use Prim.Native.Char.{Char, code}
use mafuta.Base.{
  String, true, false, ◌&&◌, ◌==◌, ◌≡◌, refl, nat_eq, Bool-cases, inl, inr, arith, eq_iff, subst,
  sym,
}
use mafuta.Effect.{ok}
use mafuta.Ids.{
  is_letter_or_digit, is_inner, ends_well, is_identifier, assert_identifier, to_tenant_id,
}
use mafuta.Memory.Keys.{Apart, has_no_colon, has_no_colon-Apart}

is_inner-colon : (c : Char) → is_inner c ≡ true → nat_eq (code c) 58 ≡ false
is_inner-colon c inner = ground arith

ends_well-colon : (s : String) → ends_well s ≡ true → has_no_colon s ≡ true
unfolding ends_well has_no_colon
ends_well-colon String.[] well = cc
ends_well-colon (String.◌∷◌ c s) well = elim (Bool-cases (s == "")) [
  | inl last ↦
      let alone : is_letter_or_digit c ≡ true = rw last at well in
      let colon = is_inner-colon c (rw alone refl) in
      let nothing : has_no_colon s ≡ true =
        subst (λ t. has_no_colon t ≡ true) (sym ((eq_iff s "").0 last)) refl in
      rw (colon, nothing) refl
  | inr more ↦
      let both : (is_inner c && ends_well s) ≡ true = rw more at well in
      let here : is_inner c ≡ true = ground (arith, both) in
      let later : ends_well s ≡ true = ground (arith, both) in
      let colon = is_inner-colon c here in
      let rest = ends_well-colon s later in rw (colon, rest) refl
]

pub is_identifier-colon : (s : String) → is_identifier s ≡ true → has_no_colon s ≡ true
unfolding is_identifier has_no_colon
is_identifier-colon String.[] good = refl
is_identifier-colon (String.◌∷◌ c s) good = elim (Bool-cases (s == "")) [
  | inl last ↦
      let alone : is_letter_or_digit c ≡ true = ground (arith, good) in
      let colon = is_inner-colon c (rw alone refl) in
      let nothing : has_no_colon s ≡ true =
        subst (λ t. has_no_colon t ≡ true) (sym ((eq_iff s "").0 last)) refl in
      rw (colon, nothing) refl
  | inr more ↦
      let alone : is_letter_or_digit c ≡ true = ground (arith, good) in
      let later : ends_well s ≡ true = ground (arith, good, more) in
      let colon = is_inner-colon c (rw alone refl) in
      let rest = ends_well-colon s later in rw (colon, rest) refl
]

to_tenant_id-ok :
    (value t : String) → to_tenant_id value ≡ ok t → (t ≡ value) × (is_identifier value ≡ true)
unfolding to_tenant_id assert_identifier
to_tenant_id-ok value t e = elim (Bool-cases (is_identifier value)) [
  | inl good ↦ (cc (rw (good, assert_identifier) at e), good)
  | inr bad ↦ cc (rw (bad, assert_identifier) at e)
]

-- The keys of two different tenants whose ids were checked as identifiers are never the same,
-- whatever the ids of the entities are.
pub to_tenant_id-Apart :
    (value value' t u : String)
    → to_tenant_id value ≡ ok t
    → to_tenant_id value' ≡ ok u
    → ¬ (t ≡ u)
    → Apart t u
to_tenant_id-Apart value value' t u first second different =
    let (same, good) = to_tenant_id-ok value t first in
    let (same', good') = to_tenant_id-ok value' u second in
    has_no_colon-Apart t u
      (subst (λ x. has_no_colon x ≡ true) (sym same) (is_identifier-colon value good))
      (subst (λ x. has_no_colon x ≡ true) (sym same') (is_identifier-colon value' good')) different
