-- ===== src/Api/Auth/Header/Stripped.antt =====
-- packages/api/src/auth.ts: the loop that strips a repeated prefix comes to its end.
use mafuta.Base.{
  ℕ, zero, suc, ◌≤◌, ◌<◌, String, Option, none, some, ◌&&◌, ◌==◌, ◌≡◌, arith, Bool-cases,
  Option-cases, inl, inr,
}
use mafuta.Base.Text.{text_length}
use mafuta.Api.Auth.Header.{
  is_space, trim_start, trim_end, trim, after_letter, after_bearer, after_spaces, after_prefix,
  strip_prefixes, ◌>>=◌,
}

length-trim_start : (s : String) → text_length (trim_start s) ≤ text_length s
unfolding text_length trim_start
length-trim_start String.[] = omega arith
length-trim_start (String.◌∷◌ c s) = ground (arith, length-trim_start s)

length-trim_end : (s : String) → text_length (trim_end s) ≤ text_length s
unfolding text_length trim_end
length-trim_end String.[] = omega arith
length-trim_end (String.◌∷◌ c s) =
    let rest = length-trim_end s in
    elim (Bool-cases (is_space c && trim_end s == "")) [
      | inl blank ↦ rw blank (omega arith)
      | inr kept ↦ rw kept (omega (arith, rest))
    ]

length-trim : (s : String) → text_length (trim s) ≤ text_length s
unfolding trim
length-trim s = omega (arith, length-trim_start s, length-trim_end (trim_start s))

length-after_letter :
    (letter : ℕ) (s rest : String)
    → after_letter letter s ≡ some rest
    → text_length rest < text_length s
unfolding text_length
length-after_letter letter String.[] rest e = cc
length-after_letter letter (String.◌∷◌ c s) rest e = ground (arith, e)

length-after_spaces :
    (s rest : String) → after_spaces s ≡ some rest → text_length rest < text_length s
unfolding text_length
length-after_spaces String.[] rest e = cc
length-after_spaces (String.◌∷◌ c s) rest e = ground (arith, e, length-trim_start s)

abbrev Shrinks : (String → Option String) → Type 0
Shrinks f = (s : String) (rest : String) → f s ≡ some rest → text_length rest < text_length s

Shrinks-bind : (f g : String → Option String) → Shrinks f → Shrinks g → Shrinks (λ s. f s >>= g)
Shrinks-bind f g hf hg s rest e = elim (Option-cases (f s)) [
  | inl stopped ↦ cc (rw stopped at e)
  | inr (middle, first) ↦ omega (arith, hf s middle first, hg middle rest (rw first at e))
]

length-after_bearer : Shrinks after_bearer
unfolding after_bearer
length-after_bearer = Shrinks-bind (after_letter b'b') _ (length-after_letter b'b') (
    Shrinks-bind (after_letter b'e') _ (length-after_letter b'e') (
      Shrinks-bind (after_letter b'a') _ (length-after_letter b'a') (
        Shrinks-bind (after_letter b'r') _ (length-after_letter b'r') (
          Shrinks-bind (after_letter b'e') _ (length-after_letter b'e')
            (length-after_letter b'r')))))

length-after_prefix : Shrinks after_prefix
unfolding after_prefix
length-after_prefix = Shrinks-bind after_bearer after_spaces length-after_bearer length-after_spaces

after_prefix-fuel :
    (fuel : ℕ) (s : String) → text_length s ≤ fuel → after_prefix (strip_prefixes fuel s) ≡ none
unfolding strip_prefixes
after_prefix-fuel zero s enough = elim (Option-cases (after_prefix s)) [
  | inl done ↦ done
  | inr (rest, more) ↦ absurd (omega (arith, length-after_prefix s rest more))
]
after_prefix-fuel (suc fuel) s enough = elim (Option-cases (after_prefix s)) [
  | inl done ↦ rw (done, strip_prefixes) done
  | inr (rest, more) ↦
      rw (more, strip_prefixes)
        (after_prefix-fuel fuel (trim rest)
          (omega (arith, length-after_prefix s rest more, length-trim rest)))
]

-- The loop that strips a repeated prefix off a secret ends within as many rounds as the secret has
-- characters, at a text that has no such prefix.
pub after_prefix-strip_prefixes :
    (s : String) → after_prefix (strip_prefixes (text_length s) s) ≡ none
after_prefix-strip_prefixes s = after_prefix-fuel (text_length s) s (omega arith)
