-- ===== src/Base/Text.antt =====
-- Texts by their characters. A length and a position count code points, which are JavaScript's
-- units but beyond the basic plane.
use Prim.Native.Nat.{ℕ, zero, suc, ◌-◌}
use Prim.Native.String
use Prim.Native.String.{String}
use mathlib.Core.Bool.{Bool, ◌||◌}
use text.Mathlib.Text.{◌==◌}

unfoldable pub text_length : String → ℕ
text_length String.[] = 0
text_length (String.◌∷◌ c s) = suc (text_length s)

-- `s + t`, by the characters of `s`.
unfoldable pub append : String → String → String
append String.[] t = t
append (String.◌∷◌ c s) t = String.◌∷◌ c (append s t)

-- `s.slice(0, n)`
unfoldable pub text_take : ℕ → String → String
text_take zero s = ""
text_take (suc n) String.[] = ""
text_take (suc n) (String.◌∷◌ c s) = String.◌∷◌ c (text_take n s)

-- `s.slice(n)`
unfoldable pub text_drop : ℕ → String → String
text_drop zero s = s
text_drop (suc n) String.[] = ""
text_drop (suc n) (String.◌∷◌ c s) = text_drop n s

unfoldable pub text_repeat : ℕ → String → String
text_repeat zero s = ""
text_repeat (suc n) s = String.◌++◌ s (text_repeat n s)

-- `s.padStart(n, fill)` for a fill of one character.
unfoldable pub pad_start : ℕ → String → String → String
unfolding text_repeat text_length
pad_start n fill s = String.◌++◌ (text_repeat (n - text_length s) fill) s

-- `s.startsWith(t)`
unfoldable pub has_prefix : String → String → Bool
unfolding text_take text_length
has_prefix s t = text_take (text_length t) s == t

-- `s.includes(t)`
unfoldable pub includes : String → String → Bool
unfolding has_prefix
includes String.[] t = "" == t
includes (String.◌∷◌ c s) t = has_prefix (String.◌∷◌ c s) t || includes s t
