-- ===== src/Api/Auth/Header.antt =====
-- packages/api/src/auth.ts: the secret in the header of a request.
pub mod Stripped
use Prim.Native.Char.{Char, code}
use Prim.Native.String
use mafuta.Base.{
  ℕ, zero, suc, ◌-◌, ◌+◌, String, Option, none, some, Bool, true, false, ◌&&◌, ◌||◌, ◌==◌,
  if◌then◌else◌, nat_eq, leb,
}
use mafuta.Base.Text.{text_length, text_take, text_drop, has_prefix}

-- `\s`, and what `trim` takes away.
abbrev pub is_space : Char → Bool
is_space c =
    (leb 9 (code c) && leb (code c) 13)
    || nat_eq (code c) 32
    || nat_eq (code c) 160
    || nat_eq (code c) 5760
    || (leb 8192 (code c) && leb (code c) 8202)
    || nat_eq (code c) 8232
    || nat_eq (code c) 8233
    || nat_eq (code c) 8239
    || nat_eq (code c) 8287
    || nat_eq (code c) 12288
    || nat_eq (code c) 65279

unfoldable pub trim_start : String → String
trim_start String.[] = ""
trim_start (String.◌∷◌ c s) = let rest = trim_start s in if is_space c then rest else String.◌∷◌ c s

unfoldable pub trim_end : String → String
trim_end String.[] = ""
trim_end (String.◌∷◌ c s) =
    let rest = trim_end s in if is_space c && rest == "" then "" else String.◌∷◌ c rest

unfoldable pub trim : String → String
unfolding trim_start trim_end
trim s = trim_end (trim_start s)

-- `c` is the letter with this code or its capital.
abbrev pub is_letter : ℕ → Char → Bool
is_letter letter c = nat_eq (code c) letter || nat_eq (code c + 32) letter

-- The text behind `Bearer` in any case.
abbrev pub after_letter : ℕ → String → Option String
after_letter letter String.[] = none
after_letter letter (String.◌∷◌ c s) = if is_letter letter c then some s else none

infixl 5 ◌>>=◌
abbrev pub ◌>>=◌ : Option String → (String → Option String) → Option String
none >>= f = none
some s >>= f = f s

unfoldable pub after_bearer : String → Option String
after_bearer s = do
  b ← after_letter b'b' s
  be ← after_letter b'e' b
  bea ← after_letter b'a' be
  bear ← after_letter b'r' bea
  beare ← after_letter b'e' bear
  after_letter b'r' beare

-- The text behind the white space at the start, if there is some.
abbrev pub after_spaces : String → Option String
after_spaces String.[] = none
after_spaces (String.◌∷◌ c s) = if is_space c then some (trim_start s) else none

-- The text behind `/^Bearer\s+/i`.
unfoldable pub after_prefix : String → Option String
unfolding after_bearer trim_start
after_prefix s = after_bearer s >>= after_spaces

-- `.` matches no end of a line.
abbrev is_line_end : Char → Bool
is_line_end c =
    nat_eq (code c) 10 || nat_eq (code c) 13 || nat_eq (code c) 8232 || nat_eq (code c) 8233

unfoldable pub has_line_end : String → Bool
has_line_end String.[] = false
has_line_end (String.◌∷◌ c s) = is_line_end c || has_line_end s

-- `(.+)$` on a text that is trimmed at its end.
abbrev rest_of_line : String → Option String
rest_of_line s = if s == "" || has_line_end s then none else some (trim s)

unfoldable pub extract_secret : String → Option String
unfolding trim text_drop has_prefix after_prefix has_line_end
extract_secret header =
    let trimmed = trim header in
    if has_prefix trimmed "Bearer "
    then some (trim (text_drop 7 trimmed))
    else after_prefix trimmed >>= rest_of_line

-- The loop that strips a prefix that is there again; each round takes a character away.
unfoldable pub strip_prefixes : ℕ → String → String
unfolding after_prefix trim
strip_prefixes zero current = current
strip_prefixes (suc fuel) current = elim (after_prefix current) [
  | none ↦ current
  | some rest ↦ strip_prefixes fuel (trim rest)
]

-- The last character as a text.
abbrev last_text : String → String
last_text s = text_drop (text_length s - 1) s

-- The text starts and ends with this quote.
abbrev is_quoted_by : String → String → Bool
is_quoted_by quote s = text_take 1 s == quote && last_text s == quote

-- `s.slice(1, -1)`
abbrev inner : String → String
inner s = text_take (text_length s - 2) (text_drop 1 s)

unfoldable pub strip_duplicated_bearer_prefix : String → String
unfolding strip_prefixes trim text_take text_drop text_length
strip_duplicated_bearer_prefix secret =
    let trimmed = trim secret in
    let current = strip_prefixes (text_length trimmed) trimmed in
    if is_quoted_by "\"" current || is_quoted_by "'" current then trim (inner current) else current
