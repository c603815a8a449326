-- ===== src/Runtime.antt =====
-- What the program takes from the JavaScript runtime: the clock, random identifiers, hashing, dates,
-- numbers as text and the transcendental functions. `Date` values are milliseconds since 1970.
use mafuta.Base.{ℕ, String, Option, Bool}
use mafuta.Base.Int.{ℤ}
use mafuta.Base.Ratio.{Ratio}

pub record Runtime : Type 0 where
  -- The result of the n-th reading of the clock.
  pub clock : ℕ → ℤ
  -- The n-th result of `randomUUID()`.
  pub uuid : ℕ → String
  -- `Date.parse(s)`, with `none` for NaN.
  pub date_parse : String → Option ℤ
  -- `new Date(t).toISOString()`
  pub to_iso : ℤ → String
  -- `createHash('sha256').update(s).digest('hex').slice(0, 48)`
  pub sha256_48 : String → String
  -- `String(t)` for a whole number, `${x}` for any number, and `x.toFixed(n)`.
  pub int_text : ℤ → String
  pub number_text : Ratio → String
  pub to_fixed : Ratio → ℕ → String
  -- `JSON.stringify(s)` for a text.
  pub json_text : String → String
  -- `a.localeCompare(b) > 0`
  pub locale_after : String → String → Bool
  -- `a < b` on strings
  pub string_before : String → String → Bool
  -- `Math.PI`, `Math.acos`, `Math.sqrt`
  pub pi : Ratio
  pub acos : Ratio → Ratio
  pub sqrt : Ratio → Ratio
