-- ===== src/Prisma/Stored.antt =====
-- packages/core/src/adapters/prisma/mappers.ts: what comes back from the database is what went in. A
-- row holds the columns that were written, a date the instant of its text, and a decimal the number
-- if that fits the scale of the column.
pub mod Tanks
pub mod Readings
pub mod Alerts
pub mod Events
pub mod Deliveries
use mafuta.Base.{String, Option, none, some, ◌≡◌, ◌∙◌, ap, refl}
use mafuta.Base.Int.{ℤ}
use mafuta.Runtime.{Runtime}
use mafuta.Prisma.{iso_or_null, date_or_null}

-- An instant of an optional date, as it is written.
abbrev pub written : Option ℤ → Option (Option ℤ)
written none = none
written (some at) = some (some at)

module _ (rt : Runtime) where
  -- The text of a date that `toISOString` made.
  abbrev pub IsIso : String → Type 0
  IsIso s = (at : ℤ) × (rt.date_parse s ≡ some at) × (rt.to_iso at ≡ s)

  abbrev pub IsIsoOrNull : Option String → Type 0
  IsIsoOrNull none = Unit
  IsIsoOrNull (some s) = IsIso s

  pub to_iso-written :
      (s : String) (at : ℤ) → rt.date_parse s ≡ some at → IsIso s → rt.to_iso at ≡ s
  to_iso-written s at stored (instant, parsed, made) =
      let same : at ≡ instant = cc in ap rt.to_iso same ∙ made

  pub iso_or_null-written :
      (s : Option String) (at : Option ℤ)
      → date_or_null rt s ≡ written at
      → IsIsoOrNull s
      → iso_or_null rt at ≡ s
  iso_or_null-written none none stored iso = refl
  iso_or_null-written none (some at) stored iso = cc
  iso_or_null-written (some s) none stored iso = cc
  iso_or_null-written (some s) (some at) stored iso =
      let parsed : rt.date_parse s ≡ some at = cc in ap some (to_iso-written s at parsed iso)
