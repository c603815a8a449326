-- ===== src/Prisma.antt =====
-- packages/core/src/adapters/prisma/mappers.ts: what the columns of the database hold. A `Date` is
-- milliseconds since 1970, and `none` is an invalid one.
pub mod Stations
pub mod Tanks
pub mod Readings
pub mod Devices
pub mod Alerts
pub mod Events
pub mod Deliveries
pub mod Audit
pub mod Stored
pub mod Migrations
use mafuta.Base.{String, Option, none, some, Bool, ◌==◌, if◌then◌else◌}
use mafuta.Base.Int.{ℤ}
use mafuta.Base.Ratio.{Ratio}
use mafuta.Runtime.{Runtime}

-- The values of a JSON column.
mutual
  pub data Json : Type 0 where
    null : Json
    num : Ratio → Json
    str : String → Json
    bool : Bool → Json
    arr : JsonItems → Json
    obj : JsonFields → Json

  pub data JsonItems : Type 0 where
    nil : JsonItems
    item : Json → JsonItems → JsonItems

  pub data JsonFields : Type 0 where
    end : JsonFields
    field : String → Json → JsonFields → JsonFields

-- A decimal column comes as a number, as a text or as an object that has `toNumber`.
pub data DecimalLike : Type 0 where
  number : Ratio → DecimalLike
  text : String → DecimalLike
  decimal : Ratio → DecimalLike

-- `number_of` is `Number(s)` on the text of a decimal column, which is a finite number.
unfoldable pub to_number : (number_of : String → Ratio) → DecimalLike → Ratio
to_number number_of (number value) = value
to_number number_of (text value) = number_of value
to_number number_of (decimal value) = value

unfoldable pub to_number_or_null : (String → Ratio) → Option DecimalLike → Option Ratio
unfolding to_number
to_number_or_null number_of none = none
to_number_or_null number_of (some value) = some (to_number number_of value)

-- `row.at === null ? null : row.at.toISOString()`
abbrev pub iso_or_null : Runtime → Option ℤ → Option String
iso_or_null rt none = none
iso_or_null rt (some at) = some (rt.to_iso at)

-- `new Date(text)`
abbrev pub to_date : Runtime → String → Option ℤ
to_date rt iso = rt.date_parse iso

-- `text === null ? null : new Date(text)`
abbrev pub date_or_null : Runtime → Option String → Option (Option ℤ)
date_or_null rt none = none
date_or_null rt (some iso) = some (rt.date_parse iso)

-- The value of a field of an object; the last of two of one name counts.
unfoldable pub get_field : String → JsonFields → Option Json
get_field name end = none
get_field name (field key value rest) = elim (get_field name rest) [
  | some later ↦ some later
  | none ↦ if key == name then some value else none
]
