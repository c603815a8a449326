-- ===== src/Ids.antt =====
-- packages/core/src/types/ids.ts. A branded identifier is its text.
pub mod Distinct
use Prim.Native.Char.{Char, code}
use Prim.Native.String
use mafuta.Base.{String, Bool, false, ◌==◌, ◌&&◌, ◌||◌, if◌then◌else◌, leb, nat_eq}
use mafuta.Base.Text.{text_length}
use mafuta.Errors.{invalid_identifier}
use mafuta.Effect.{Result, ok, err}

-- `[a-z0-9]`
abbrev pub is_letter_or_digit : Char → Bool
is_letter_or_digit c =
    (leb b'a' (code c) && leb (code c) b'z') || (leb b'0' (code c) && leb (code c) b'9')

-- `[a-z0-9-]`
abbrev pub is_inner : Char → Bool
is_inner c = is_letter_or_digit c || nat_eq (code c) b'-'

-- `[a-z0-9-]*[a-z0-9]$`
unfoldable pub ends_well : String → Bool
ends_well String.[] = false
ends_well (String.◌∷◌ c s) = if s == "" then is_letter_or_digit c else is_inner c && ends_well s

-- `IDENTIFIER_PATTERN`: one character, or two to 64.
unfoldable pub is_identifier : String → Bool
unfolding ends_well text_length
is_identifier String.[] = false
is_identifier (String.◌∷◌ c s) =
    is_letter_or_digit c && (s == "" || (leb (text_length s) 63 && ends_well s))

unfoldable pub assert_identifier : String → String → Result String
unfolding is_identifier
assert_identifier value name =
    if is_identifier value then ok value else err (invalid_identifier name)

unfoldable pub to_tenant_id : String → Result String
unfolding assert_identifier
to_tenant_id value = assert_identifier value "tenantId"

unfoldable pub to_station_id : String → Result String
unfolding assert_identifier
to_station_id value = assert_identifier value "stationId"

unfoldable pub to_tank_id : String → Result String
unfolding assert_identifier
to_tank_id value = assert_identifier value "tankId"

unfoldable pub to_device_id : String → Result String
unfolding assert_identifier
to_device_id value = assert_identifier value "deviceId"

unfoldable pub to_reading_id : String → Result String
unfolding assert_identifier
to_reading_id value = assert_identifier value "readingId"

unfoldable pub to_alert_id : String → Result String
unfolding assert_identifier
to_alert_id value = assert_identifier value "alertId"

unfoldable pub to_fuel_event_id : String → Result String
unfolding assert_identifier
to_fuel_event_id value = assert_identifier value "eventId"

unfoldable pub to_api_key_id : String → Result String
unfolding assert_identifier
to_api_key_id value = assert_identifier value "apiKeyId"
