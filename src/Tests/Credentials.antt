-- ===== src/Tests/Credentials.antt =====
-- The credentials of tenants.
use mafuta.Base.{String, Option, none, some, [], ◌∷◌, ◌≡◌, refl, ◌+◌, arith}
use mafuta.Base.Int.{ℤ, pos}
use mafuta.Base.Dict.{get, set, values}
use mafuta.Tenancy.ApiKey.{ApiKeyRecord, GenerateInput, generate_api_key}
use mafuta.Memory.ApiKeys.{ApiKeyRegistry, find_by_secret, save, revoke, count_usable}
use mafuta.Memory.ApiKeys.Usable.{IsOpenedBy, no_usable_no_secret, find_by_secret-IsOpenedBy}

-- A hash, and dates that are all at 500.
abbrev keep_text : String → String
keep_text text = text

abbrev at_500 : String → Option ℤ
at_500 text = some (pos 500)

abbrev pump_input : GenerateInput
pump_input = record {
  tenant_id = "acme";
  name = "pump";
  scopes = "tanks:read" ∷ [];
  created_at = "2023-11-14T22:13:20.000Z";
  expires_at = some "2024-11-14T22:13:20.000Z";
}

abbrev pump_key : ApiKeyRecord
unfolding generate_api_key
pump_key = (generate_api_key keep_text "key_1" "abc" pump_input).generated

abbrev pump_keys : ApiKeyRegistry
unfolding pump_key save
pump_keys = save pump_key []

find_by_secret-IsOpenedBy_example :
    IsOpenedBy keep_text at_500 (λ n. pos n) "ftk_key_1_abc" (values pump_keys) pump_key
unfolding pump_key pump_keys find_by_secret values set
find_by_secret-IsOpenedBy_example =
    find_by_secret-IsOpenedBy keep_text at_500 (λ n. pos n) "ftk_key_1_abc" 0 pump_keys pump_key
      refl

no_usable_no_secret_example :
    find_by_secret keep_text at_500 (λ n. pos (n + 500)) "ftk_key_1_abc" 0 pump_keys ≡ none
unfolding pump_key pump_keys count_usable values set
no_usable_no_secret_example =
    no_usable_no_secret keep_text at_500 (λ n. pos (n + 500)) (pos 500) "ftk_key_1_abc" 0 pump_keys
      (λ n. omega arith) refl

abbrev revoked_keys : ApiKeyRegistry
unfolding pump_key pump_keys
revoked_keys = (revoke "acme" "key_1" pump_keys).1

revoked_is_refused :
    find_by_secret keep_text at_500 (λ n. pos n) "ftk_key_1_abc" 0 revoked_keys ≡ none
unfolding pump_key pump_keys revoked_keys revoke find_by_secret values set get
revoked_is_refused = refl
