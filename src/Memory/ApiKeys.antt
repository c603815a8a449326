-- ===== src/Memory/ApiKeys.antt =====
-- packages/core/src/adapters/memory/memory-api-key-registry.ts: the credentials by their id. The
-- registry holds the keys of all tenants.
pub mod Usable
pub mod Revoked
use mafuta.Base.{
  ℕ, suc, String, Option, none, some, Bool, true, false, if◌then◌else◌, List, [], ◌∷◌, ◌==◌, filter,
  map,
}
use mafuta.Base.Int.{ℤ}
use mafuta.Base.Dict.{Dict, get, set, values}
use mafuta.Effect.{Action, pure, gets, modify, ◌>>=◌, ◌>>◌}
use mafuta.Tenancy.Guard.{assert_owned_by_tenant}
use mafuta.Tenancy.ApiKey.{
  ApiKeyRecord, ApiKeyStatus, revoked, is_api_key_usable, verify_api_key_secret,
}

abbrev pub ApiKeyRegistry : Type 0
ApiKeyRegistry = Dict ApiKeyRecord

-- The scan of `findBySecret`, which reads the clock at each record; `tick` counts the readings.
module _ (sha256 : String → String) (date_parse : String → Option ℤ) (clock : ℕ → ℤ) where
  unfoldable pub scan_for_secret : String → ℕ → List ApiKeyRecord → Option ApiKeyRecord
  unfolding is_api_key_usable verify_api_key_secret
  scan_for_secret secret tick [] = none
  scan_for_secret secret tick (key ∷ keys) =
      let later = scan_for_secret secret (suc tick) keys in
      if is_api_key_usable date_parse key (clock tick)
      then (if verify_api_key_secret sha256 secret key then some key else later)
      else later

  unfoldable pub find_by_secret : String → ℕ → ApiKeyRegistry → Option ApiKeyRecord
  unfolding scan_for_secret
  find_by_secret secret tick registry = scan_for_secret secret tick (values registry)

-- The loop of `countUsable` at one reading of the clock.
unfoldable pub count_keys : (String → Option ℤ) → ℤ → List ApiKeyRecord → ℕ
unfolding is_api_key_usable
count_keys date_parse current [] = 0
count_keys date_parse current (key ∷ keys) =
    let rest = count_keys date_parse current keys in
    if is_api_key_usable date_parse key current then suc rest else rest

unfoldable pub count_usable : (String → Option ℤ) → ℤ → ApiKeyRegistry → ℕ
unfolding count_keys
count_usable date_parse current registry = count_keys date_parse current (values registry)

unfoldable pub save : ApiKeyRecord → ApiKeyRegistry → ApiKeyRegistry
save key registry = set key.id key registry

unfoldable pub touch_found : String → String → Option ApiKeyRecord → ApiKeyRegistry → ApiKeyRegistry
touch_found id used_at none registry = registry
touch_found id used_at (some key) registry =
    set id (record key { last_used_at = some used_at }) registry

unfoldable pub touch_last_used : String → String → ApiKeyRegistry → ApiKeyRegistry
unfolding touch_found
touch_last_used id used_at registry = touch_found id used_at (get id registry) registry

unfoldable pub revoke_found : String → String → Option ApiKeyRecord → Action ApiKeyRegistry Bool
unfolding ◌>>=◌ assert_owned_by_tenant
revoke_found tenant_id id none = pure false
revoke_found tenant_id id (some key) = do
  assert_owned_by_tenant tenant_id key.tenant_id "apiKeys.revoke"
  modify (λ registry. set id (record key { status = revoked }) registry)
  pure true

unfoldable pub revoke : String → String → Action ApiKeyRegistry Bool
unfolding revoke_found ◌>>=◌
revoke tenant_id id = do found ← gets (λ registry. get id registry); revoke_found tenant_id id found

-- A record without its hash.
record StoredApiKey : Type 0 where
  id : String
  tenant_id : String
  name : String
  scopes : List String
  status : ApiKeyStatus
  created_at : String
  expires_at : Option String
  last_used_at : Option String

abbrev stored_api_key : ApiKeyRecord → StoredApiKey
stored_api_key key = record {
  id = key.id;
  tenant_id = key.tenant_id;
  name = key.name;
  scopes = key.scopes;
  status = key.status;
  created_at = key.created_at;
  expires_at = key.expires_at;
  last_used_at = key.last_used_at;
}

unfoldable list : String → ApiKeyRegistry → List StoredApiKey
list tenant_id registry =
    map stored_api_key (filter (λ key. key.tenant_id == tenant_id) (values registry))
