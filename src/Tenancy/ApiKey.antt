-- ===== src/Tenancy/ApiKey.antt =====
-- packages/core/src/tenancy/api-key.ts: the credentials of a tenant. The hash and the random part
-- of a secret come from node:crypto and are parameters.
use mafuta.Base.{String, Option, none, some, Bool, true, false, List, [], ◌∷◌, ◌==◌, template}
use mafuta.Base.Int.{ℤ, ltb_ℤ}

pub data ApiKeyStatus : Type 0 where
  active : ApiKeyStatus
  revoked : ApiKeyStatus

pub record ApiKeyRecord : Type 0 where
  pub id : String
  pub tenant_id : String
  pub name : String
  pub key_hash : String
  pub scopes : List String
  pub status : ApiKeyStatus
  pub created_at : String
  pub expires_at : Option String
  pub last_used_at : Option String

abbrev pub api_key_prefix : String
api_key_prefix = "ftk"

pub record GeneratedApiKey : Type 0 where
  pub generated : ApiKeyRecord
  pub secret : String

pub record GenerateInput : Type 0 where
  pub tenant_id : String
  pub name : String
  pub scopes : List String
  pub created_at : String
  pub expires_at : Option String

-- `sha256` is `createHash('sha256').update(s, 'utf8').digest('hex')`.
unfoldable pub generate_api_key :
    (sha256 : String → String) (id random_part : String) → GenerateInput → GeneratedApiKey
unfolding template
generate_api_key sha256 id random_part input =
    let secret = template (api_key_prefix ∷ "_" ∷ id ∷ "_" ∷ random_part ∷ []) in
    record {
      generated = record {
        id = id;
        tenant_id = input.tenant_id;
        name = input.name;
        key_hash = sha256 secret;
        scopes = input.scopes;
        status = active;
        created_at = input.created_at;
        expires_at = input.expires_at;
        last_used_at = none;
      };
      secret = secret;
    }

-- `new Date(expiresAt).getTime() > now.getTime()`; NaN is not greater.
unfoldable pub is_later : Option ℤ → ℤ → Bool
is_later none now = false
is_later (some time) now = ltb_ℤ now time

unfoldable pub expires_later : (String → Option ℤ) → Option String → ℤ → Bool
unfolding is_later
expires_later date_parse none now = true
expires_later date_parse (some expires_at) now = is_later (date_parse expires_at) now

unfoldable pub is_usable_status : ApiKeyStatus → Bool
is_usable_status active = true
is_usable_status revoked = false

unfoldable pub is_api_key_usable : (String → Option ℤ) → ApiKeyRecord → ℤ → Bool
unfolding expires_later is_usable_status
is_api_key_usable date_parse key now = elim (is_usable_status key.status) [
  | false ↦ false
  | true ↦ expires_later date_parse key.expires_at now
]

-- `constantTimeEqual` of two hashes is their equality.
unfoldable pub verify_api_key_secret : (String → String) → String → ApiKeyRecord → Bool
verify_api_key_secret sha256 secret key = sha256 secret == key.key_hash
