-- ===== src/Api/Auth.antt =====
-- packages/api/src/auth.ts: who a request comes from. What is logged is not part of the answer.
pub mod Header
pub mod Resolved
use mafuta.Base.{
  ℕ, suc, String, Option, none, some, Bool, true, false, ◌||◌, List, [], ◌∷◌, if◌then◌else◌, ltb,
  nat_eq, template,
}
use mafuta.Base.Int.{ℤ}
use mafuta.Base.Dict.{Dict}
use mafuta.Base.Text.{text_length}
use mafuta.Errors.{unauthorized, credentials_not_provisioned, forbidden}
use mafuta.Effect.{Action, Result, ok, err, pure, throw, ◌>>=◌, ◌>>◌}
use mafuta.Tenancy.RateLimit.{RateLimitOptions, WindowState, enforce_rate_limit}
use mafuta.Tenancy.Scopes.{normalize_scopes, missing_scopes}
use mafuta.Tenancy.ApiKey.{ApiKeyRecord}
use mafuta.Tenancy.CredentialHealth.{CredentialStoreStatus, CredentialStoreState, empty}
use mafuta.Memory.ApiKeys.{ApiKeyRegistry, find_by_secret, touch_last_used}
use mafuta.Reporting.ReportTable.{join}
use mafuta.Api.Auth.Header.{extract_secret, strip_duplicated_bearer_prefix}

abbrev pub max_secret_length : ℕ
max_secret_length = 256

pub record TenantContext : Type 0 where
  pub tenant_id : String
  pub principal_id : String
  pub api_key_id : String
  pub scopes : List String
  pub request_id : Option String

pub record AuthRequest : Type 0 where
  pub method : String
  pub authorization : Option String
  pub ip : String
  pub id : Option String

-- The registry, the windows of the limiter and the readings of the clock of the registry.
pub record AuthState : Type 0 where
  pub registry : ApiKeyRegistry
  pub windows : Dict WindowState
  pub tick : ℕ

-- What the authentication is given. `credential_status` is the reader, which gives `none` where it
-- throws; `now_ms` is the time of the limiter and `used_at` that of the use of a key.
pub record AuthDependencies : Type 0 where
  pub sha256 : String → String
  pub date_parse : String → Option ℤ
  pub clock : ℕ → ℤ
  pub number_text : ℕ → String
  pub now_ms : ℕ
  pub used_at : String
  pub touch_last_used : Bool
  pub credential_status : Option (ApiKeyRegistry → Option CredentialStoreStatus)
  pub auth_limiter : Option RateLimitOptions

module _ (deps : AuthDependencies) where
  unfoldable pub read_credential_status : ApiKeyRegistry → Option CredentialStoreStatus
  read_credential_status registry = elim (deps.credential_status) [
    | none ↦ none
    | some reader ↦ reader registry
  ]

  abbrev is_empty_state : CredentialStoreState → Bool
  is_empty_state empty = true
  is_empty_state _ = false

  abbrev is_empty_store : Option CredentialStoreStatus → Bool
  is_empty_store none = false
  is_empty_store (some status) = is_empty_state status.state

  abbrev on_windows :
      Result (Unit {0}) × Dict WindowState → AuthState → Result (Unit {0}) × AuthState
  on_windows (result, windows) state = (result, record state { windows = windows })

  unfoldable pub throttle : String → Action AuthState (Unit {0})
  unfolding enforce_rate_limit template
  throttle ip state = elim (deps.auth_limiter) [
    | none ↦ (ok tt, state)
    | some options ↦
        on_windows
          (enforce_rate_limit deps.number_text options (template ("auth:" ∷ ip ∷ [])) deps.now_ms
            state.windows)
          state
  ]

  unfoldable pub refuse : Action AuthState TenantContext
  unfolding read_credential_status
  refuse state =
      if is_empty_store (read_credential_status state.registry)
      then (err (credentials_not_provisioned "This deployment has no API key provisioned"), state)
      else (err (unauthorized "Missing or invalid credentials"), state)

  -- `rejectPresentedCredential`
  unfoldable pub reject_presented_credential : AuthRequest → Action AuthState TenantContext
  unfolding throttle refuse ◌>>=◌
  reject_presented_credential request = throttle request.ip >> refuse

  unfoldable pub reject_unpresented_credential : Action AuthState TenantContext
  unfolding throw
  reject_unpresented_credential = throw (unauthorized "Missing bearer credentials")

  -- A key that is found is marked as used, and gives the context.
  unfoldable pub accept_key : AuthRequest → ApiKeyRecord → Action AuthState TenantContext
  unfolding normalize_scopes touch_last_used template
  accept_key request key state = (
    ok (record {
      tenant_id = key.tenant_id;
      principal_id = template ("key:" ∷ key.id ∷ []);
      api_key_id = key.id;
      scopes = normalize_scopes key.scopes;
      request_id = request.id;
    }),
    if deps.touch_last_used
        then record state { registry = touch_last_used key.id deps.used_at state.registry }
        else state,
  )

  unfoldable pub look_up : String → AuthState → Option ApiKeyRecord
  unfolding find_by_secret
  look_up secret state =
      find_by_secret deps.sha256 deps.date_parse deps.clock secret state.tick state.registry

  unfoldable pub resolve_found : AuthRequest → Option ApiKeyRecord → Action AuthState TenantContext
  unfolding accept_key reject_presented_credential
  resolve_found request none = reject_presented_credential request
  resolve_found request (some key) = accept_key request key

  unfoldable pub resolve_secret : AuthRequest → String → Action AuthState TenantContext
  unfolding reject_presented_credential resolve_found look_up text_length
  resolve_secret request secret state =
      if nat_eq (text_length secret) 0 || ltb max_secret_length (text_length secret)
      then reject_presented_credential request state
      else resolve_found request (look_up secret state) state

  unfoldable pub resolve_extracted : AuthRequest → Option String → Action AuthState TenantContext
  unfolding reject_unpresented_credential resolve_secret strip_duplicated_bearer_prefix
  resolve_extracted request none = reject_unpresented_credential
  resolve_extracted request (some extracted) =
      resolve_secret request (strip_duplicated_bearer_prefix extracted)

  unfoldable pub resolve_tenant_context : AuthRequest → Action AuthState TenantContext
  unfolding resolve_extracted reject_unpresented_credential extract_secret
  resolve_tenant_context request = elim (request.authorization) [
    | none ↦ reject_unpresented_credential
    | some header ↦ resolve_extracted request (extract_secret header)
  ]

-- `if (missing.length > 0) throw …`
unfoldable pub refuse_missing : List String → Result (Unit {0})
unfolding join template
refuse_missing [] = ok tt
refuse_missing (scope ∷ scopes) = err (
    forbidden (template ("This credential does not grant " ∷ join ", " (scope ∷ scopes) ∷ []))
      (scope ∷ scopes))

-- The scopes that a route requires of the context of its request.
unfoldable pub require_scopes : List String → Option TenantContext → Result (Unit {0})
unfolding missing_scopes refuse_missing
require_scopes required none = err (unauthorized "Missing or invalid credentials")
require_scopes required (some context) = refuse_missing (missing_scopes context.scopes required)

unfoldable pub current_tenant_id : Option TenantContext → Result String
current_tenant_id none = err (unauthorized "Missing or invalid credentials")
current_tenant_id (some context) = ok context.tenant_id
