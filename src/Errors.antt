-- ===== src/Errors.antt =====
-- packages/core/src/errors.ts: the errors that operations throw, each with what it carries.
use mafuta.Base.{ℕ, String, List}

pub data Error : Type 0 where
  invalid_identifier : (identifier_name : String) → Error
  validation : (message : String) (issues : List (String × String)) → Error
  not_found : (resource resource_id : String) → Error
  unauthorized : (message : String) → Error
  credentials_not_provisioned : (message : String) → Error
  forbidden : (message : String) (required_scopes : List String) → Error
  too_many_requests : (message : String) (retry_after_seconds : ℕ) → Error
  conflict : (message : String) → Error
  tenant_isolation : (expected_tenant_id actual_tenant_id operation : String) → Error
  -- A plain `Error`.
  other : (message : String) → Error
