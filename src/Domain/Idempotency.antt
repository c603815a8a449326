-- ===== src/Domain/Idempotency.antt =====
-- packages/core/src/domain/idempotency.ts
use mafuta.Base.{String, Option, some, none, [], ◌∷◌, get_or, template}
use mafuta.Runtime.{Runtime}

pub record IdempotencyScope : Type 0 where
  pub tenant_id : String
  pub tank_id : String
  pub device_id : Option String
  pub observed_at : String

module _ (rt : Runtime) where
  observed_instant : String → String
  observed_instant observed_at = elim (rt.date_parse observed_at) [
    | none ↦ observed_at
    | some parsed ↦ rt.int_text parsed
  ]

  -- The text that is hashed.
  unfoldable pub canonical_scope : IdempotencyScope → String
  unfolding observed_instant template
  canonical_scope scope = template (
      scope.tenant_id
      ∷ "|"
      ∷ scope.tank_id
      ∷ "|"
      ∷ get_or scope.device_id "unassigned"
      ∷ "|"
      ∷ observed_instant scope.observed_at
      ∷ [])

  unfoldable pub derive_idempotency_key : IdempotencyScope → String
  unfolding canonical_scope
  derive_idempotency_key scope = template ("idem_" ∷ rt.sha256_48 (canonical_scope scope) ∷ [])
