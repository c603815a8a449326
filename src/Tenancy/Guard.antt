-- ===== src/Tenancy/Guard.antt =====
-- packages/core/src/tenancy/guard.ts
use mafuta.Base.{String, List, ◌==◌, filter}
use mafuta.Errors.{tenant_isolation}
use mafuta.Effect.{Action, ensure}

-- The entity's tenant is passed for the entity, which comes back unchanged.
unfoldable pub assert_owned_by_tenant :
    {S : Type 0} → String → String → String → Action S (Unit {0})
assert_owned_by_tenant tenant_id owner operation =
    ensure (owner == tenant_id) (tenant_isolation tenant_id owner operation)

unfoldable pub filter_by_tenant : {A : Type 0} → (A → String) → String → List A → List A
filter_by_tenant tenant_of tenant_id entities = filter (λ e. tenant_of e == tenant_id) entities
