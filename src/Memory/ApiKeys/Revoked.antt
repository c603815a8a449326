-- ===== src/Memory/ApiKeys/Revoked.antt =====
-- packages/core/src/adapters/memory/memory-api-key-registry.ts: what a revocation does.
use mafuta.Base.{
  String, some, true, false, ◌≡◌, ◌==◌, arith, inl, inr, Bool-cases, Option-cases, eq_iff, eq_refl,
  ap, subst,
}
use mafuta.Base.Dict.{get, set, get-set}
use mafuta.Effect.{ok, pure, gets, modify, ensure, ◌>>=◌}
use mafuta.Tenancy.Guard.{assert_owned_by_tenant}
use mafuta.Tenancy.ApiKey.{ApiKeyRecord, revoked}
use mafuta.Memory.ApiKeys.{ApiKeyRegistry, revoke, revoke_found}

abbrev pub revoked_key : ApiKeyRecord → ApiKeyRecord
revoked_key key = record key { status = revoked }

-- The key of the tenant stands revoked, and every other key stands as before.
unfoldable pub IsRevocation : String → String → ApiKeyRegistry → ApiKeyRegistry → Type 0
IsRevocation tenant_id id before after =
    (key : ApiKeyRecord) × (get id before ≡ some key)
    × (key.tenant_id ≡ tenant_id)
    × (get id after ≡ some (revoked_key key))
    × ((other : String) → (id == other) ≡ false → get other after ≡ get other before)

set-IsRevocation :
    (id : String) (key : ApiKeyRecord) (tenant_id : String) (registry : ApiKeyRegistry)
    → get id registry ≡ some key
    → key.tenant_id ≡ tenant_id
    → IsRevocation tenant_id id registry (set id (revoked_key key) registry)
unfolding IsRevocation
set-IsRevocation id key tenant_id registry found owned = (
  key,
  found,
  owned,
  ground (arith, get-set id id (revoked_key key) registry, eq_refl id),
  λ other apart. ground (arith, get-set id other (revoked_key key) registry, apart),
)

-- A revocation that answers true found a key of the tenant under the id; that key, marked revoked,
-- stands under the id afterwards, and what stands under any other id is as before.
pub revoke-IsRevocation :
    (tenant_id id : String) (registry after : ApiKeyRegistry)
    → revoke tenant_id id registry ≡ (ok true, after)
    → IsRevocation tenant_id id registry after
unfolding revoke revoke_found ◌>>=◌ assert_owned_by_tenant pure gets modify ensure
revoke-IsRevocation tenant_id id registry after e = elim (Option-cases (get id registry)) [
  | inl missing ↦ cc (rw missing at e)
  | inr (key, found) ↦ elim (Bool-cases (key.tenant_id == tenant_id)) [
    | inl owned ↦
        subst (IsRevocation tenant_id id registry) (ap (λ r. r.1) (rw (found, owned) at e)) (
          set-IsRevocation id key tenant_id registry found
            ((eq_iff key.tenant_id tenant_id).0 owned))
    | inr foreign ↦ cc (rw (found, foreign) at e)
  ]
]
