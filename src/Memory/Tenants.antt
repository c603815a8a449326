-- ===== src/Memory/Tenants.antt =====
-- packages/core/src/adapters/memory/memory-repositories.ts: `createMemoryTenantRepository`.
use mafuta.Base.{ℕ, String, List, [], ◌∷◌, ◌++◌, ◌==◌, map, take, any, if◌then◌else◌}
use mafuta.Base.Dict.{values}
use mafuta.Effect.{Action, gets}
use mafuta.Memory.{World}

-- `ids.add(id)` for each text in turn: a JavaScript `Set` keeps the first of each.
unfoldable pub add_each : List String → List String → List String
add_each ids [] = ids
add_each ids (id ∷ rest) = add_each (if any (λ i. i == id) ids then ids else ids ++ id ∷ []) rest

unfoldable pub list : ℕ → Action World (List String)
list limit = gets (λ w. take limit (
    add_each [] (
      map (λ s. s.tenant_id) (values w.store.stations)
      ++ (map (λ t. t.tenant_id) (values w.store.tanks)
          ++ (map (λ d. d.tenant_id) (values w.store.devices)
              ++ (map (λ e. e.tenant_id) (values w.store.events)
                  ++ map (λ d. d.tenant_id) (values w.store.deliveries)))))))
