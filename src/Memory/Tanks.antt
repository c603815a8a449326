-- ===== src/Memory/Tanks.antt =====
-- packages/core/src/adapters/memory/memory-fleet-repositories.ts: tanks.
use mafuta.Base.{ℕ, String, Option, List, ◌==◌, filter, take}
use mafuta.Base.Dict.{get, set, values}
use mafuta.Base.Sort.{sort}
use mafuta.Runtime.{Runtime}
use mafuta.Effect.{Action, pure, gets, modify, ◌>>◌}
use mafuta.Tenancy.Guard.{assert_owned_by_tenant}
use mafuta.Memory.{World, scoped_key, clamp_limit, default_page_size, matches}
use mafuta.Domain.Tank.{Tank, TankStatus, same_tank_status}

pub record TankQuery : Type 0 where
  pub station_id : Option String
  pub status : Option TankStatus
  pub limit : Option ℕ

unfoldable pub put : String → Tank → World → World
put tenant_id entity w = record w {
  store = record (w.store) { tanks = set (scoped_key tenant_id entity.id) entity w.store.tanks };
}

unfoldable pub save : String → Tank → Action World Tank
save tenant_id entity = do
  assert_owned_by_tenant tenant_id entity.tenant_id "tanks.save"
  modify (put tenant_id entity)
  pure entity

unfoldable pub find_by_id : String → String → Action World (Option Tank)
find_by_id tenant_id id = gets (λ w. get (scoped_key tenant_id id) w.store.tanks)

unfoldable pub list : Runtime → String → TankQuery → Action World (List Tank)
list rt tenant_id query = gets (λ w. take (clamp_limit query.limit default_page_size) (
    sort (λ l r. rt.locale_after l.name r.name)
      (filter (λ t. matches same_tank_status query.status t.status)
        (filter (λ t. matches ◌==◌ query.station_id t.station_id)
          (filter (λ t. t.tenant_id == tenant_id) (values w.store.tanks))))))
