-- ===== src/Memory/Deliveries.antt =====
-- packages/core/src/adapters/memory/memory-event-repositories.ts: confirmed deliveries.
use mafuta.Base.{ℕ, String, Option, List, ◌==◌, filter, take}
use mafuta.Base.Dict.{get, set, values}
use mafuta.Base.Sort.{sort}
use mafuta.Runtime.{Runtime}
use mafuta.Effect.{Action, pure, gets, modify, ◌>>◌}
use mafuta.Tenancy.Guard.{assert_owned_by_tenant}
use mafuta.Memory.{
  World, scoped_key, clamp_limit, default_page_size, matches, is_text, newest_first, in_window,
}
use mafuta.Domain.Delivery.{Delivery}

pub record DeliveryQuery : Type 0 where
  pub tank_id : Option String
  pub from : Option String
  pub to : Option String
  pub limit : Option ℕ

unfoldable pub put : String → Delivery → World → World
put tenant_id entity w = record w {
  store = record (w.store) {
    deliveries = set (scoped_key tenant_id entity.id) entity w.store.deliveries;
  };
}

unfoldable pub save : String → Delivery → Action World Delivery
save tenant_id entity = do
  assert_owned_by_tenant tenant_id entity.tenant_id "deliveries.save"
  modify (put tenant_id entity)
  pure entity

unfoldable pub find_by_id : String → String → Action World (Option Delivery)
find_by_id tenant_id id = gets (λ w. get (scoped_key tenant_id id) w.store.deliveries)

unfoldable pub tenant_deliveries : Runtime → String → World → List Delivery
tenant_deliveries rt tenant_id w =
    sort (newest_first rt (λ d. d.confirmed_at))
      (filter (λ d. d.tenant_id == tenant_id) (values w.store.deliveries))

unfoldable pub list : Runtime → String → DeliveryQuery → Action World (List Delivery)
list rt tenant_id query = gets (λ w. take (clamp_limit query.limit default_page_size) (
    filter (λ d. in_window rt query.from query.to d.confirmed_at)
      (filter (λ d. matches ◌==◌ query.tank_id d.tank_id) (tenant_deliveries rt tenant_id w))))

unfoldable pub list_by_event : Runtime → String → String → Action World (List Delivery)
list_by_event rt tenant_id event_id =
    gets (λ w. filter (λ d. is_text d.fuel_event_id event_id) (tenant_deliveries rt tenant_id w))
