-- ===== src/Memory/Events.antt =====
-- packages/core/src/adapters/memory/memory-event-repositories.ts: candidate fuel events.
use mafuta.Base.{ℕ, String, Option, some, Bool, false, List, ◌==◌, filter, take}
use mafuta.Base.Int.{ℤ, leb_ℤ}
use mafuta.Base.Dict.{get, set, values}
use mafuta.Base.Sort.{sort}
use mafuta.Runtime.{Runtime}
use mafuta.Effect.{Action, pure, gets, modify, ◌>>◌}
use mafuta.Tenancy.Guard.{assert_owned_by_tenant}
use mafuta.Memory.{
  World, scoped_key, clamp_limit, default_page_size, matches, newest_first, in_window,
}
use mafuta.Domain.Event.{
  FuelEvent, FuelEventType, FuelEventStatus, same_event_type, same_event_status,
}

pub record EventQuery : Type 0 where
  pub tank_id : Option String
  pub status : Option FuelEventStatus
  pub type : Option FuelEventType
  pub from : Option String
  pub to : Option String
  pub limit : Option ℕ

unfoldable pub put : String → FuelEvent → World → World
put tenant_id entity w = record w {
  store = record (w.store) { events = set (scoped_key tenant_id entity.id) entity w.store.events };
}

unfoldable pub save : String → FuelEvent → Action World FuelEvent
save tenant_id entity = do
  assert_owned_by_tenant tenant_id entity.tenant_id "events.save"
  modify (put tenant_id entity)
  pure entity

unfoldable pub update : String → FuelEvent → Action World FuelEvent
update tenant_id entity = do
  assert_owned_by_tenant tenant_id entity.tenant_id "events.update"
  modify (put tenant_id entity)
  pure entity

unfoldable pub find_by_id : String → String → Action World (Option FuelEvent)
find_by_id tenant_id id = gets (λ w. get (scoped_key tenant_id id) w.store.events)

unfoldable pub tenant_events : Runtime → String → World → List FuelEvent
tenant_events rt tenant_id w =
    sort (newest_first rt (λ e. e.window_end))
      (filter (λ e. e.tenant_id == tenant_id) (values w.store.events))

unfoldable pub list : Runtime → String → EventQuery → Action World (List FuelEvent)
list rt tenant_id query = gets (λ w. take (clamp_limit query.limit default_page_size) (
    filter (λ e. in_window rt query.from query.to e.window_end)
      (filter (λ e. matches same_event_type query.type e.type)
        (filter (λ e. matches same_event_status query.status e.status)
          (filter (λ e. matches ◌==◌ query.tank_id e.tank_id) (tenant_events rt tenant_id w))))))

-- `Date.parse(at) >= since`, false if one of them is NaN.
abbrev parsed_from : Option ℤ → Option ℤ → Bool
parsed_from (some at) (some since) = leb_ℤ since at
parsed_from _ _ = false

unfoldable pub list_recent_by_tank :
    Runtime → String → String → ℕ → String → Action World (List FuelEvent)
list_recent_by_tank rt tenant_id tank_id limit since_iso = gets (λ w.
    take (clamp_limit (some limit) 20) (
      filter (λ e. parsed_from (rt.date_parse e.window_end) (rt.date_parse since_iso))
        (filter (λ e. e.tank_id == tank_id) (tenant_events rt tenant_id w))))
