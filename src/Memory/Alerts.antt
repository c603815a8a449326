-- ===== src/Memory/Alerts.antt =====
-- packages/core/src/adapters/memory/memory-alert-repository.ts
use mafuta.Base.{ℕ, String, Option, some, none, Bool, true, ◌&&◌, List, ◌==◌, filter, take, length}
use mafuta.Base.Dict.{get, set, values}
use mafuta.Base.Sort.{sort}
use mafuta.Runtime.{Runtime}
use mafuta.Effect.{Action, pure, gets, modify, ◌>>◌}
use mafuta.Tenancy.Guard.{assert_owned_by_tenant}
use mafuta.Memory.{
  World, scoped_key, clamp_limit, default_page_size, matches, is_text, newest_first,
}
use mafuta.Domain.Alert.{
  Alert, AlertStatus, AlertType, opened, alert_type_text, same_alert_status, is_open_alert,
}

pub record AlertQuery : Type 0 where
  pub tank_id : Option String
  pub status : Option AlertStatus
  pub type : Option AlertType
  pub limit : Option ℕ

unfoldable pub put : String → Alert → World → World
put tenant_id entity w = record w {
  store = record (w.store) { alerts = set (scoped_key tenant_id entity.id) entity w.store.alerts };
}

unfoldable pub save : String → Alert → Action World Alert
save tenant_id entity = do
  assert_owned_by_tenant tenant_id entity.tenant_id "alerts.save"
  modify (put tenant_id entity)
  pure entity

unfoldable pub update : String → Alert → Action World Alert
update tenant_id entity = do
  assert_owned_by_tenant tenant_id entity.tenant_id "alerts.update"
  modify (put tenant_id entity)
  pure entity

unfoldable pub find_by_id : String → String → Action World (Option Alert)
find_by_id tenant_id id = gets (λ w. get (scoped_key tenant_id id) w.store.alerts)

unfoldable pub tenant_alerts : Runtime → String → World → List Alert
tenant_alerts rt tenant_id w =
    sort (newest_first rt (λ a. a.raised_at))
      (filter (λ a. a.tenant_id == tenant_id) (values w.store.alerts))

unfoldable pub same_alert_type : AlertType → AlertType → Bool
same_alert_type a b = alert_type_text a == alert_type_text b

abbrev is_of_tank : Option String → Alert → Bool
is_of_tank none alert = true
is_of_tank (some tank_id) alert = is_text alert.tank_id tank_id

unfoldable pub list : Runtime → String → AlertQuery → Action World (List Alert)
list rt tenant_id query = gets (λ w. take (clamp_limit query.limit default_page_size) (
    filter (λ a. matches same_alert_type query.type a.type)
      (filter (λ a. matches same_alert_status query.status a.status)
        (filter (λ a. is_of_tank query.tank_id a) (tenant_alerts rt tenant_id w)))))

unfoldable pub list_open_by_tank : Runtime → String → String → Action World (List Alert)
list_open_by_tank rt tenant_id tank_id =
    gets (λ w.
      filter (λ a. is_text a.tank_id tank_id && is_open_alert a) (tenant_alerts rt tenant_id w))

unfoldable pub count_open : Runtime → String → Action World ℕ
count_open rt tenant_id =
    gets
      (λ w. length (filter (λ a. same_alert_status a.status opened) (tenant_alerts rt tenant_id w)))
