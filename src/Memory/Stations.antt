-- ===== src/Memory/Stations.antt =====
-- packages/core/src/adapters/memory/memory-fleet-repositories.ts: stations.
use mafuta.Base.{ℕ, String, Option, ◌&&◌, List, ◌==◌, filter, take, find}
use mafuta.Base.Dict.{get, set, values}
use mafuta.Base.Sort.{sort}
use mafuta.Runtime.{Runtime}
use mafuta.Effect.{Action, pure, gets, modify, ◌>>◌}
use mafuta.Tenancy.Guard.{assert_owned_by_tenant}
use mafuta.Memory.{World, scoped_key, clamp_limit, default_page_size, matches}
use mafuta.Domain.Station.{Station, StationStatus, same_station_status}

pub record StationQuery : Type 0 where
  pub status : Option StationStatus
  pub limit : Option ℕ

unfoldable pub put : String → Station → World → World
put tenant_id entity w = record w {
  store = record (w.store) {
    stations = set (scoped_key tenant_id entity.id) entity w.store.stations;
  };
}

unfoldable pub save : String → Station → Action World Station
save tenant_id entity = do
  assert_owned_by_tenant tenant_id entity.tenant_id "stations.save"
  modify (put tenant_id entity)
  pure entity

unfoldable pub find_by_id : String → String → Action World (Option Station)
find_by_id tenant_id id = gets (λ w. get (scoped_key tenant_id id) w.store.stations)

unfoldable pub find_by_code : String → String → Action World (Option Station)
find_by_code tenant_id code =
    gets (λ w. find (λ s. s.tenant_id == tenant_id && s.code == code) (values w.store.stations))

unfoldable pub list : Runtime → String → StationQuery → Action World (List Station)
list rt tenant_id query = gets (λ w. take (clamp_limit query.limit default_page_size) (
    sort (λ l r. rt.locale_after l.name r.name)
      (filter (λ s. matches same_station_status query.status s.status)
        (filter (λ s. s.tenant_id == tenant_id) (values w.store.stations)))))
