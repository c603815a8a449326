-- ===== src/Prisma/Stations.antt =====
-- packages/core/src/adapters/prisma/mappers.ts: stations.
use mafuta.Base.{String, ◌==◌, if◌then◌else◌}
use mafuta.Base.Int.{ℤ}
use mafuta.Runtime.{Runtime}
use mafuta.Domain.Station.{Station, StationStatus, active, inactive}

unfoldable pub to_prisma_station_status : StationStatus → String
to_prisma_station_status active = "active"
to_prisma_station_status inactive = "inactive"

unfoldable pub to_domain_station_status : String → StationStatus
to_domain_station_status status = if status == "inactive" then inactive else active

pub record StationRow : Type 0 where
  pub id : String
  pub tenant_id : String
  pub name : String
  pub code : String
  pub timezone : String
  pub status : String
  pub created_at : ℤ
  pub updated_at : ℤ

pub record StationInput : Type 0 where
  pub id : String
  pub tenant_id : String
  pub name : String
  pub code : String
  pub timezone : String
  pub status : String

unfoldable pub to_domain_station : Runtime → StationRow → Station
unfolding to_domain_station_status
to_domain_station rt row = record {
  id = row.id;
  tenant_id = row.tenant_id;
  name = row.name;
  code = row.code;
  timezone = row.timezone;
  status = to_domain_station_status row.status;
  created_at = rt.to_iso row.created_at;
  updated_at = rt.to_iso row.updated_at;
}

unfoldable pub to_prisma_station_input : Station → StationInput
unfolding to_prisma_station_status
to_prisma_station_input station = record {
  id = station.id;
  tenant_id = station.tenant_id;
  name = station.name;
  code = station.code;
  timezone = station.timezone;
  status = to_prisma_station_status station.status;
}
