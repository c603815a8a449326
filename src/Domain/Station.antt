-- ===== src/Domain/Station.antt =====
-- packages/core/src/domain/station.ts
use mafuta.Base.{Bool, true, false, String}

pub data StationStatus : Type 0 where
  active inactive : StationStatus

abbrev pub same_station_status : StationStatus → StationStatus → Bool
same_station_status active active = true
same_station_status inactive inactive = true
same_station_status _ _ = false

pub record Station : Type 0 where
  pub id : String
  pub tenant_id : String
  pub name : String
  pub code : String
  pub timezone : String
  pub status : StationStatus
  pub created_at : String
  pub updated_at : String

abbrev pub default_station_timezone : String
default_station_timezone = "Africa/Dar_es_Salaam"
