-- ===== src/Services/Fleet.antt =====
-- packages/core/src/services/fleet-service.ts: stations, tanks and the life of an alert.
pub mod Moves
pub mod AlertLife
use mafuta.Base.{String, Option, some, none, Bool, not, [], ◌∷◌, get_or, template}
use mafuta.Base.Ratio.{Ratio}
use mafuta.Runtime.{Runtime}
use mafuta.Errors.{Error, not_found, conflict, validation}
use mafuta.Effect.{Action, pure, throw, ensure, require, ◌>>=◌, ◌>>◌}
use mafuta.Domain.Geometry.{TankGeometry, tank_capacity_litres}
use mafuta.Domain.Station.{Station, StationStatus, default_station_timezone}
use mafuta.Domain.Station
use mafuta.Domain.Tank.{Tank, TankStatus, TankThresholds, FuelProduct, is_capacity_within_geometry}
use mafuta.Domain.Tank
use mafuta.Domain.Alert.{Alert, acknowledged, resolved, same_alert_status}
use mafuta.Memory.{World, now}
use mafuta.Memory.Stations
use mafuta.Memory.Tanks
use mafuta.Memory.Alerts
use mafuta.Services.Devices.{given_or_new_id}
use mafuta.Services.Events.{or_null}

pub record CreateStationInput : Type 0 where
  pub id : Option String
  pub name : String
  pub code : String
  pub timezone : Option String

pub record UpdateStationInput : Type 0 where
  pub name : Option String
  pub timezone : Option String
  pub status : Option StationStatus

pub record CreateTankInput : Type 0 where
  pub id : Option String
  pub station_id : String
  pub name : String
  pub product : FuelProduct
  pub geometry : TankGeometry
  pub capacity_litres : Ratio
  -- The schema fills in the default.
  pub thresholds : TankThresholds
  pub calibration_source : Option String
  pub calibration_at : Option String

-- An outer `none` is an absent field, an inner one is null.
pub record UpdateTankInput : Type 0 where
  pub name : Option String
  pub product : Option FuelProduct
  pub geometry : Option TankGeometry
  pub capacity_litres : Option Ratio
  pub thresholds : Option TankThresholds
  pub status : Option TankStatus
  pub calibration_source : Option (Option String)
  pub calibration_at : Option (Option String)

-- `...(input.note === undefined ? {} : { message: appendNote(alert.message, input.note) })`
unfoldable pub with_note : String → Option String → String
with_note message none = message
with_note message (some note) = template (message ∷ " | note: " ∷ note ∷ [])

unfoldable pub require_station : String → String → Action World Station
require_station tenant_id station_id = do
  found ← Stations.find_by_id tenant_id station_id
  require found (not_found "Station" station_id)

unfoldable pub require_tank : String → String → Action World Tank
require_tank tenant_id tank_id = do
  found ← Tanks.find_by_id tenant_id tank_id
  require found (not_found "Tank" tank_id)

unfoldable pub require_alert : String → String → Action World Alert
require_alert tenant_id alert_id = do
  found ← Alerts.find_by_id tenant_id alert_id
  require found (not_found "Alert" alert_id)

unfoldable pub already_resolved : String → Error
already_resolved alert_id = conflict (template ("Alert " ∷ alert_id ∷ " is already resolved" ∷ []))

-- `!(alert.status === 'resolved')`
abbrev pub is_unresolved : Alert → Bool
is_unresolved alert = not (same_alert_status alert.status resolved)

module _ (rt : Runtime) where
  unfoldable pub refuse_used_code : String → Option Station → Action World (Unit {0})
  refuse_used_code code none = pure tt
  refuse_used_code code (some existing) =
      throw (conflict (template ("Station code " ∷ code ∷ " is already used by this tenant" ∷ [])))

  -- The station is built, its identifier drawn, before the code is looked up.
  unfoldable pub create_station : String → CreateStationInput → Action World Station
  create_station tenant_id input = do
    at ← now rt
    id ← given_or_new_id rt input.id "stn"
    existing_code ← Stations.find_by_code tenant_id input.code
    refuse_used_code input.code existing_code
    Stations.save tenant_id (record {
      id = id;
      tenant_id = tenant_id;
      name = input.name;
      code = input.code;
      timezone = get_or input.timezone default_station_timezone;
      status = Station.active;
      created_at = rt.to_iso at;
      updated_at = rt.to_iso at;
    })

  unfoldable pub update_station : String → String → UpdateStationInput → Action World Station
  update_station tenant_id station_id input = do
    station ← require_station tenant_id station_id
    at ← now rt
    Stations.save tenant_id (record station {
      name = get_or input.name station.name;
      timezone = get_or input.timezone station.timezone;
      status = get_or input.status station.status;
      updated_at = rt.to_iso at;
    })

  unfoldable pub capacity_exceeds : Ratio → TankGeometry → Error
  capacity_exceeds capacity_litres geometry =
      validation "Tank capacity exceeds the declared geometry" (
        (
          "capacityLitres",
          template (
              "capacityLitres "
              ∷ rt.number_text capacity_litres
              ∷ " exceeds geometric capacity "
              ∷ rt.to_fixed (tank_capacity_litres rt geometry) 2
              ∷ []),
        )
        ∷ [])

  unfoldable pub create_tank : String → CreateTankInput → Action World Tank
  create_tank tenant_id input = do
    found ← Stations.find_by_id tenant_id input.station_id
    station ← require found (not_found "Station" input.station_id)
    ensure (is_capacity_within_geometry rt input.capacity_litres input.geometry)
        (capacity_exceeds input.capacity_litres input.geometry)
    at ← now rt
    id ← given_or_new_id rt input.id "tnk"
    Tanks.save tenant_id (record {
      id = id;
      tenant_id = tenant_id;
      station_id = station.id;
      name = input.name;
      product = input.product;
      geometry = input.geometry;
      capacity_litres = input.capacity_litres;
      thresholds = input.thresholds;
      status = Tank.active;
      calibration_source = input.calibration_source;
      calibration_at = input.calibration_at;
      created_at = rt.to_iso at;
      updated_at = rt.to_iso at;
    })

  unfoldable pub update_tank : String → String → UpdateTankInput → Action World Tank
  update_tank tenant_id tank_id input = do
    tank ← require_tank tenant_id tank_id
    let geometry = get_or input.geometry tank.geometry
    let capacity_litres = get_or input.capacity_litres tank.capacity_litres
    ensure (is_capacity_within_geometry rt capacity_litres geometry)
        (capacity_exceeds capacity_litres geometry)
    at ← now rt
    Tanks.save tenant_id (record tank {
      name = get_or input.name tank.name;
      product = get_or input.product tank.product;
      geometry = geometry;
      capacity_litres = capacity_litres;
      thresholds = get_or input.thresholds tank.thresholds;
      status = get_or input.status tank.status;
      calibration_source = get_or input.calibration_source tank.calibration_source;
      calibration_at = get_or input.calibration_at tank.calibration_at;
      updated_at = rt.to_iso at;
    })

  unfoldable pub acknowledged_alert : Alert → Option String → String → String → Alert
  acknowledged_alert alert remark actor at = record alert {
    status = acknowledged;
    acknowledged_at = or_null alert.acknowledged_at (some at);
    acknowledged_by = or_null alert.acknowledged_by (some actor);
    updated_at = at;
    message = with_note alert.message remark;
  }

  unfoldable pub acknowledge_alert : String → String → Option String → String → Action World Alert
  acknowledge_alert tenant_id alert_id remark actor = do
    alert ← require_alert tenant_id alert_id
    ensure (is_unresolved alert) (already_resolved alert_id)
    at ← now rt
    Alerts.update tenant_id (acknowledged_alert alert remark actor (rt.to_iso at))

  unfoldable pub resolved_alert : Alert → Option String → String → String → Alert
  resolved_alert alert remark actor at = record alert {
    status = resolved;
    resolved_at = some at;
    resolved_by = some actor;
    acknowledged_at = or_null alert.acknowledged_at (some at);
    acknowledged_by = or_null alert.acknowledged_by (some actor);
    updated_at = at;
    message = with_note alert.message remark;
  }

  unfoldable pub resolve_alert : String → String → Option String → String → Action World Alert
  resolve_alert tenant_id alert_id remark actor = do
    alert ← require_alert tenant_id alert_id
    ensure (is_unresolved alert) (already_resolved alert_id)
    at ← now rt
    Alerts.update tenant_id (resolved_alert alert remark actor (rt.to_iso at))

  unfoldable pub assign_alert : String → String → Option String → Action World Alert
  assign_alert tenant_id alert_id assignee = do
    alert ← require_alert tenant_id alert_id
    at ← now rt
    Alerts.update tenant_id (record alert { assigned_to = assignee; updated_at = rt.to_iso at })
