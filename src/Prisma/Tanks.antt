-- ===== src/Prisma/Tanks.antt =====
-- packages/core/src/adapters/prisma/mappers.ts: tanks and their geometries.
use mafuta.Base.{String, Option, none, some, List, [], ◌∷◌, ◌==◌, if◌then◌else◌}
use mafuta.Base.Int.{ℤ}
use mafuta.Base.Ratio.{Ratio, of_ℕ}
use mafuta.Runtime.{Runtime}
use mafuta.Domain.Geometry.{
  TankGeometry, StrappingPoint, vertical_cylinder, horizontal_cylinder, strapping_table,
}
use mafuta.Domain.Tank.{
  Tank, TankStatus, FuelProduct, diesel, petrol_91, petrol_95, kerosene, adblue, active,
  decommissioned,
}
use mafuta.Prisma.{
  Json, JsonItems, JsonFields, num, str, arr, obj, nil, item, end, field, DecimalLike, to_number,
  get_field, iso_or_null, date_or_null,
}

unfoldable pub to_prisma_fuel_product : FuelProduct → String
to_prisma_fuel_product diesel = "diesel"
to_prisma_fuel_product petrol_91 = "petrol_91"
to_prisma_fuel_product petrol_95 = "petrol_95"
to_prisma_fuel_product kerosene = "kerosene"
to_prisma_fuel_product adblue = "adblue"

-- `PRODUCT_TO_DOMAIN[product] ?? 'diesel'`
unfoldable pub to_domain_fuel_product : String → FuelProduct
to_domain_fuel_product product =
    if product == "petrol_91"
    then petrol_91
    else if product == "petrol_95"
    then petrol_95
    else if product == "kerosene"
    then kerosene
    else if product == "adblue"
    then adblue
    else diesel

unfoldable pub to_prisma_tank_status : TankStatus → String
to_prisma_tank_status active = "active"
to_prisma_tank_status decommissioned = "decommissioned"

unfoldable pub to_domain_tank_status : String → TankStatus
to_domain_tank_status status = if status == "decommissioned" then decommissioned else active

pub record TankRow : Type 0 where
  pub id : String
  pub tenant_id : String
  pub station_id : String
  pub name : String
  pub product : String
  pub capacity_litres : DecimalLike
  pub geometry : Option Json
  pub calibration_source : Option String
  pub calibration_at : Option ℤ
  pub critical_low_percent : DecimalLike
  pub low_percent : DecimalLike
  pub high_percent : DecimalLike
  pub water_alarm_mm : DecimalLike
  pub unexplained_decrease_litres_per_hour : DecimalLike
  pub delivery_min_litres : DecimalLike
  pub delivery_window_minutes : Ratio
  pub stale_after_minutes : Ratio
  pub status : String
  pub created_at : ℤ
  pub updated_at : ℤ

-- The source takes the column for a geometry unseen. The fields of the type are read here, and
-- `none` is a value that has another shape.
unfoldable pub get_number : String → JsonFields → Option Ratio
unfolding get_field
get_number name fields = elim (get_field name fields) [ some (num value) ↦ some value | _ ↦ none ]

abbrev point_of : Option Ratio → Option Ratio → Option StrappingPoint
point_of (some level_mm) (some volume_litres) =
    some (record { level_mm = level_mm; volume_litres = volume_litres })
point_of _ _ = none

abbrev cons_point :
    Option StrappingPoint → Option (List StrappingPoint) → Option (List StrappingPoint)
cons_point (some point) (some points) = some (point ∷ points)
cons_point _ _ = none

unfoldable pub as_points : JsonItems → Option (List StrappingPoint)
unfolding get_number
as_points nil = some []
as_points (item (obj fields) rest) =
    cons_point (point_of (get_number "levelMm" fields) (get_number "volumeLitres" fields))
      (as_points rest)
as_points (item _ rest) = none

abbrev cylinder : (Ratio → Ratio → TankGeometry) → Option Ratio → Option Ratio → Option TankGeometry
cylinder shape (some a) (some b) = some (shape a b)
cylinder shape _ _ = none

abbrev table_of : Option (List StrappingPoint) → Option TankGeometry
table_of none = none
table_of (some points) = some (strapping_table points)

unfoldable pub as_table : Option Json → Option TankGeometry
unfolding as_points
as_table (some (arr items)) = table_of (as_points items)
as_table _ = none

unfoldable pub as_kind : Option Json → JsonFields → Option TankGeometry
unfolding get_number as_table get_field
as_kind (some (str kind)) fields =
    if kind == "vertical-cylinder"
    then cylinder vertical_cylinder (get_number "diameterMm" fields) (get_number "heightMm" fields)
    else if kind == "horizontal-cylinder"
    then cylinder horizontal_cylinder (get_number "diameterMm" fields)
        (get_number "lengthMm" fields)
    else if kind == "strapping-table"
    then as_table (get_field "points" fields)
    else none
as_kind _ fields = none

unfoldable pub as_geometry : Json → Option TankGeometry
unfolding as_kind
as_geometry (obj fields) = as_kind (get_field "kind" fields) fields
as_geometry _ = none

abbrev pub default_geometry : TankGeometry
default_geometry = vertical_cylinder (of_ℕ 2000) (of_ℕ 3000)

-- `row.geometry ?? default`
unfoldable pub geometry_of : Option Json → Option TankGeometry
unfolding as_geometry
geometry_of none = some default_geometry
geometry_of (some Json.null) = some default_geometry
geometry_of (some json) = as_geometry json

module _ (rt : Runtime) (number_of : String → Ratio) where
  unfoldable pub tank_with_geometry : TankRow → TankGeometry → Tank
  unfolding to_number to_domain_fuel_product to_domain_tank_status
  tank_with_geometry row geometry = record {
    id = row.id;
    tenant_id = row.tenant_id;
    station_id = row.station_id;
    name = row.name;
    product = to_domain_fuel_product row.product;
    geometry = geometry;
    capacity_litres = to_number number_of row.capacity_litres;
    thresholds = record {
      critical_low_percent = to_number number_of row.critical_low_percent;
      low_percent = to_number number_of row.low_percent;
      high_percent = to_number number_of row.high_percent;
      water_alarm_mm = to_number number_of row.water_alarm_mm;
      rapid_drop_litres_per_hour = to_number number_of row.unexplained_decrease_litres_per_hour;
      delivery_litres = to_number number_of row.delivery_min_litres;
      delivery_window_minutes = row.delivery_window_minutes;
      stale_after_minutes = row.stale_after_minutes;
    };
    status = to_domain_tank_status row.status;
    calibration_source = row.calibration_source;
    calibration_at = iso_or_null rt row.calibration_at;
    created_at = rt.to_iso row.created_at;
    updated_at = rt.to_iso row.updated_at;
  }

  -- `none` where the geometry has a shape that the type has not.
  unfoldable pub to_domain_tank : TankRow → Option Tank
  unfolding geometry_of tank_with_geometry
  to_domain_tank row = elim (geometry_of row.geometry) [
    | none ↦ none
    | some geometry ↦ some (tank_with_geometry row geometry)
  ]

unfoldable pub points_json : List StrappingPoint → JsonItems
points_json [] = nil
points_json (point ∷ points) =
    item
      (obj
        (field "levelMm" (num point.level_mm) (field "volumeLitres" (num point.volume_litres) end)))
      (points_json points)

unfoldable pub to_prisma_geometry : TankGeometry → Json
unfolding points_json
to_prisma_geometry (vertical_cylinder diameter_mm height_mm) = obj (
    field "kind" (str "vertical-cylinder")
      (field "diameterMm" (num diameter_mm) (field "heightMm" (num height_mm) end)))
to_prisma_geometry (horizontal_cylinder diameter_mm length_mm) = obj (
    field "kind" (str "horizontal-cylinder")
      (field "diameterMm" (num diameter_mm) (field "lengthMm" (num length_mm) end)))
to_prisma_geometry (strapping_table points) =
    obj (field "kind" (str "strapping-table") (field "points" (arr (points_json points)) end))

pub record TankInput : Type 0 where
  pub id : String
  pub tenant_id : String
  pub station_id : String
  pub name : String
  pub product : String
  pub capacity_litres : Ratio
  pub geometry : Json
  pub critical_low_percent : Ratio
  pub low_percent : Ratio
  pub high_percent : Ratio
  pub water_alarm_mm : Ratio
  pub unexplained_decrease_litres_per_hour : Ratio
  pub delivery_min_litres : Ratio
  pub delivery_window_minutes : Ratio
  pub stale_after_minutes : Ratio
  pub status : String
  pub calibration_source : Option String
  pub calibration_at : Option (Option ℤ)

unfoldable pub to_prisma_tank_input : Runtime → Tank → TankInput
unfolding to_prisma_fuel_product to_prisma_geometry to_prisma_tank_status
to_prisma_tank_input rt tank = record {
  id = tank.id;
  tenant_id = tank.tenant_id;
  station_id = tank.station_id;
  name = tank.name;
  product = to_prisma_fuel_product tank.product;
  capacity_litres = tank.capacity_litres;
  geometry = to_prisma_geometry tank.geometry;
  critical_low_percent = tank.thresholds.critical_low_percent;
  low_percent = tank.thresholds.low_percent;
  high_percent = tank.thresholds.high_percent;
  water_alarm_mm = tank.thresholds.water_alarm_mm;
  unexplained_decrease_litres_per_hour = tank.thresholds.rapid_drop_litres_per_hour;
  delivery_min_litres = tank.thresholds.delivery_litres;
  delivery_window_minutes = tank.thresholds.delivery_window_minutes;
  stale_after_minutes = tank.thresholds.stale_after_minutes;
  status = to_prisma_tank_status tank.status;
  calibration_source = tank.calibration_source;
  calibration_at = date_or_null rt tank.calibration_at;
}
