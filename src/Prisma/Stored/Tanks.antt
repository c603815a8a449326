-- ===== src/Prisma/Stored/Tanks.antt =====
-- packages/core/src/adapters/prisma/mappers.ts: a tank that is written and read.
use mafuta.Base.{String, some, List, [], ◌∷◌, ◌≡◌, refl, ap, ◌∙◌, arith}
use mafuta.Base.Ratio.{Ratio}
use mafuta.Runtime.{Runtime}
use mafuta.Domain.Geometry.{
  TankGeometry, StrappingPoint, vertical_cylinder, horizontal_cylinder, strapping_table,
}
use mafuta.Domain.Tank.{
  Tank, TankStatus, FuelProduct, diesel, petrol_91, petrol_95, kerosene, adblue, active,
  decommissioned,
}
use mafuta.Prisma.{to_number, get_field}
use mafuta.Prisma.Tanks.{
  TankRow, TankInput, to_prisma_fuel_product, to_domain_fuel_product, to_prisma_tank_status,
  to_domain_tank_status, as_points, points_json, geometry_of, to_prisma_geometry,
  to_prisma_tank_input, tank_with_geometry, to_domain_tank,
}
use mafuta.Prisma.Stored.{written, IsIsoOrNull, iso_or_null-written}

fuel_product_lem :
    (product : FuelProduct) → to_domain_fuel_product (to_prisma_fuel_product product) ≡ product
unfolding to_domain_fuel_product to_prisma_fuel_product
fuel_product_lem diesel = refl
fuel_product_lem petrol_91 = refl
fuel_product_lem petrol_95 = refl
fuel_product_lem kerosene = refl
fuel_product_lem adblue = refl

tank_status_lem :
    (status : TankStatus) → to_domain_tank_status (to_prisma_tank_status status) ≡ status
unfolding to_domain_tank_status to_prisma_tank_status
tank_status_lem active = refl
tank_status_lem decommissioned = refl

as_points-points_json :
    (points : List StrappingPoint) → as_points (points_json points) ≡ some points
unfolding as_points points_json get_field
as_points-points_json [] = refl
as_points-points_json (point ∷ points) = rw (as_points-points_json points) refl

geometry_lem :
    (geometry : TankGeometry) → geometry_of (some (to_prisma_geometry geometry)) ≡ some geometry
unfolding geometry_of to_prisma_geometry get_field
geometry_lem (vertical_cylinder diameter_mm height_mm) = refl
geometry_lem (horizontal_cylinder diameter_mm length_mm) = refl
geometry_lem (strapping_table points) = rw (as_points-points_json points) refl

module _ (rt : Runtime) (number_of : String → Ratio) where
  pub record IsStored (input : TankInput) (row : TankRow) : Type 0 where
    pub same_id : row.id ≡ input.id
    pub same_tenant_id : row.tenant_id ≡ input.tenant_id
    pub same_station_id : row.station_id ≡ input.station_id
    pub same_name : row.name ≡ input.name
    pub same_product : row.product ≡ input.product
    pub same_capacity : to_number number_of row.capacity_litres ≡ input.capacity_litres
    pub same_geometry : row.geometry ≡ some input.geometry
    pub same_critical : to_number number_of row.critical_low_percent ≡ input.critical_low_percent
    pub same_low : to_number number_of row.low_percent ≡ input.low_percent
    pub same_high : to_number number_of row.high_percent ≡ input.high_percent
    pub same_water : to_number number_of row.water_alarm_mm ≡ input.water_alarm_mm
    pub same_decrease :
        to_number number_of row.unexplained_decrease_litres_per_hour
        ≡ input.unexplained_decrease_litres_per_hour
    pub same_delivery : to_number number_of row.delivery_min_litres ≡ input.delivery_min_litres
    pub same_window : row.delivery_window_minutes ≡ input.delivery_window_minutes
    pub same_stale : row.stale_after_minutes ≡ input.stale_after_minutes
    pub same_status : row.status ≡ input.status
    pub same_source : row.calibration_source ≡ input.calibration_source
    pub same_calibration : input.calibration_at ≡ written row.calibration_at

  -- A tank that is written to a row which holds the columns written, with a calibration date that
  -- toISOString made, is read back the same, but for the dates of creation and change, which are
  -- those of the row.
  pub to_domain_tank-stored :
      (tank : Tank) (row : TankRow)
      → IsStored (to_prisma_tank_input rt tank) row
      → IsIsoOrNull rt tank.calibration_at
      → to_domain_tank rt number_of row
        ≡ some (record tank {
          created_at = rt.to_iso row.created_at;
          updated_at = rt.to_iso row.updated_at;
        })
  unfolding to_domain_tank to_prisma_tank_input tank_with_geometry
  to_domain_tank-stored tank row stored iso =
      let product = ap to_domain_fuel_product stored.same_product ∙ fuel_product_lem tank.product in
      let status = ap to_domain_tank_status stored.same_status ∙ tank_status_lem tank.status in
      let calibration =
        iso_or_null-written rt tank.calibration_at row.calibration_at stored.same_calibration iso in
      let geometry = ap geometry_of stored.same_geometry ∙ geometry_lem tank.geometry in
      rw (geometry, to_domain_tank) (ground (arith, product, status, calibration))
