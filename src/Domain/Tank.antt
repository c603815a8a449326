-- ===== src/Domain/Tank.antt =====
-- packages/core/src/domain/tank.ts
use mafuta.Base.{Bool, true, false, ◌&&◌, not, String, Option, if◌then◌else◌}
use mafuta.Base.Int.{ℤ, pos, ◌-ℤ◌, leb_ℤ}
use mafuta.Base.Ratio.{Ratio, over, of_ℕ, lt_ratio, le_ratio, add_ratio}
use mafuta.Runtime.{Runtime}
use mafuta.Domain.Quantity.{litres_to_ml, percent_of}
use mafuta.Domain.Geometry.{TankGeometry, tank_capacity_litres}

pub data FuelProduct : Type 0 where
  diesel petrol_91 petrol_95 kerosene adblue : FuelProduct

pub data TankStatus : Type 0 where
  active decommissioned : TankStatus

abbrev pub is_active_status : TankStatus → Bool
is_active_status active = true
is_active_status decommissioned = false

abbrev pub same_tank_status : TankStatus → TankStatus → Bool
same_tank_status active active = true
same_tank_status decommissioned decommissioned = true
same_tank_status _ _ = false

pub record TankThresholds : Type 0 where
  pub critical_low_percent : Ratio
  pub low_percent : Ratio
  pub high_percent : Ratio
  pub water_alarm_mm : Ratio
  pub rapid_drop_litres_per_hour : Ratio
  pub delivery_litres : Ratio
  pub delivery_window_minutes : Ratio
  pub stale_after_minutes : Ratio

abbrev pub default_tank_thresholds : TankThresholds
default_tank_thresholds = record {
  critical_low_percent = of_ℕ 10;
  low_percent = of_ℕ 20;
  high_percent = of_ℕ 95;
  water_alarm_mm = of_ℕ 50;
  rapid_drop_litres_per_hour = of_ℕ 400;
  delivery_litres = of_ℕ 300;
  delivery_window_minutes = of_ℕ 30;
  stale_after_minutes = of_ℕ 60;
}

pub record Tank : Type 0 where
  pub id : String
  pub tenant_id : String
  pub station_id : String
  pub name : String
  pub product : FuelProduct
  pub geometry : TankGeometry
  pub capacity_litres : Ratio
  pub thresholds : TankThresholds
  pub status : TankStatus
  pub calibration_source : Option String
  pub calibration_at : Option String
  pub created_at : String
  pub updated_at : String

unfoldable pub is_tank_active : Tank → Bool
is_tank_active tank = is_active_status tank.status && not (le_ratio tank.capacity_litres (of_ℕ 0))

unfoldable pub usable_capacity_ml : Tank → ℤ
unfolding litres_to_ml
usable_capacity_ml tank = litres_to_ml tank.capacity_litres

unfoldable pub fill_percent_ml : Tank → ℤ → Ratio
unfolding percent_of usable_capacity_ml
fill_percent_ml tank net_volume_ml = percent_of net_volume_ml (usable_capacity_ml tank)

pub data StockStatus : Type 0 where
  critical low normal high : StockStatus

unfoldable pub stock_status : Tank → ℤ → StockStatus
stock_status tank net_volume_ml =
    let percent = fill_percent_ml tank net_volume_ml in
    if le_ratio percent tank.thresholds.critical_low_percent
    then critical
    else if le_ratio percent tank.thresholds.low_percent
    then low
    else if le_ratio tank.thresholds.high_percent percent
    then high
    else normal

unfoldable pub free_capacity_ml : Tank → ℤ → ℤ
free_capacity_ml tank net_volume_ml =
    let free = usable_capacity_ml tank -ℤ net_volume_ml in
    if leb_ℤ free (pos 0) then pos 0 else free

-- False where `assertCapacityWithinGeometry` throws its RangeError.
unfoldable pub is_capacity_within_geometry : Runtime → Ratio → TankGeometry → Bool
unfolding add_ratio
is_capacity_within_geometry rt capacity_litres geometry =
    not (lt_ratio (add_ratio (tank_capacity_litres rt geometry) (over (pos 1) 2)) capacity_litres)
