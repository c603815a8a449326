-- ===== src/Tests/Prisma.antt =====
-- A tank, a reading and an alert that are written to the database and read back.
use mafuta.Base.{String, some, none, true, [], ◌∷◌, ◌≡◌, refl}
use mafuta.Base.Int.{pos}
use mafuta.Base.Ratio.{Ratio, of_ℕ}
use mafuta.Effect.{ok}
use mafuta.Domain.Quantity.{ml_to_litres}
use mafuta.Domain.Reading.{TankReading, source_protocol_for_source}
use mafuta.Domain.Alert.{Alert, Metric}
use mafuta.Prisma.{Json, DecimalLike, to_number, to_number_or_null}
use mafuta.Prisma.Tanks.{TankRow, to_prisma_tank_input, to_domain_tank}
use mafuta.Prisma.Readings.{
  ReadingRow, to_prisma_reading_input, to_domain_reading, quality_reason_from,
}
use mafuta.Prisma.Alerts.{AlertRow, to_prisma_alert_input, to_domain_alert}
use mafuta.Prisma.Stored.Tanks.{to_domain_tank-stored}
use mafuta.Prisma.Stored.Readings.{to_domain_reading-stored}
use mafuta.Prisma.Stored.Alerts.{to_domain_alert-stored}
use mafuta.Tests.Samples.{rt, depot_tank, no_reading, low_alert}

-- The instant of every date of the runtime, its text, and a reader of decimals.
abbrev noon : String
noon = "2023-11-14T22:13:20.000Z"

abbrev no_decimal : String → Ratio
no_decimal text = of_ℕ 0

abbrev tank_row : TankRow
unfolding to_prisma_tank_input
tank_row =
    let input = to_prisma_tank_input rt depot_tank in
    record {
      id = "tank-1";
      tenant_id = "acme";
      station_id = "stn-1";
      name = "T1";
      product = input.product;
      capacity_litres = DecimalLike.number input.capacity_litres;
      geometry = some input.geometry;
      critical_low_percent = DecimalLike.number input.critical_low_percent;
      low_percent = DecimalLike.number input.low_percent;
      high_percent = DecimalLike.number input.high_percent;
      water_alarm_mm = DecimalLike.number input.water_alarm_mm;
      unexplained_decrease_litres_per_hour =
          DecimalLike.number input.unexplained_decrease_litres_per_hour;
      delivery_min_litres = DecimalLike.decimal input.delivery_min_litres;
      delivery_window_minutes = input.delivery_window_minutes;
      stale_after_minutes = input.stale_after_minutes;
      status = input.status;
      calibration_source = none;
      calibration_at = none;
      created_at = pos 1700000000000;
      updated_at = pos 1700000000000;
    }

to_domain_tank-stored_example :
    to_domain_tank rt no_decimal tank_row
    ≡ some (record depot_tank { created_at = noon; updated_at = noon })
unfolding tank_row to_prisma_tank_input to_number to_number_or_null ml_to_litres
to_domain_tank-stored_example =
    to_domain_tank-stored rt no_decimal depot_tank tank_row
      (record {
        same_id = refl;
        same_tenant_id = refl;
        same_station_id = refl;
        same_name = refl;
        same_product = refl;
        same_capacity = refl;
        same_geometry = refl;
        same_critical = refl;
        same_low = refl;
        same_high = refl;
        same_water = refl;
        same_decrease = refl;
        same_delivery = refl;
        same_window = refl;
        same_stale = refl;
        same_status = refl;
        same_source = refl;
        same_calibration = refl;
      })
      tt

abbrev dip : TankReading
dip = record no_reading {
  id = "rdg-1";
  tenant_id = "acme";
  tank_id = "tank-1";
  recorded_at = noon;
  received_at = noon;
  net_volume_litres = of_ℕ 50;
  idempotency_key = "key";
}

abbrev reading_row : ReadingRow
unfolding to_prisma_reading_input
reading_row =
    let input = to_prisma_reading_input rt dip in
    record {
      id = "rdg-1";
      tenant_id = "acme";
      tank_id = "tank-1";
      device_id = none;
      recorded_at = pos 1700000000000;
      received_at = pos 1700000000000;
      level_mm = DecimalLike.decimal input.level_mm;
      water_level_mm = some (DecimalLike.decimal input.water_level_mm);
      volume_litres = DecimalLike.decimal (of_ℕ 50);
      temperature_c = none;
      provenance = input.provenance;
      quality_status = input.quality_status;
      freshness_status = input.freshness_status;
      source_protocol = input.source_protocol;
      idempotency_key = "key";
      raw_message_id = none;
    }

to_domain_reading-stored_example : to_domain_reading rt no_decimal reading_row ≡ record dip {
  gross_volume_litres = of_ℕ 50;
  signal_quality_percent = none;
  quality_reason = quality_reason_from dip.quality;
}
unfolding reading_row to_prisma_reading_input source_protocol_for_source to_number to_number_or_null
    ml_to_litres
to_domain_reading-stored_example =
    to_domain_reading-stored rt no_decimal dip reading_row
      (record {
        same_id = refl;
        same_tenant_id = refl;
        same_tank_id = refl;
        same_device_id = refl;
        same_recorded_at = refl;
        same_received_at = refl;
        same_level = refl;
        same_water = refl;
        same_volume = refl;
        same_temperature = refl;
        same_provenance = refl;
        same_quality = refl;
        same_freshness = refl;
        same_protocol = refl;
        same_key = refl;
        same_raw_message_id = refl;
      })
      (pos 1700000000000, refl, refl) (pos 1700000000000, refl, refl) refl

abbrev measured_alert : Alert
measured_alert = record low_alert {
  raised_at = noon;
  updated_at = noon;
  reading_id = some "rdg-1";
  metrics = ("percent", Metric.number (of_ℕ 5)) ∷ ("probe", Metric.boolean true) ∷ [];
}

abbrev alert_row : AlertRow
unfolding to_prisma_alert_input
alert_row =
    let input = to_prisma_alert_input rt measured_alert in
    record {
      id = "alt-1";
      tenant_id = "acme";
      tank_id = some "tank-1";
      type = input.type;
      severity = input.severity;
      status = input.status;
      message = input.message;
      metrics = Json.obj input.metrics;
      raised_at = pos 1700000000000;
      updated_at = pos 1700000000000;
      acknowledged_at = none;
      acknowledged_by_user_id = none;
      assigned_to_user_id = none;
      resolved_at = none;
      resolved_by_user_id = none;
    }

to_domain_alert-stored_example : to_domain_alert rt alert_row ≡ ok measured_alert
unfolding alert_row to_prisma_alert_input to_number to_number_or_null ml_to_litres
to_domain_alert-stored_example =
    to_domain_alert-stored rt measured_alert alert_row
      (record {
        same_id = refl;
        same_tenant_id = refl;
        same_tank_id = refl;
        same_type = refl;
        same_severity = refl;
        same_status = refl;
        same_message = refl;
        same_metrics = refl;
        same_raised_at = refl;
        same_updated_at = refl;
        same_acknowledged_at = refl;
        same_acknowledged_by = refl;
        same_assigned_to = refl;
        same_resolved_at = refl;
        same_resolved_by = refl;
      })
      (record {
        raised = (pos 1700000000000, refl, refl);
        updated = (pos 1700000000000, refl, refl);
        acknowledged = tt;
        resolved = tt;
      })
      (refl, (refl, tt))
