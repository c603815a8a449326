-- ===== src/Tests/Views.antt =====
-- What an operator sees, the audit log and the identifiers.
use mafuta.Base.{
  String, some, none, false, true, not, List, [], ◌∷◌, ◌≡◌, ◌↔◌, refl, Among, All, filter, length,
  arith,
}
use mathlib.Core.Path.{Path}
use mafuta.Base.Int.{pos, ◌+ℤ◌, ◌*ℤ◌}
use mafuta.Base.Ratio.{of_ℕ, math_round, mul_ratio}
use mafuta.Base.Dict.{get}
use mafuta.Effect.{ok}
use mafuta.Domain.Alert.{Metric}
use mafuta.Domain.Audit.{AuditActorType, AuditLogEntry}
use mafuta.Domain.Reading.{TankReading}
use mafuta.Domain.Tank.{FuelProduct, usable_capacity_ml}
use mafuta.Domain.Views.{TankSummary, ProductStock, with_fill_percent, summarise_product_stock}
use mafuta.Domain.Views.Sums.{stock_of, sum}
use mafuta.Domain.Views.Stock.{summarise_product_stock_iff}
use mafuta.Ids.{to_tenant_id}
use mafuta.Ids.Distinct.{to_tenant_id-Apart}
use mafuta.Memory.{World}
use mafuta.Memory.Keys.{Apart}
use mafuta.Services.Audit.{AuditInput, record_audit, is_forbidden_key}
use mafuta.Services.Audit.Scrubbed.{IsClean, keys, record_audit-IsClean}
use mafuta.Services.Dashboard.{DashboardSeriesPoint, bucket_readings}
use mafuta.Services.Dashboard.Buckets.{in_span, reading_total, bucket_readings_lem}
use mafuta.Tests.Samples.{rt, empty_world, depot_tank, no_reading}

abbrev depot_summary : TankSummary
depot_summary = record {
  tank = depot_tank;
  station = none;
  latest_reading = none;
  net_volume_ml = some (pos 500000);
  fill_percent = some (of_ℕ 50);
  free_capacity_ml = some (pos 500000);
  stock_status = none;
  overfill_risk = false;
  open_alert_count = 0;
  highest_open_severity = none;
  data_missing_or_stale = true;
}

abbrev two_summaries : List TankSummary
two_summaries = depot_summary ∷ record depot_summary { net_volume_ml = none } ∷ []

abbrev diesel_stock : ProductStock
diesel_stock = record {
  product = FuelProduct.diesel;
  tank_count = 2;
  capacity_ml = pos 2000000;
  net_volume_ml = pos 500000;
  fill_percent = record { num = pos 250; den_pred = 9 };
  tanks_without_reading = 1;
}

summarise_product_stock_iff_example :
    Among diesel_stock (summarise_product_stock rt two_summaries)
    ↔ (stock_of FuelProduct.diesel two_summaries ≡ some diesel_stock)
summarise_product_stock_iff_example = summarise_product_stock_iff rt two_summaries diesel_stock

diesel_is_listed : Among diesel_stock (summarise_product_stock rt two_summaries)
unfolding with_fill_percent math_round mul_ratio ◌+ℤ◌ ◌*ℤ◌ usable_capacity_ml sum
diesel_is_listed = (summarise_product_stock_iff rt two_summaries diesel_stock).1 refl

abbrev noon_dip : TankReading
noon_dip = record no_reading {
  net_volume_litres = of_ℕ 50;
  recorded_at = "2023-11-14T22:13:20.000Z";
}

bucket_readings_lem_example :
    (points : List DashboardSeriesPoint) × (bucket_readings rt
        (noon_dip ∷ noon_dip ∷ [])
        "2023-11-14T22:13:20.000Z"
        (pos 1700000001000)
        4
      ≡ some points)
    × (length points ≡ 4)
    × (reading_total points
        ≡ length (
            filter (in_span rt (pos 1700000000000) (pos 1700000001000)) (noon_dip ∷ noon_dip ∷ [])))
bucket_readings_lem_example =
    bucket_readings_lem rt (noon_dip ∷ noon_dip ∷ []) "2023-11-14T22:13:20.000Z" (pos 1700000000000)
      (pos 1700000001000) 4 refl (omega arith)

abbrev keep_case : String → String
keep_case text = text

abbrev key_created : AuditInput
key_created = record {
  tenant_id = some "acme";
  action = "api_key.create";
  resource_type = "api_key";
  resource_id = some "key_1";
  actor = record {
    type = AuditActorType.system;
    reference = none;
    device_id = none;
    ip_hash = none;
  };
  metadata = ("name", Metric.text "pump") ∷ ("api_key", Metric.text "ftk_key_1_abc") ∷ [];
}

record_audit-IsClean_example :
    (entry : AuditLogEntry) × (w : World) × (record_audit keep_case rt key_created empty_world
      ≡ (ok (some entry), w))
    × (get entry.id w.store.audit_logs ≡ some entry)
    × (entry.tenant_id ≡ some "acme")
    × (All (IsClean keep_case) entry.metadata)
    × (keys entry.metadata
        ≡ filter (λ key. not (is_forbidden_key keep_case key)) ("name" ∷ "api_key" ∷ []))
record_audit-IsClean_example = record_audit-IsClean keep_case rt key_created empty_world

acme-zenith : ¬ (Path String "acme" "zenith")
acme-zenith e = cc

to_tenant_id-Apart_example : Apart "acme" "zenith"
unfolding to_tenant_id
to_tenant_id-Apart_example =
    to_tenant_id-Apart "acme" "zenith" "acme" "zenith" refl refl acme-zenith
