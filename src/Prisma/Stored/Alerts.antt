-- ===== src/Prisma/Stored/Alerts.antt =====
-- packages/core/src/adapters/prisma/mappers.ts: an alert that is written and read.
use mafuta.Base.{String, Option, some, none, [], ◌∷◌, ◌≡◌, ◌∙◌, ◌==◌, refl, ap, arith, false, All}
use mafuta.Runtime.{Runtime}
use mafuta.Effect.{ok}
use mafuta.Domain.Alert.{
  Alert, AlertType, AlertMetrics, Metric, number, text, boolean, null, low_stock, critical_stock,
  device_offline, stale_data, probe_quality, candidate_delivery, candidate_unexplained_decrease,
  water_level,
}
use mafuta.Prisma.{Json}
use mafuta.Prisma.Alerts.{
  AlertRow, AlertInput, to_domain_alert_type, to_prisma_alert_type, reading_id_metric_key,
  metric_of, metrics_of, reading_id_of, fields_of, metric_json, metrics_fields, set_field,
  with_reading_id, alert_with_type, to_domain_alert, to_prisma_alert_input,
}
use mafuta.Prisma.Stored.{written, IsIso, IsIsoOrNull, to_iso-written, iso_or_null-written}

alert_type_lem : (type : AlertType) → to_domain_alert_type (to_prisma_alert_type type) ≡ ok type
unfolding to_domain_alert_type to_prisma_alert_type
alert_type_lem low_stock = refl
alert_type_lem critical_stock = refl
alert_type_lem device_offline = refl
alert_type_lem stale_data = refl
alert_type_lem probe_quality = refl
alert_type_lem candidate_delivery = refl
alert_type_lem candidate_unexplained_decrease = refl
alert_type_lem water_level = refl

metric_lem : (metric : Metric) → metric_of (metric_json metric) ≡ some metric
unfolding metric_json
metric_lem (number value) = refl
metric_lem (text value) = refl
metric_lem (boolean value) = refl
metric_lem null = refl

-- No metric stands under the key of the reading.
abbrev pub IsFree : AlertMetrics → Type 0
IsFree metrics = All (λ entry. (entry.0 == reading_id_metric_key) ≡ false) metrics

metrics_of-metrics_fields :
    (metrics : AlertMetrics) → IsFree metrics → metrics_of (metrics_fields metrics) ≡ metrics
unfolding metrics_of metrics_fields
metrics_of-metrics_fields [] free = refl
metrics_of-metrics_fields ((key, metric) ∷ metrics) free =
    rw (free.0, metric_lem metric, metrics_of-metrics_fields metrics free.1) refl

metrics_of-set_field :
    (reading_id : String) (metrics : AlertMetrics)
    → IsFree metrics
    → metrics_of (set_field reading_id_metric_key (Json.str reading_id) (metrics_fields metrics))
      ≡ metrics
unfolding metrics_of metrics_fields set_field
metrics_of-set_field reading_id [] free = refl
metrics_of-set_field reading_id ((key, metric) ∷ metrics) free =
    rw (free.0, free.0, metric_lem metric, metrics_of-set_field reading_id metrics free.1) refl

reading_id_of-metrics_fields :
    (metrics : AlertMetrics) → IsFree metrics → reading_id_of (metrics_fields metrics) ≡ none
unfolding reading_id_of metrics_fields
reading_id_of-metrics_fields [] free = refl
reading_id_of-metrics_fields ((key, metric) ∷ metrics) free =
    rw (free.0, reading_id_of-metrics_fields metrics free.1) refl

reading_id_of-set_field :
    (reading_id : String) (metrics : AlertMetrics)
    → IsFree metrics
    → reading_id_of (set_field reading_id_metric_key (Json.str reading_id) (metrics_fields metrics))
      ≡ some reading_id
unfolding reading_id_of metrics_fields set_field
reading_id_of-set_field reading_id [] free = refl
reading_id_of-set_field reading_id ((key, metric) ∷ metrics) free =
    rw (free.0, free.0, reading_id_of-set_field reading_id metrics free.1) refl

with_reading_id_lem :
    (reading_id : Option String) (metrics : AlertMetrics)
    → IsFree metrics
    → (metrics_of (with_reading_id reading_id (metrics_fields metrics)) ≡ metrics)
      × (reading_id_of (with_reading_id reading_id (metrics_fields metrics)) ≡ reading_id)
unfolding with_reading_id
with_reading_id_lem none metrics free =
    (metrics_of-metrics_fields metrics free, reading_id_of-metrics_fields metrics free)
with_reading_id_lem (some reading_id) metrics free =
    (metrics_of-set_field reading_id metrics free, reading_id_of-set_field reading_id metrics free)

pub record IsStored (input : AlertInput) (row : AlertRow) : Type 0 where
  pub same_id : row.id ≡ input.id
  pub same_tenant_id : row.tenant_id ≡ input.tenant_id
  pub same_tank_id : row.tank_id ≡ input.tank_id
  pub same_type : row.type ≡ input.type
  pub same_severity : row.severity ≡ input.severity
  pub same_status : row.status ≡ input.status
  pub same_message : row.message ≡ input.message
  pub same_metrics : row.metrics ≡ Json.obj input.metrics
  pub same_raised_at : input.raised_at ≡ some row.raised_at
  pub same_updated_at : input.updated_at ≡ some row.updated_at
  pub same_acknowledged_at : input.acknowledged_at ≡ written row.acknowledged_at
  pub same_acknowledged_by : row.acknowledged_by_user_id ≡ input.acknowledged_by_user_id
  pub same_assigned_to : row.assigned_to_user_id ≡ input.assigned_to_user_id
  pub same_resolved_at : input.resolved_at ≡ written row.resolved_at
  pub same_resolved_by : row.resolved_by_user_id ≡ input.resolved_by_user_id

module _ (rt : Runtime) where
  -- The dates of an alert are such as the program makes.
  pub record HasDates (alert : Alert) : Type 0 where
    pub raised : IsIso rt alert.raised_at
    pub updated : IsIso rt alert.updated_at
    pub acknowledged : IsIsoOrNull rt alert.acknowledged_at
    pub resolved : IsIsoOrNull rt alert.resolved_at

  -- An alert whose dates toISOString made and with no metric under the key of the reading, written
  -- to a row which holds the columns written, is read back the same.
  pub to_domain_alert-stored :
      (alert : Alert) (row : AlertRow)
      → IsStored (to_prisma_alert_input rt alert) row
      → HasDates alert
      → IsFree alert.metrics
      → to_domain_alert rt row ≡ ok alert
  unfolding to_domain_alert to_prisma_alert_input alert_with_type fields_of
  to_domain_alert-stored alert row stored dates free =
      let type = ap to_domain_alert_type stored.same_type ∙ alert_type_lem alert.type in
      let (metrics, reading_id) = with_reading_id_lem alert.reading_id alert.metrics free in
      let raised_at =
        to_iso-written rt alert.raised_at row.raised_at stored.same_raised_at dates.raised in
      let updated_at =
        to_iso-written rt alert.updated_at row.updated_at stored.same_updated_at dates.updated in
      let acknowledged_at =
        iso_or_null-written rt alert.acknowledged_at row.acknowledged_at stored.same_acknowledged_at
          dates.acknowledged in
      let resolved_at =
        iso_or_null-written rt alert.resolved_at row.resolved_at stored.same_resolved_at
          dates.resolved in
      rw (type, to_domain_alert, stored.same_metrics)
        (ground (arith, metrics, reading_id, raised_at, updated_at, acknowledged_at, resolved_at))
