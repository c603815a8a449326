-- ===== src/Prisma/Alerts.antt =====
-- packages/core/src/adapters/prisma/mappers.ts: alerts. The id of the reading stands in the JSON of
-- the metrics. An object has each key once.
use mafuta.Base.{ℕ, suc, String, Option, none, some, [], ◌∷◌, ◌==◌, if◌then◌else◌, template}
use mafuta.Base.Int.{ℤ, pos}
use mafuta.Runtime.{Runtime}
use mafuta.Errors.{other}
use mafuta.Effect.{Result, ok, err}
use mafuta.Domain.Alert.{
  Alert, AlertType, AlertSeverity, AlertStatus, AlertMetrics, Metric, number, text, boolean, null,
  alert_type_text, low_stock, critical_stock, device_offline, stale_data, probe_quality,
  candidate_delivery, candidate_unexplained_decrease, water_level,
}
use mafuta.Prisma.{
  Json, JsonItems, JsonFields, nil, item, end, field, iso_or_null, to_date, date_or_null,
}

unfoldable pub to_domain_alert_type : String → Result AlertType
unfolding template
to_domain_alert_type type =
    if type == "low_stock"
    then ok low_stock
    else if type == "critical_stock"
    then ok critical_stock
    else if type == "device_offline"
    then ok device_offline
    else if type == "stale_data"
    then ok stale_data
    else if type == "probe_quality"
    then ok probe_quality
    else if type == "candidate_delivery"
    then ok candidate_delivery
    else if type == "candidate_unexplained_decrease"
    then ok candidate_unexplained_decrease
    else if type == "water_level"
    then ok water_level
    else err (other (template ("Unknown alert type in storage: " ∷ type ∷ [])))

-- Every value of the type is in `ALERT_TYPES`.
unfoldable pub to_prisma_alert_type : AlertType → String
to_prisma_alert_type type = alert_type_text type

abbrev pub reading_id_metric_key : String
reading_id_metric_key = "_readingId"

abbrev pub metric_of : Json → Option Metric
metric_of (Json.num value) = some (number value)
metric_of (Json.str value) = some (text value)
metric_of (Json.bool value) = some (boolean value)
metric_of Json.null = some null
metric_of _ = none

abbrev pub cons_metric : String → Option Metric → AlertMetrics → AlertMetrics
cons_metric key none metrics = metrics
cons_metric key (some metric) metrics = (key, metric) ∷ metrics

abbrev text_or_null : Json → Option String
text_or_null (Json.str value) = some value
text_or_null _ = none

-- The two results of `readMetrics`.
unfoldable pub metrics_of : JsonFields → AlertMetrics
metrics_of end = []
metrics_of (field key value rest) =
    let metrics = metrics_of rest in
    if key == reading_id_metric_key then metrics else cons_metric key (metric_of value) metrics

unfoldable pub reading_id_of : JsonFields → Option String
reading_id_of end = none
reading_id_of (field key value rest) =
    let later = reading_id_of rest in
    if key == reading_id_metric_key then text_or_null value else later

-- `Object.entries` of an array, whose keys are the indices from `index` on.
items_fields : Runtime → ℕ → JsonItems → JsonFields
items_fields rt index nil = end
items_fields rt index (item value rest) =
    field (rt.int_text (pos index)) value (items_fields rt (suc index) rest)

-- `Object.entries` of an object or an array, and nothing for any other value.
unfoldable pub fields_of : Runtime → Json → JsonFields
unfolding items_fields
fields_of rt (Json.obj fields) = fields
fields_of rt (Json.arr items) = items_fields rt 0 items
fields_of rt _ = end

pub record AlertRow : Type 0 where
  pub id : String
  pub tenant_id : String
  pub tank_id : Option String
  pub type : String
  pub severity : AlertSeverity
  pub status : AlertStatus
  pub message : String
  pub metrics : Json
  pub raised_at : ℤ
  pub updated_at : ℤ
  pub acknowledged_at : Option ℤ
  pub acknowledged_by_user_id : Option String
  pub assigned_to_user_id : Option String
  pub resolved_at : Option ℤ
  pub resolved_by_user_id : Option String

unfoldable pub alert_with_type : Runtime → AlertRow → AlertType → Alert
unfolding metrics_of reading_id_of fields_of
alert_with_type rt row type = record {
  id = row.id;
  tenant_id = row.tenant_id;
  tank_id = row.tank_id;
  type = type;
  severity = row.severity;
  status = row.status;
  message = row.message;
  raised_at = rt.to_iso row.raised_at;
  updated_at = rt.to_iso row.updated_at;
  reading_id = reading_id_of (fields_of rt row.metrics);
  acknowledged_at = iso_or_null rt row.acknowledged_at;
  acknowledged_by = row.acknowledged_by_user_id;
  assigned_to = row.assigned_to_user_id;
  resolved_at = iso_or_null rt row.resolved_at;
  resolved_by = row.resolved_by_user_id;
  metrics = metrics_of (fields_of rt row.metrics);
}

unfoldable pub to_domain_alert : Runtime → AlertRow → Result Alert
unfolding alert_with_type to_domain_alert_type
to_domain_alert rt row = elim (to_domain_alert_type row.type) [
  | err e ↦ err e
  | ok type ↦ ok (alert_with_type rt row type)
]

unfoldable pub metric_json : Metric → Json
metric_json (number value) = Json.num value
metric_json (text value) = Json.str value
metric_json (boolean value) = Json.bool value
metric_json null = Json.null

-- `{ ...alert.metrics }`
unfoldable pub metrics_fields : AlertMetrics → JsonFields
unfolding metric_json
metrics_fields [] = end
metrics_fields ((key, metric) ∷ metrics) = field key (metric_json metric) (metrics_fields metrics)

-- `metrics[key] = value`
unfoldable pub set_field : String → Json → JsonFields → JsonFields
set_field key value end = field key value end
set_field key value (field other_key other_value rest) =
    let later = set_field key value rest in
    if other_key == key then field other_key value rest else field other_key other_value later

unfoldable pub with_reading_id : Option String → JsonFields → JsonFields
unfolding set_field
with_reading_id none fields = fields
with_reading_id (some reading_id) fields =
    set_field reading_id_metric_key (Json.str reading_id) fields

pub record AlertInput : Type 0 where
  pub id : String
  pub tenant_id : String
  pub tank_id : Option String
  pub type : String
  pub severity : AlertSeverity
  pub status : AlertStatus
  pub message : String
  pub metrics : JsonFields
  pub raised_at : Option ℤ
  pub acknowledged_at : Option (Option ℤ)
  pub acknowledged_by_user_id : Option String
  pub assigned_to_user_id : Option String
  pub resolved_at : Option (Option ℤ)
  pub resolved_by_user_id : Option String
  pub updated_at : Option ℤ

unfoldable pub to_prisma_alert_input : Runtime → Alert → AlertInput
unfolding with_reading_id metrics_fields to_prisma_alert_type
to_prisma_alert_input rt alert = record {
  id = alert.id;
  tenant_id = alert.tenant_id;
  tank_id = alert.tank_id;
  type = to_prisma_alert_type alert.type;
  severity = alert.severity;
  status = alert.status;
  message = alert.message;
  metrics = with_reading_id alert.reading_id (metrics_fields alert.metrics);
  raised_at = to_date rt alert.raised_at;
  acknowledged_at = date_or_null rt alert.acknowledged_at;
  acknowledged_by_user_id = alert.acknowledged_by;
  assigned_to_user_id = alert.assigned_to;
  resolved_at = date_or_null rt alert.resolved_at;
  resolved_by_user_id = alert.resolved_by;
  updated_at = to_date rt alert.updated_at;
}
