-- ===== src/Domain/Alert.antt =====
-- packages/core/src/domain/alert.ts
use mafuta.Base.{Bool, true, false, String, Option, List, ◌||◌}
use mafuta.Base.Ratio.{Ratio}
use mafuta.Domain.Event.{FuelEventType}

pub data AlertType : Type 0 where
  low_stock critical_stock device_offline stale_data probe_quality : AlertType
  candidate_delivery candidate_unexplained_decrease water_level : AlertType

pub data AlertSeverity : Type 0 where
  info warning critical : AlertSeverity

pub data AlertStatus : Type 0 where
  opened acknowledged resolved : AlertStatus

abbrev pub alert_type_text : AlertType → String
alert_type_text low_stock = "low_stock"
alert_type_text critical_stock = "critical_stock"
alert_type_text device_offline = "device_offline"
alert_type_text stale_data = "stale_data"
alert_type_text probe_quality = "probe_quality"
alert_type_text candidate_delivery = "candidate_delivery"
alert_type_text candidate_unexplained_decrease = "candidate_unexplained_decrease"
alert_type_text water_level = "water_level"

abbrev pub same_alert_status : AlertStatus → AlertStatus → Bool
same_alert_status opened opened = true
same_alert_status acknowledged acknowledged = true
same_alert_status resolved resolved = true
same_alert_status _ _ = false

pub data Metric : Type 0 where
  number : Ratio → Metric
  text : String → Metric
  boolean : Bool → Metric
  null : Metric

abbrev pub AlertMetrics : Type 0
AlertMetrics = List (String × Metric)

pub record Alert : Type 0 where
  pub id : String
  pub tenant_id : String
  pub tank_id : Option String
  pub type : AlertType
  pub severity : AlertSeverity
  pub status : AlertStatus
  pub message : String
  pub raised_at : String
  pub updated_at : String
  pub reading_id : Option String
  pub acknowledged_at : Option String
  pub acknowledged_by : Option String
  pub assigned_to : Option String
  pub resolved_at : Option String
  pub resolved_by : Option String
  pub metrics : AlertMetrics

pub record AlertDraft : Type 0 where
  pub tank_id : Option String
  pub type : AlertType
  pub severity : AlertSeverity
  pub message : String
  pub reading_id : Option String
  pub metrics : AlertMetrics

abbrev pub is_open_alert : Alert → Bool
is_open_alert alert =
    same_alert_status alert.status opened || same_alert_status alert.status acknowledged

-- `alertTypeForEventType`
unfoldable pub alert_type_for_event_type : FuelEventType → AlertType
alert_type_for_event_type FuelEventType.candidate_delivery = AlertType.candidate_delivery
alert_type_for_event_type FuelEventType.candidate_unexplained_decrease =
    AlertType.candidate_unexplained_decrease
