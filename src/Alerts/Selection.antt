-- ===== src/Alerts/Selection.antt =====
-- packages/core/src/alerts/alert-engine.ts: which drafts are new, which open alerts are over, and
-- how a draft becomes an alert.
pub mod Complete
pub mod Keys
use mafuta.Base.{String, Option, some, none, not, List, [], ◌∷◌, ◌==◌, filter, any, template}
use mafuta.Base.Int.{ℤ}
use mafuta.Runtime.{Runtime}
use mafuta.Domain.Alert.{Alert, AlertDraft, AlertType, alert_type_text, opened}

abbrev tank_part : Option String → String
tank_part none = "tenant"
tank_part (some tank_id) = tank_id

unfoldable pub alert_key : Option String → AlertType → String
unfolding template
alert_key tank_id type = template (tank_part tank_id ∷ ":" ∷ alert_type_text type ∷ [])

abbrev pub key_of_draft : AlertDraft → String
key_of_draft candidate = alert_key candidate.tank_id candidate.type

abbrev pub key_of_alert : Alert → String
key_of_alert alert = alert_key alert.tank_id alert.type

unfoldable pub select_new_alert_drafts : List AlertDraft → List Alert → List AlertDraft
select_new_alert_drafts drafts open_alerts =
    filter (λ c. not (any (λ a. key_of_alert a == key_of_draft c) open_alerts)) drafts

unfoldable pub select_resolved_alerts : List AlertDraft → List Alert → List Alert
select_resolved_alerts drafts open_alerts =
    filter (λ a. not (any (λ c. key_of_draft c == key_of_alert a) drafts)) open_alerts

unfoldable pub materialize_alert : Runtime → AlertDraft → String → ℤ → String → Alert
materialize_alert rt draft tenant_id now id = record {
  id = id;
  tenant_id = tenant_id;
  tank_id = draft.tank_id;
  type = draft.type;
  severity = draft.severity;
  status = opened;
  message = draft.message;
  raised_at = rt.to_iso now;
  updated_at = rt.to_iso now;
  reading_id = draft.reading_id;
  acknowledged_at = none;
  acknowledged_by = none;
  assigned_to = none;
  resolved_at = none;
  resolved_by = none;
  metrics = draft.metrics;
}
