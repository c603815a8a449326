-- ===== src/Services/Rules.antt =====
-- packages/core/src/services/ingest-service.ts: `runRules`, which ingestion and the sweep share.
pub mod Moves
pub mod Settled
use mafuta.Base.{ℕ, String, Option, some, none, List, [], ◌∷◌, ◌++◌, map, template}
use mafuta.Base.Int.{ℤ, abs}
use mafuta.Base.Ratio.{Ratio, of_ℕ, of_ℤ}
use mafuta.Runtime.{Runtime}
use mafuta.Effect.{Action, pure, for_each, ◌>>=◌}
use mafuta.Domain.Quantity.{ml_to_litres}
use mafuta.Domain.Tank.{Tank}
use mafuta.Domain.Reading.{TankReading}
use mafuta.Domain.Device.{Device, DeviceAssignment}
use mafuta.Domain.Event.{FuelEvent, FuelEventType}
use mafuta.Domain.Alert.{
  Alert, AlertDraft, AlertSeverity, info, warning, resolved, number, text,
  alert_type_for_event_type,
}
use mafuta.Alerts.Engine.{TankDeviceOnTank, evaluate_tank_alerts}
use mafuta.Alerts.Selection.{select_new_alert_drafts, select_resolved_alerts, materialize_alert}
use mafuta.Memory.{World, now, new_id}
use mafuta.Memory.Devices
use mafuta.Memory.Assignments
use mafuta.Memory.Alerts
use mafuta.Services.Events.{detect_and_record, candidate_events}

pub record IngestConfig : Type 0 where
  pub recent_reading_count : ℕ
  pub max_future_skew_minutes : Ratio
  pub device_offline_after_minutes : Ratio

abbrev pub default_ingest_config : IngestConfig
default_ingest_config = record {
  recent_reading_count = 32;
  max_future_skew_minutes = of_ℕ 10;
  device_offline_after_minutes = of_ℕ 30;
}

pub record RulesOutcome : Type 0 where
  pub raised_alerts : List Alert
  pub resolved_alerts : List Alert
  pub raised_events : List FuelEvent

abbrev event_severity : FuelEventType → AlertSeverity
event_severity FuelEventType.candidate_delivery = info
event_severity FuelEventType.candidate_unexplained_decrease = warning

unfoldable pub event_message : FuelEventType → String → String
event_message FuelEventType.candidate_delivery litres =
    template ("Candidate delivery of " ∷ litres ∷ " L awaiting confirmation" ∷ [])
event_message FuelEventType.candidate_unexplained_decrease litres =
    template ("Candidate unexplained decrease of " ∷ litres ∷ " L awaiting investigation" ∷ [])

abbrev with_device :
    DeviceAssignment → Option Device → List TankDeviceOnTank → List TankDeviceOnTank
with_device assignment none rest = rest
with_device assignment (some found) rest = record { device = found; assignment = assignment } ∷ rest

module _ (rt : Runtime) where
  -- The draft of the alert that stands for a candidate event.
  unfoldable pub event_draft : FuelEvent → AlertDraft
  event_draft event =
      let litres = rt.to_fixed (ml_to_litres (abs event.volume_change_ml)) 0 in
      record {
        tank_id = some event.tank_id;
        type = alert_type_for_event_type event.type;
        severity = event_severity event.type;
        message = event_message event.type litres;
        reading_id = event.evidence.last_reading_id;
        metrics =
            ("eventId", text event.id)
            ∷ ("confidence", number event.confidence)
            ∷ ("volumeChangeMl", number (of_ℤ event.volume_change_ml))
            ∷ [];
      }

  -- Loads the device of each assignment; one that is gone is left out.
  unfoldable pub load_assigned :
      String → List DeviceAssignment → Action World (List TankDeviceOnTank)
  load_assigned tenant_id [] = pure []
  load_assigned tenant_id (assignment ∷ rest) = do
    found ← Devices.find_by_id tenant_id assignment.device_id
    others ← load_assigned tenant_id rest
    pure (with_device assignment found others)

  unfoldable pub assigned_devices : String → String → Action World (List TankDeviceOnTank)
  assigned_devices tenant_id tank_id = do
    assignments ← Assignments.list_active_by_tank rt tenant_id tank_id
    load_assigned tenant_id assignments

  unfoldable pub raise_draft : String → ℤ → AlertDraft → Action World Alert
  raise_draft tenant_id at draft = do
    id ← new_id rt "alt"
    Alerts.save tenant_id (materialize_alert rt draft tenant_id at id)

  unfoldable pub resolved_by_system : ℤ → Alert → Alert
  resolved_by_system at alert = record alert {
    status = resolved;
    resolved_at = some (rt.to_iso at);
    resolved_by = some "system";
    updated_at = rt.to_iso at;
  }

  -- Returns the alerts raised, and those resolved as they were before.
  unfoldable pub apply_drafts :
      String → ℤ → List AlertDraft → List Alert → Action World (List Alert × List Alert)
  apply_drafts tenant_id at drafts open_alerts = do
    raised ← for_each (raise_draft tenant_id at) (select_new_alert_drafts drafts open_alerts)
    updated ←
        for_each (λ stale. Alerts.update tenant_id (resolved_by_system at stale))
          (select_resolved_alerts drafts open_alerts)
    pure (raised, select_resolved_alerts drafts open_alerts)

  module _ (config : IngestConfig) where
    unfoldable pub evaluate_alerts :
        String → Tank → List TankReading → Action World (List Alert × List Alert)
    evaluate_alerts tenant_id tank ascending = do
      assigned ← assigned_devices tenant_id tank.id
      evaluated_at ← now rt
      let evaluation = evaluate_tank_alerts rt (record {
        tenant_id = tenant_id;
        tank = tank;
        readings = ascending;
        now = evaluated_at;
        assigned_devices = assigned;
        device_offline_after_minutes = config.device_offline_after_minutes;
        consecutive_invalid_for_fault = none;
      })
      at ← now rt
      events ← candidate_events rt tenant_id tank.id
      open_alerts ← Alerts.list_open_by_tank rt tenant_id tank.id
      apply_drafts tenant_id at (evaluation.drafts ++ map event_draft events) open_alerts

    -- Called with the events just recorded, if there are any.
    unfoldable pub raise_event_alerts : String → String → List FuelEvent → Action World (List Alert)
    raise_event_alerts tenant_id tank_id [] = pure []
    raise_event_alerts tenant_id tank_id (event ∷ events) = do
      at ← now rt
      open_alerts ← Alerts.list_open_by_tank rt tenant_id tank_id
      for_each (raise_draft tenant_id at)
          (select_new_alert_drafts (map event_draft (event ∷ events)) open_alerts)

    unfoldable pub run_rules : String → Tank → List TankReading → Action World RulesOutcome
    run_rules tenant_id tank readings_ascending = do
      alert_outcome ← evaluate_alerts tenant_id tank readings_ascending
      raised_events ← detect_and_record rt tenant_id tank readings_ascending
      event_alerts ← raise_event_alerts tenant_id tank.id raised_events
      pure (record {
        raised_alerts = alert_outcome.0 ++ event_alerts;
        resolved_alerts = alert_outcome.1;
        raised_events = raised_events;
      })
