-- ===== src/Tests/Samples.antt =====
-- A runtime, and entities and states of the store.
use mafuta.Base.{none, some, false, [], ◌∷◌}
use mafuta.Base.Int.{pos, ◌*ℤ◌, ◌-ℤ◌, ◌+ℤ◌}
use mafuta.Base.Ratio.{of_ℕ}
use mafuta.Runtime.{Runtime}
use mafuta.Effect.{Result, ok, err, ◌>>=◌, or_else, for_each}
use mafuta.Domain.Normalize.{normalize_probe_sample}
use mafuta.Domain.Reading.{
  ReadingSource, ReadingQuality, ReadingProvenance, SourceProtocol, fresh, TankReading,
}
use mafuta.Domain.Tank.{Tank, default_tank_thresholds, FuelProduct, TankStatus}
use mafuta.Domain.Geometry.{strapping_table}
use mafuta.Memory.{World, create_memory_store, scoped_key, now, new_id}
use mafuta.Memory.Stations
use mafuta.Memory.Tanks
use mafuta.Memory.Readings
use mafuta.Memory.Alerts
use mafuta.Memory.Devices
use mafuta.Memory.Assignments
use mafuta.Memory.Events
use mafuta.Memory.Deliveries
use mafuta.Memory.RawMessages
use mafuta.Base.{template}
use mafuta.Base.Dict.{get, set, values}
use mafuta.Base.Sort.{sort}
use mafuta.Tenancy.Guard.{assert_owned_by_tenant}
use mafuta.Memory.{clamp_limit}
use mafuta.Alerts.Engine.{
  evaluate_tank_alerts, evaluate_device_alerts, stock_drafts, water_drafts, suspect_drafts,
  fault_drafts, stale_drafts,
}
use mafuta.Alerts.Selection.{
  alert_key, select_new_alert_drafts, select_resolved_alerts, materialize_alert,
}
use mafuta.Events.Detection.{detect_tank_events}
use mafuta.Domain.Tank.{fill_percent_ml}
use mafuta.Domain.Reading.{net_volume_ml}
use mafuta.Domain.Event.{FuelEvent, FuelEventType, FuelEventStatus, DataQuality}
use mafuta.Domain.Alert.{Alert, AlertType, AlertSeverity, AlertStatus}
use mafuta.Services.Events.{
  detect_and_record, candidate_events, require_event, check_confirmable, write_confirmation,
  confirmed_delivery, confirmed_event, confirm,
}
use mafuta.Services.Sources
use mafuta.Services.Rules
use mafuta.Services.Ingest
use mafuta.Services.Ingest.{IngestResult}
use mafuta.Services.Rules.{IngestConfig, default_ingest_config}
use mafuta.Services.Ingest.{ingest}
use mafuta.Services.Calls.{Call, perform, run, create_station_call}
use mafuta.Services.Devices.{mark_seen, given_or_new_id}
use mafuta.Services.Fleet.{
  require_alert, resolved_alert, resolve_alert, acknowledged_alert, acknowledge_alert,
  create_station, refuse_used_code,
}

abbrev pub rt : Runtime
rt = record {
  clock = λ n. pos 1700000000000;
  uuid = λ n. "0001";
  date_parse = λ s. some (pos 1700000000000);
  to_iso = λ t. "2023-11-14T22:13:20.000Z";
  sha256_48 = λ s. s;
  int_text = λ t. "n";
  number_text = λ x. "x";
  to_fixed = λ x n. "x";
  json_text = λ s. s;
  locale_after = λ a b. false;
  string_before = λ a b. false;
  pi = of_ℕ 3;
  acos = λ x. of_ℕ 0;
  sqrt = λ x. x;
}

abbrev pub empty_world : World
empty_world = record { store = create_memory_store; clock_reads = 0; uuid_draws = 0 }

abbrev pub new_station : Call
new_station =
    create_station_call (record { id = none; name = "Depot"; code = "D1"; timezone = none })

abbrev pub depot_tank : Tank
depot_tank = record {
  id = "tank-1";
  tenant_id = "acme";
  station_id = "stn-1";
  name = "T1";
  product = FuelProduct.diesel;
  geometry = strapping_table (
      record { level_mm = of_ℕ 0; volume_litres = of_ℕ 0 }
      ∷ record { level_mm = of_ℕ 100; volume_litres = of_ℕ 1000 }
      ∷ []);
  capacity_litres = of_ℕ 1000;
  thresholds = default_tank_thresholds;
  status = TankStatus.active;
  calibration_source = none;
  calibration_at = none;
  created_at = "c";
  updated_at = "c";
}

abbrev pub no_reading : TankReading
no_reading = record {
  id = "";
  tenant_id = "";
  tank_id = "";
  recorded_at = "";
  received_at = "";
  level_mm = of_ℕ 0;
  water_level_mm = of_ℕ 0;
  gross_volume_litres = of_ℕ 0;
  net_volume_litres = of_ℕ 0;
  temperature_c = none;
  source = ReadingSource.manual;
  quality = ReadingQuality.ok;
  provenance = ReadingProvenance.manual;
  source_protocol = SourceProtocol.manual;
  freshness = fresh;
  signal_quality_percent = none;
  device_id = none;
  raw_message_id = none;
  quality_reason = none;
  idempotency_key = "";
}

abbrev pub rise : FuelEvent
rise = record {
  id = "evt-1";
  tenant_id = "acme";
  tank_id = "tank-1";
  type = FuelEventType.candidate_delivery;
  status = FuelEventStatus.candidate;
  confidence = of_ℕ 1;
  volume_change_ml = pos 500000;
  window_start = "a";
  window_end = "b";
  evidence = record {
    window_start = "a";
    window_end = "b";
    window_minutes = of_ℕ 10;
    volume_before_ml = pos 100000;
    volume_after_ml = pos 600000;
    volume_change_ml = pos 500000;
    reading_ids = [];
    first_reading_id = none;
    last_reading_id = none;
    threshold_litres_per_hour = none;
    threshold_litres = none;
    rule = "delivery-rise";
    suspect_reading_ids = [];
    data_quality = DataQuality.ok;
    possible_explanations = [];
    investigation_required = false;
  };
  notes = none;
  decided_by = none;
  decided_at = none;
  created_at = "c";
  updated_at = "c";
}

abbrev pub low_alert : Alert
low_alert = record {
  id = "alt-1";
  tenant_id = "acme";
  tank_id = some "tank-1";
  type = AlertType.low_stock;
  severity = AlertSeverity.warning;
  status = AlertStatus.opened;
  message = "Low stock";
  raised_at = "a";
  updated_at = "a";
  reading_id = none;
  acknowledged_at = none;
  acknowledged_by = none;
  assigned_to = none;
  resolved_at = none;
  resolved_by = none;
  metrics = [];
}

abbrev pub value_of : {A : Type 0} → A → Result A → A
value_of a (ok b) = b
value_of a (err e) = a

-- All that a call runs.
unfoldable pub everything : Unit {0}
unfolding ingest Ingest.accept_sample Ingest.assert_timestamp_within_skew Ingest.submission_key
    Ingest.record_once Ingest.record_reading Ingest.normalized Ingest.evaluate_recorded
    Ingest.touch_device Sources.resolve_device Sources.retain_raw_payload Sources.sample_payload
    Sources.null_or_text Sources.null_or_number Sources.payload_fingerprint Rules.run_rules
    Rules.evaluate_alerts Rules.raise_event_alerts Rules.assigned_devices Rules.load_assigned
    Rules.apply_drafts Rules.raise_draft Rules.event_draft detect_and_record candidate_events
    evaluate_tank_alerts select_new_alert_drafts select_resolved_alerts materialize_alert
    Stations.find_by_id Tanks.find_by_id Readings.find_by_idempotency_key Readings.append
    Readings.put Readings.list Readings.tenant_readings Readings.comes_after RawMessages.save
    RawMessages.find_by_hash RawMessages.keep_or_put RawMessages.put Assignments.list_active_by_tank
    Assignments.tenant_assignments Events.list_recent_by_tank Events.list Events.tenant_events
    Alerts.list_open_by_tank Alerts.tenant_alerts Alerts.save Alerts.put assert_owned_by_tenant
    scoped_key template now perform run mark_seen Devices.touch Devices.put_at Devices.touch_device
    given_or_new_id create_station refuse_used_code Stations.find_by_code Stations.save Stations.put
    new_id clamp_limit get set values sort normalize_probe_sample detect_tank_events ◌>>=◌ or_else
    for_each ◌*ℤ◌ ◌-ℤ◌ ◌+ℤ◌ evaluate_device_alerts stock_drafts water_drafts suspect_drafts
    fault_drafts stale_drafts fill_percent_ml net_volume_ml require_event check_confirmable
    write_confirmation confirmed_delivery confirmed_event confirm Events.find_by_id Events.update
    Events.put Deliveries.list_by_event Deliveries.tenant_deliveries Deliveries.save Deliveries.put
    require_alert Alerts.find_by_id Alerts.update resolved_alert resolve_alert acknowledged_alert
    acknowledge_alert alert_key
everything = tt
