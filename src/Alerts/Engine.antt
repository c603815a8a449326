-- ===== src/Alerts/Engine.antt =====
-- packages/core/src/alerts/alert-engine.ts: `evaluateTankAlerts` and the rules it is made of.
pub mod Exclusive
use mafuta.Base.{
  ℕ, String, Option, some, none, Bool, not, ◌&&◌, ◌||◌, List, [], ◌∷◌, ◌++◌, filter, map, all,
  length, get_last?, last_n, get_or, leb, if◌then◌else◌, template,
}
use mafuta.Base.Int.{ℤ, pos, ◌-ℤ◌}
use mafuta.Base.Ratio.{Ratio, over, of_ℕ, lt_ratio, le_ratio, mul_ratio, math_round}
use mafuta.Runtime.{Runtime}
use mafuta.Domain.Reading.{TankReading, is_invalid, is_suspect, net_volume_ml}
use mafuta.Domain.Tank.{Tank, TankThresholds, fill_percent_ml}
use mafuta.Domain.Device.{
  Device, DeviceAssignment, is_retired, is_maintenance, is_device_offline, minutes_since_last_seen,
}
use mafuta.Domain.Alert.{
  AlertDraft, AlertType, AlertSeverity, AlertMetrics, Metric, number, text, low_stock,
  critical_stock, device_offline, stale_data, probe_quality, water_level, warning, critical,
}

pub record TankDeviceOnTank : Type 0 where
  pub device : Device
  pub assignment : DeviceAssignment

pub record AlertEvaluationInput : Type 0 where
  pub tenant_id : String
  pub tank : Tank
  -- Oldest first.
  pub readings : List TankReading
  pub now : ℤ
  pub assigned_devices : List TankDeviceOnTank
  pub device_offline_after_minutes : Ratio
  pub consecutive_invalid_for_fault : Option ℕ

pub record AlertEvaluationResult : Type 0 where
  pub drafts : List AlertDraft
  pub estimated_net_volume_ml : Option ℤ
  pub fill_percent : Option Ratio

abbrev pub default_consecutive_invalid_for_fault : ℕ
default_consecutive_invalid_for_fault = 3

unfoldable pub round2 : Ratio → Ratio
unfolding mul_ratio math_round
round2 value = over (math_round (mul_ratio value (of_ℕ 100))) 100

abbrev draft : TankReading → AlertType → AlertSeverity → String → AlertMetrics → AlertDraft
draft reading type severity message metrics = record {
  tank_id = some reading.tank_id;
  type = type;
  severity = severity;
  message = message;
  reading_id = some reading.id;
  metrics = metrics;
}

-- The object spread `...(o === null ? {} : { name: value })`.
abbrev optional_metric {ℓ} : {A : Type ℓ} → String → (A → Metric) → Option A → AlertMetrics
optional_metric name metric none = []
optional_metric name metric (some a) = (name, metric a) ∷ []

-- `trailing.length >= n && trailing.every((r) => r.quality === 'invalid')`
abbrev pub is_faulty : ℕ → List TankReading → Bool
is_faulty n readings =
    let trailing = last_n n readings in
    leb n (length trailing) && all (λ r. is_invalid r.quality) trailing

module _ (rt : Runtime) where
  unfoldable pub stock_drafts : TankThresholds → TankReading → Ratio → List AlertDraft
  unfolding round2 template
  stock_drafts thresholds latest percent =
      if le_ratio percent thresholds.critical_low_percent
      then draft latest critical_stock critical
          (template ("Critical stock: " ∷ rt.to_fixed percent 1 ∷ "% of capacity" ∷ []))
          (("fillPercent", number (round2 percent))
            ∷ ("netVolumeLitres", number latest.net_volume_litres)
            ∷ ("thresholdPercent", number thresholds.critical_low_percent)
            ∷ [])
        ∷ []
      else if le_ratio percent thresholds.low_percent
      then draft latest low_stock warning
          (template ("Low stock: " ∷ rt.to_fixed percent 1 ∷ "% of capacity" ∷ []))
          (("fillPercent", number (round2 percent))
            ∷ ("netVolumeLitres", number latest.net_volume_litres)
            ∷ ("thresholdPercent", number thresholds.low_percent)
            ∷ [])
        ∷ []
      else []

  unfoldable pub water_drafts : TankThresholds → TankReading → List AlertDraft
  unfolding template
  water_drafts thresholds latest =
      if le_ratio thresholds.water_alarm_mm latest.water_level_mm
      then draft latest water_level warning
          (template ("Water level " ∷ rt.to_fixed latest.water_level_mm 1 ∷ " mm" ∷ []))
          (("waterLevelMm", number latest.water_level_mm)
            ∷ ("thresholdMm", number thresholds.water_alarm_mm)
            ∷ [])
        ∷ []
      else []

  unfoldable pub suspect_drafts : TankReading → List AlertDraft
  suspect_drafts latest =
      if is_suspect latest.quality
      then draft latest probe_quality warning "Latest reading is suspect" (
          ("quality", text "suspect")
          ∷ (optional_metric "reason" text latest.quality_reason
              ++ optional_metric "signalQualityPercent" number latest.signal_quality_percent))
        ∷ []
      else []

  unfoldable pub fault_drafts : ℕ → List TankReading → TankReading → List AlertDraft
  unfolding last_n template
  fault_drafts fault_threshold readings latest =
      if is_faulty fault_threshold readings
      then draft (get_or (get_last? readings) latest) probe_quality critical
          (template (rt.int_text (pos fault_threshold) ∷ " consecutive invalid readings" ∷ []))
          (("consecutiveInvalid", number (of_ℕ fault_threshold)) ∷ ("quality", text "invalid") ∷ [])
        ∷ []
      else []

  abbrev pub age_minutes_of : TankReading → ℤ → Option Ratio
  age_minutes_of reading now = elim (rt.date_parse reading.recorded_at) [
    | none ↦ none
    | some recorded ↦ some (over (now -ℤ recorded) 60000)
  ]

  unfoldable pub stale_drafts : TankThresholds → TankReading → ℤ → List AlertDraft
  unfolding round2 template
  stale_drafts thresholds latest now = elim (age_minutes_of latest now) [
    | none ↦ []
    | some age_minutes ↦
        if lt_ratio thresholds.stale_after_minutes age_minutes
        then draft latest stale_data warning
            (template ("Latest reading is " ∷ rt.to_fixed age_minutes 0 ∷ " minutes old" ∷ []))
            (("ageMinutes", number (round2 age_minutes))
              ∷ ("staleAfterMinutes", number thresholds.stale_after_minutes)
              ∷ [])
          ∷ []
        else []
  ]

  offline_message : Device → Option Ratio → String
  unfolding template
  offline_message device none =
      template ("Device " ∷ device.serial_number ∷ " has never reported" ∷ [])
  offline_message device (some minutes) =
      template (
        "Device " ∷ device.serial_number ∷ " silent for " ∷ rt.to_fixed minutes 0 ∷ " minutes" ∷ [])

  -- The `continue`s of the loop in `evaluateDeviceAlerts`.
  unfoldable pub raises_offline : Device → ℤ → Ratio → Bool
  unfolding is_device_offline
  raises_offline device now offline_after =
      not (is_retired device.status || is_maintenance device.status)
      && is_device_offline rt device now offline_after

  offline_draft : AlertEvaluationInput → Device → AlertDraft
  unfolding offline_message round2
  offline_draft input device =
      let minutes = minutes_since_last_seen rt device input.now in
      record {
        tank_id = some input.tank.id;
        type = device_offline;
        severity = warning;
        message = offline_message device minutes;
        reading_id = none;
        metrics =
            ("deviceId", text device.id)
            ∷ ("serialNumber", text device.serial_number)
            ∷ (optional_metric "silentMinutes" (λ m. number (round2 m)) minutes
                ++ ("offlineAfterMinutes", number input.device_offline_after_minutes) ∷ []);
      }

  unfoldable pub evaluate_device_alerts : AlertEvaluationInput → List AlertDraft
  unfolding raises_offline offline_draft
  evaluate_device_alerts input =
      map (λ entry. offline_draft input entry.device)
        (filter (λ entry. raises_offline entry.device input.now input.device_offline_after_minutes)
          input.assigned_devices)

  reading_id_of : Option TankReading → Option String
  reading_id_of none = none
  reading_id_of (some reading) = some reading.id

  unfoldable pub drafts_from_missing_data : AlertEvaluationInput → String → List AlertDraft
  unfolding reading_id_of last_n template
  drafts_from_missing_data input reason =
      record {
        tank_id = some input.tank.id;
        type = stale_data;
        severity = warning;
        message = template ("No usable readings available (" ∷ reason ∷ ")" ∷ []);
        reading_id = reading_id_of (get_last? input.readings);
        metrics = ("staleAfterMinutes", number input.tank.thresholds.stale_after_minutes) ∷ [];
      }
      ∷ (if is_faulty default_consecutive_invalid_for_fault input.readings
          then record {
            tank_id = some input.tank.id;
            type = probe_quality;
            severity = critical;
            message = "All recent readings were invalid";
            reading_id = reading_id_of (get_last? input.readings);
            metrics =
                ("consecutiveInvalid", number (of_ℕ default_consecutive_invalid_for_fault)) ∷ [];
          }
            ∷ []
          else [])

  unfoldable pub usable_readings : List TankReading → List TankReading
  usable_readings readings = filter (λ r. not (is_invalid r.quality)) readings

  -- The rules that look at the latest usable reading, in the source's order.
  unfoldable pub reading_drafts : AlertEvaluationInput → TankReading → List AlertDraft
  reading_drafts input latest =
      let thresholds = input.tank.thresholds in
      let fault_threshold =
        get_or input.consecutive_invalid_for_fault default_consecutive_invalid_for_fault in
      stock_drafts thresholds latest (fill_percent_ml input.tank (net_volume_ml latest))
      ++ (water_drafts thresholds latest
          ++ (suspect_drafts latest
              ++ (fault_drafts fault_threshold input.readings latest
                  ++ stale_drafts thresholds latest input.now)))

  unfoldable pub evaluate_tank_alerts : AlertEvaluationInput → AlertEvaluationResult
  unfolding usable_readings reading_drafts
  evaluate_tank_alerts input = elim (get_last? (usable_readings input.readings)) [
    | none ↦ record {
      drafts = evaluate_device_alerts input ++ drafts_from_missing_data input "no usable readings";
      estimated_net_volume_ml = none;
      fill_percent = none;
    }
    | some latest ↦ record {
      drafts = evaluate_device_alerts input ++ reading_drafts input latest;
      estimated_net_volume_ml = some (net_volume_ml latest);
      fill_percent = some (fill_percent_ml input.tank (net_volume_ml latest));
    }
  ]
