-- ===== src/Services/Sources.antt =====
-- packages/core/src/services/ingest-service.ts: which device a sample comes from, and the payload that
-- is kept of it.
pub mod Moves
use mafuta.Base.{
  String, Option, some, none, Bool, true, false, not, [], ◌∷◌, ◌==◌, get_or, if◌then◌else◌,
  template,
}
use mafuta.Base.Ratio.{Ratio}
use mafuta.Runtime.{Runtime}
use mafuta.Errors.{conflict, validation, forbidden}
use mafuta.Effect.{Action, pure, throw, ensure, or_else, ◌>>=◌, ◌>>◌}
use mafuta.Domain.Reading.{ReadingSource, simulated, device, manual, source_protocol_for_source}
use mafuta.Domain.Device.{Device, DeviceAssignment, is_retired}
use mafuta.Domain.Normalize.{ProbeSample}
use mafuta.Memory.{World, RawMessageRecord, new_id}
use mafuta.Memory.Devices
use mafuta.Memory.Assignments
use mafuta.Memory.RawMessages
use mafuta.Services.Devices.{assign_to_tank, register_simulated}

abbrev is_simulated : ReadingSource → Bool
is_simulated simulated = true
is_simulated _ = false

abbrev is_device_source : ReadingSource → Bool
is_device_source device = true
is_device_source _ = false

abbrev source_text : ReadingSource → String
source_text simulated = "simulated"
source_text device = "device"
source_text manual = "manual"

module _ (rt : Runtime) where
  -- The device itself, registered on first use for a simulated reading.
  unfoldable pub found_or_simulated :
      String → ProbeSample → String → Option Device → Action World Device
  found_or_simulated tenant_id sample device_id (some found) = pure found
  found_or_simulated tenant_id sample device_id none =
      if is_simulated sample.source
      then register_simulated rt tenant_id device_id
      else throw
          (validation "Unknown device" (("deviceId", "is not registered for this tenant") ∷ []))

  unfoldable pub is_assigned_to : String → Option DeviceAssignment → Bool
  is_assigned_to tank_id none = false
  is_assigned_to tank_id (some assignment) = assignment.tank_id == tank_id

  unfoldable pub attach_if_free :
      String → String → String → Option DeviceAssignment → Action World (Unit {0})
  attach_if_free tenant_id device_id tank_id (some assignment) = pure tt
  attach_if_free tenant_id device_id tank_id none =
      assign_to_tank rt tenant_id device_id tank_id >> pure tt

  unfoldable pub check_assignment :
      String → ReadingSource → String → String → Action World (Unit {0})
  check_assignment tenant_id device device_id tank_id = do
    assignment ← Assignments.find_active_by_device rt tenant_id device_id
    ensure (is_assigned_to tank_id assignment) (forbidden "Device is not assigned to this tank" [])
  check_assignment tenant_id simulated device_id tank_id = do
    assignment ← Assignments.find_active_by_device rt tenant_id device_id
    attach_if_free tenant_id device_id tank_id assignment
  check_assignment tenant_id manual device_id tank_id = pure tt

  unfoldable pub resolve_known : String → ProbeSample → String → String → Action World String
  resolve_known tenant_id sample tank_id device_id = do
    found ← Devices.find_by_id tenant_id device_id
    probe ← found_or_simulated tenant_id sample device_id found
    ensure (not (is_retired probe.status)) (
        conflict (template ("Device " ∷ probe.id ∷ " is retired and may not submit readings" ∷ [])))
    check_assignment tenant_id sample.source probe.id tank_id
    pure probe.id

  -- `resolveDevice`, on `sample.deviceId`.
  unfoldable pub resolve_device :
      String → ProbeSample → String → Option String → Action World (Option String)
  resolve_device tenant_id sample tank_id none = do
    ensure (not (is_device_source sample.source)) (
        validation "A device reading must identify the device"
          (("deviceId", "is required when source is device") ∷ []))
    pure none
  resolve_device tenant_id sample tank_id (some device_id) = do
    id ← resolve_known tenant_id sample tank_id device_id
    pure (some id)

  unfoldable pub null_or_number : Option Ratio → String
  null_or_number none = "null"
  null_or_number (some x) = rt.number_text x

  unfoldable pub null_or_text : Option String → String
  null_or_text none = "null"
  null_or_text (some s) = rt.json_text s

  -- `canonicalJson` of the payload that stands in for an absent one.
  unfoldable pub sample_payload : ProbeSample → String
  sample_payload sample = template (
      "{\"deviceId\":"
      ∷ null_or_text sample.device_id
      ∷ ",\"levelMm\":"
      ∷ null_or_number sample.level_mm
      ∷ ",\"observedAt\":"
      ∷ rt.json_text sample.observed_at
      ∷ ",\"source\":"
      ∷ rt.json_text (source_text sample.source)
      ∷ ",\"temperatureC\":"
      ∷ null_or_number (get_or sample.temperature_c none)
      ∷ ",\"waterLevelMm\":"
      ∷ null_or_number sample.water_level_mm
      ∷ "}"
      ∷ [])

  -- `payloadFingerprint({ tankId, observedAt, payload })`
  unfoldable pub payload_fingerprint : String → String → String → String
  payload_fingerprint tank_id observed_at payload = template (
      "sha256:"
      ∷ rt.sha256_48 (
          template (
            "{\"observedAt\":"
            ∷ rt.json_text observed_at
            ∷ ",\"payload\":"
            ∷ payload
            ∷ ",\"tankId\":"
            ∷ rt.json_text tank_id
            ∷ "}"
            ∷ []))
      ∷ [])

  -- `raw_payload` is the canonical text of the payload that was submitted.
  unfoldable pub retain_raw_payload :
      String → ProbeSample → Option String → String → Action World (Option RawMessageRecord)
  retain_raw_payload tenant_id sample raw_payload received_at = do
    let payload = get_or raw_payload (sample_payload sample)
    id ← new_id rt "raw"
    let save = RawMessages.save tenant_id (record {
      id = id;
      tenant_id = tenant_id;
      device_id = sample.device_id;
      protocol = source_protocol_for_source sample.source;
      payload = payload;
      message_hash = payload_fingerprint sample.tank_id sample.observed_at payload;
      received_at = received_at;
    })
    or_else (save >>= λ kept. pure (some kept)) none
