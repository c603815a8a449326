-- ===== src/Services/Ingest.antt =====
-- packages/core/src/services/ingest-service.ts: the one way in for every observation of a tank.
pub mod Moves
pub mod Once
use mafuta.Base.{
  String, Option, some, none, Bool, true, false, not, List, [], ◌∷◌, reverse, get_or, template,
}
use mafuta.Base.Int.{◌-ℤ◌}
use mafuta.Base.Ratio.{Ratio, over, lt_ratio}
use mafuta.Runtime.{Runtime}
use mafuta.Errors.{not_found, conflict, validation}
use mafuta.Effect.{Action, pure, ensure, require, ◌>>=◌, ◌>>◌}
use mafuta.Domain.Tank.{Tank, is_active_status}
use mafuta.Domain.Reading.{TankReading}
use mafuta.Domain.Event.{FuelEvent}
use mafuta.Domain.Alert.{Alert}
use mafuta.Domain.Idempotency.{derive_idempotency_key}
use mafuta.Domain.Normalize.{ProbeSample, normalize_probe_sample}
use mafuta.Memory.{World, RawMessageRecord, now, new_id}
use mafuta.Memory.Tanks
use mafuta.Memory.Readings
use mafuta.Services.Devices.{mark_seen}
use mafuta.Services.Rules.{IngestConfig, run_rules}
use mafuta.Services.Sources.{resolve_device, retain_raw_payload}

pub record IngestResult : Type 0 where
  pub reading : TankReading
  pub raised_alerts : List Alert
  pub resolved_alerts : List Alert
  pub raised_events : List FuelEvent
  pub duplicate : Bool

abbrev id_of : Option RawMessageRecord → Option String
id_of none = none
id_of (some kept) = some kept.id

module _ (rt : Runtime) where
  -- `assertTimestampWithinSkew`
  unfoldable pub assert_timestamp_within_skew : Ratio → String → Action World (Unit {0})
  assert_timestamp_within_skew limit observed_at = do
    recorded ← require (rt.date_parse observed_at) (
        validation "Reading timestamp is not a valid instant"
          (("observedAt", "must be an ISO 8601 timestamp") ∷ []))
    at ← now rt
    let skew_minutes = over (recorded -ℤ at) 60000
    ensure (not (lt_ratio limit skew_minutes)) (
        validation "Reading timestamp is too far in the future" (
          (
            "observedAt",
            template (
                "is "
                ∷ rt.to_fixed skew_minutes 1
                ∷ " minutes ahead of server time, limit is "
                ∷ rt.number_text limit
                ∷ []),
          )
          ∷ []))

  module _ (config : IngestConfig) where
    unfoldable pub touch_device : String → Option String → String → Action World (Unit {0})
    touch_device tenant_id none received_at = pure tt
    touch_device tenant_id (some device_id) received_at =
        mark_seen rt tenant_id device_id received_at

    -- The part of `ingest` after the append: the device and the rules.
    unfoldable pub evaluate_recorded :
        String → Tank → Option String → String → TankReading → Action World IngestResult
    evaluate_recorded tenant_id tank device_id received_at reading = do
      touch_device tenant_id device_id received_at
      recent ← Readings.list rt tenant_id (record {
        tank_id = tank.id;
        from = none;
        to = none;
        limit = some config.recent_reading_count;
        ascending = false;
      })
      outcome ← run_rules rt config tenant_id tank (reverse recent)
      pure (record {
        reading = reading;
        raised_alerts = outcome.raised_alerts;
        resolved_alerts = outcome.resolved_alerts;
        raised_events = outcome.raised_events;
        duplicate = false;
      })

    unfoldable pub normalized :
        String
        → Tank
        → ProbeSample
        → Option String
        → String
        → String
        → Option RawMessageRecord
        → String
        → TankReading
    normalized tenant_id tank sample device_id idempotency_key received_at raw_message id =
        normalize_probe_sample rt tank (record sample { device_id = device_id })
          (record {
            tenant_id = tenant_id;
            received_at = received_at;
            idempotency_key = some idempotency_key;
            raw_message_id = id_of raw_message;
            delayed_after_minutes = none;
          })
          id

    -- The part of `ingest` after the search for the submission: the ledger and the rules.
    unfoldable pub record_reading :
        String
        → Tank
        → ProbeSample
        → Option String
        → String
        → Option String
        → Action World IngestResult
    record_reading tenant_id tank sample device_id idempotency_key raw_payload = do
      at ← now rt
      raw_message ← retain_raw_payload rt tenant_id sample raw_payload (rt.to_iso at)
      id ← new_id rt "rdg"
      let reading =
          normalized tenant_id tank sample device_id idempotency_key (rt.to_iso at) raw_message id
      stored ← Readings.append tenant_id reading
      evaluate_recorded tenant_id tank device_id (rt.to_iso at) reading

    -- A retry returns the stored reading; only a new submission is recorded.
    unfoldable pub record_once :
        String
        → Tank
        → ProbeSample
        → Option String
        → String
        → Option String
        → Option TankReading
        → Action World IngestResult
    record_once tenant_id tank sample device_id idempotency_key raw_payload (some existing) =
        pure (record {
          reading = existing;
          raised_alerts = [];
          resolved_alerts = [];
          raised_events = [];
          duplicate = true;
        })
    record_once tenant_id tank sample device_id idempotency_key raw_payload none =
        record_reading tenant_id tank sample device_id idempotency_key raw_payload

    -- `sample.idempotencyKey ?? deriveIdempotencyKey(…)`
    unfoldable pub submission_key : String → Tank → ProbeSample → Option String → String
    submission_key tenant_id tank sample device_id = get_or sample.idempotency_key (
        derive_idempotency_key rt (record {
          tenant_id = tenant_id;
          tank_id = tank.id;
          device_id = device_id;
          observed_at = sample.observed_at;
        }))

    -- The part of `ingest` before the search for the submission: the tank and the device.
    unfoldable pub accept_sample : String → ProbeSample → Action World (Tank × Option String)
    accept_sample tenant_id sample = do
      found ← Tanks.find_by_id tenant_id sample.tank_id
      tank ← require found (not_found "Tank" sample.tank_id)
      ensure (is_active_status tank.status) (
          conflict
            (template ("Tank " ∷ tank.id ∷ " is decommissioned and rejects new readings" ∷ [])))
      assert_timestamp_within_skew config.max_future_skew_minutes sample.observed_at
      device_id ← resolve_device rt tenant_id sample tank.id sample.device_id
      pure (tank, device_id)

    unfoldable pub ingest : String → ProbeSample → Option String → Action World IngestResult
    ingest tenant_id sample raw_payload = do
      accepted ← accept_sample tenant_id sample
      let idempotency_key = submission_key tenant_id accepted.0 sample accepted.1
      existing ← Readings.find_by_idempotency_key tenant_id idempotency_key
      record_once tenant_id accepted.0 sample accepted.1 idempotency_key raw_payload existing
