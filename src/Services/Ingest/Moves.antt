-- ===== src/Services/Ingest/Moves.antt =====
-- packages/core/src/services/ingest-service.ts: `ingest` as a rule for relations between states.
use mafuta.Base.{String, Option, none, some, refl}
use mafuta.Effect.Moves.{
  Moves, Moves-bind, Moves-bind_pair, Moves-gets, Moves-require, Moves-ensure, Moves-pure,
}
use mafuta.Runtime.{Runtime}
use mafuta.Memory.{World}
use mafuta.Services.Writes.{Admits}
use mafuta.Base.Ratio.{Ratio}
use mafuta.Domain.Tank.{Tank}
use mafuta.Domain.Reading.{TankReading}
use mafuta.Domain.Normalize.{ProbeSample, normalize_probe_sample}
use mafuta.Memory.Tanks
use mafuta.Memory.Readings
use mafuta.Services.Devices.Moves.{mark_seen-Moves}
use mafuta.Services.Sources.Moves.{resolve_device-Moves, retain_raw_payload-Moves}
use mafuta.Services.Rules.{IngestConfig}
use mafuta.Services.Rules.Moves.{run_rules-Moves}
use mafuta.Services.Ingest.{
  assert_timestamp_within_skew, touch_device, evaluate_recorded, normalized, record_reading,
  record_once, accept_sample, ingest,
}

module _ (rt : Runtime) (t : String) (R : World → World → Type 0) (a : Admits rt t R) where
  pub assert_timestamp_within_skew-Moves :
      (limit : Ratio) (at : String) → Moves R (assert_timestamp_within_skew rt limit at)
  unfolding assert_timestamp_within_skew
  assert_timestamp_within_skew-Moves limit at =
      Moves-bind a.composes _ _ (Moves-require a.composes _ _)
        λ recorded. Moves-bind a.composes _ _ a.now_moves λ at'. Moves-ensure a.composes _ _

  module _ (config : IngestConfig) where
    touch_device-Moves :
        (id : Option String) (at : String) → Moves R (touch_device rt config t id at)
    unfolding touch_device
    touch_device-Moves none at = Moves-pure a.composes _
    touch_device-Moves (some id) at = mark_seen-Moves rt t R a id at

    pub evaluate_recorded-Moves :
        (tank : Tank) (device_id : Option String) (at : String) (reading : TankReading)
        → Moves R (evaluate_recorded rt config t tank device_id at reading)
    unfolding evaluate_recorded Readings.list
    evaluate_recorded-Moves tank device_id at reading =
        Moves-bind a.composes _ _ (touch_device-Moves device_id _) λ u.
          Moves-bind a.composes _ _ (Moves-gets a.composes _) λ recent.
            Moves-bind a.composes _ _ (run_rules-Moves rt t R a config tank _)
              λ outcome. Moves-pure a.composes _

    pub record_reading-Moves :
        (tank : Tank) (sample : ProbeSample) (device_id : Option String) (key : String)
        (payload : Option String)
        → Moves R (record_reading rt config t tank sample device_id key payload)
    unfolding record_reading normalized normalize_probe_sample
    record_reading-Moves tank sample device_id key payload =
        Moves-bind a.composes _ _ a.now_moves λ at.
          Moves-bind a.composes _ _ (retain_raw_payload-Moves rt t R a sample payload _) λ kept.
            Moves-bind_pair a.composes _ _ _ (a.readings_append _ λ id. refl)
              λ id stored. evaluate_recorded-Moves tank device_id _ _

    record_once-Moves :
        (tank : Tank) (sample : ProbeSample) (device_id : Option String) (key : String)
        (payload : Option String) (existing : Option TankReading)
        → Moves R (record_once rt config t tank sample device_id key payload existing)
    unfolding record_once
    record_once-Moves tank sample device_id key payload (some existing) = Moves-pure a.composes _
    record_once-Moves tank sample device_id key payload none =
        record_reading-Moves tank sample device_id key payload

    pub accept_sample-Moves : (sample : ProbeSample) → Moves R (accept_sample rt config t sample)
    unfolding accept_sample Tanks.find_by_id
    accept_sample-Moves sample = Moves-bind a.composes _ _ (Moves-gets a.composes _) λ found.
        Moves-bind a.composes _ _ (Moves-require a.composes _ _) λ tank.
          Moves-bind a.composes _ _ (Moves-ensure a.composes _ _) λ u.
            Moves-bind a.composes _ _ (assert_timestamp_within_skew-Moves _ _) λ v.
              Moves-bind a.composes _ _ (resolve_device-Moves rt t R a sample _ _)
                λ device_id. Moves-pure a.composes _

    pub ingest-Moves :
        (sample : ProbeSample) (payload : Option String)
        → Moves R (ingest rt config t sample payload)
    unfolding ingest Readings.find_by_idempotency_key
    ingest-Moves sample payload = Moves-bind a.composes _ _ (accept_sample-Moves sample) λ accepted.
        Moves-bind a.composes _ _ (Moves-gets a.composes _)
          λ existing. record_once-Moves accepted.0 sample accepted.1 _ payload existing
