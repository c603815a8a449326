-- ===== src/Domain/Normalize.antt =====
-- packages/core/src/domain/normalize.ts: from a raw sample to a reading.
use mafuta.Base.{
  String, Option, some, none, Bool, true, false, ◌||◌, [], ◌∷◌, get_or, if◌then◌else◌, template,
}
use mafuta.Base.Int.{neg, pos}
use mafuta.Base.Ratio.{
  Ratio, over, of_ℕ, of_ℤ, lt_ratio, sub_ratio, mul_ratio, min_ratio, max_ratio, math_round,
}
use mafuta.Runtime.{Runtime}
use mafuta.Domain.Quantity.{round_level_mm}
use mafuta.Domain.Geometry.{max_level_mm, volume_at_level_litres}
use mafuta.Domain.Tank.{Tank}
use mafuta.Domain.Reading.{
  TankReading, ReadingSource, ReadingQuality, ReadingFreshness, ok, suspect, invalid, fresh, stale,
  provenance_for_source, source_protocol_for_source,
}
use mafuta.Domain.Freshness.{compute_freshness, default_delayed_after_minutes}
use mafuta.Domain.Idempotency.{derive_idempotency_key}

-- `none` for a level, and `some none` for a temperature, is a number that is not finite.
pub record ProbeSample : Type 0 where
  pub tank_id : String
  pub observed_at : String
  pub level_mm : Option Ratio
  pub water_level_mm : Option Ratio
  pub temperature_c : Option (Option Ratio)
  pub device_id : Option String
  pub source : ReadingSource
  pub signal_quality_percent : Option Ratio
  pub idempotency_key : Option String

pub record NormalizeContext : Type 0 where
  pub tenant_id : String
  pub received_at : String
  pub idempotency_key : Option String
  pub raw_message_id : Option String
  pub delayed_after_minutes : Option Ratio

pub record QualityVerdict : Type 0 where
  pub quality : ReadingQuality
  pub reason : Option String

abbrev signal_quality_suspect_percent : Ratio
signal_quality_suspect_percent = of_ℕ 40

unfoldable pub temperature_out_of_range : Option (Option Ratio) → Bool
temperature_out_of_range none = false
temperature_out_of_range (some none) = true
temperature_out_of_range (some (some temperature_c)) =
    lt_ratio temperature_c (of_ℤ (neg (pos 60))) || lt_ratio (of_ℕ 120) temperature_c

unfoldable pub signal_is_weak : Option Ratio → Bool
signal_is_weak none = false
signal_is_weak (some percent) = lt_ratio percent signal_quality_suspect_percent

abbrev verdict : ReadingQuality → String → QualityVerdict
verdict quality reason = record { quality = quality; reason = some reason }

module _ (rt : Runtime) where
  signal_reason : Option Ratio → String
  unfolding template
  signal_reason percent =
      template ("signal quality " ∷ rt.number_text (get_or percent (of_ℕ 0)) ∷ "% below 40%" ∷ [])

  -- The tests on levels that are finite.
  classify_levels : Tank → ProbeSample → Ratio → Ratio → QualityVerdict
  unfolding signal_reason signal_is_weak temperature_out_of_range max_level_mm
  classify_levels tank sample level_mm water_level_mm =
      if lt_ratio level_mm (of_ℕ 0) || lt_ratio water_level_mm (of_ℕ 0)
      then verdict invalid "negative level"
      else if lt_ratio level_mm water_level_mm
      then verdict invalid "water level above product level"
      else if lt_ratio (max_level_mm tank.geometry) level_mm
      then verdict invalid (
          template (
            "level exceeds the maximum measurable level of "
            ∷ rt.number_text (max_level_mm tank.geometry)
            ∷ " mm"
            ∷ []))
      else if temperature_out_of_range sample.temperature_c
      then verdict suspect "temperature outside the supported range"
      else if signal_is_weak sample.signal_quality_percent
      then verdict suspect (signal_reason sample.signal_quality_percent)
      else record { quality = ok; reason = none }

  classify_maybe : Tank → ProbeSample → Option Ratio → Option Ratio → QualityVerdict
  unfolding classify_levels
  classify_maybe tank sample (some level_mm) (some water_level_mm) =
      classify_levels tank sample level_mm water_level_mm
  classify_maybe tank sample _ _ = verdict invalid "level is not a finite number"

  unfoldable pub classify_probe_sample : Tank → ProbeSample → QualityVerdict
  unfolding classify_maybe
  classify_probe_sample tank sample =
      classify_maybe tank sample sample.level_mm sample.water_level_mm

  unfoldable pub round_litres3 : Ratio → Ratio
  unfolding mul_ratio math_round
  round_litres3 value = over (math_round (mul_ratio value (of_ℕ 1000))) 1000

  unfoldable pub safe_level_mm : Option Ratio → Ratio
  unfolding max_ratio
  safe_level_mm none = of_ℕ 0
  safe_level_mm (some level_mm) = max_ratio (of_ℕ 0) level_mm

  unfoldable pub safe_water_level_mm : Option Ratio → Ratio → Ratio
  unfolding min_ratio max_ratio
  safe_water_level_mm none safe_level = of_ℕ 0
  safe_water_level_mm (some water_level_mm) safe_level =
      max_ratio (of_ℕ 0) (min_ratio water_level_mm safe_level)

  -- `computeFreshness(reading, new Date(receivedAt), …)`, with the comparisons of an invalid date.
  freshness_at : Tank → NormalizeContext → String → ReadingFreshness
  freshness_at tank context observed_at = elim (rt.date_parse context.received_at) [
    | none ↦ elim (rt.date_parse observed_at) [ none ↦ stale | some recorded ↦ fresh ]
    | some now ↦ compute_freshness rt observed_at context.received_at now (record {
      stale_after_minutes = tank.thresholds.stale_after_minutes;
      delayed_after_minutes = get_or context.delayed_after_minutes default_delayed_after_minutes;
    })
  ]

  -- `context.idempotencyKey ?? sample.idempotencyKey ?? deriveIdempotencyKey(…)`
  key_for : Tank → ProbeSample → NormalizeContext → String
  key_for tank sample context = get_or context.idempotency_key (
      get_or sample.idempotency_key (
        derive_idempotency_key rt (record {
          tenant_id = context.tenant_id;
          tank_id = tank.id;
          device_id = sample.device_id;
          observed_at = sample.observed_at;
        })))

  abbrev stored_temperature : Option (Option Ratio) → Option Ratio
  stored_temperature none = none
  stored_temperature (some temperature_c) = temperature_c

  -- `id` is the identifier that `newId('rdg')` draws.
  unfoldable pub normalize_probe_sample :
      Tank → ProbeSample → NormalizeContext → String → TankReading
  unfolding classify_probe_sample round_litres3 safe_level_mm safe_water_level_mm freshness_at
      key_for sub_ratio max_ratio volume_at_level_litres round_level_mm
  normalize_probe_sample tank sample context id =
      let verdict = classify_probe_sample tank sample in
      let safe_level = safe_level_mm sample.level_mm in
      let safe_water_level = safe_water_level_mm sample.water_level_mm safe_level in
      let gross = round_litres3 (volume_at_level_litres rt tank.geometry safe_level) in
      let water = round_litres3 (volume_at_level_litres rt tank.geometry safe_water_level) in
      record {
        id = id;
        tenant_id = context.tenant_id;
        tank_id = tank.id;
        recorded_at = sample.observed_at;
        received_at = context.received_at;
        level_mm = round_level_mm safe_level;
        water_level_mm = round_level_mm safe_water_level;
        gross_volume_litres = gross;
        net_volume_litres = round_litres3 (max_ratio (of_ℕ 0) (sub_ratio gross water));
        temperature_c = stored_temperature sample.temperature_c;
        source = sample.source;
        quality = verdict.quality;
        provenance = provenance_for_source sample.source;
        source_protocol = source_protocol_for_source sample.source;
        freshness = freshness_at tank context sample.observed_at;
        signal_quality_percent = sample.signal_quality_percent;
        device_id = sample.device_id;
        raw_message_id = context.raw_message_id;
        quality_reason = verdict.reason;
        idempotency_key = key_for tank sample context;
      }
