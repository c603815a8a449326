-- ===== src/Domain/Reading.antt =====
-- packages/core/src/domain/reading.ts
use mafuta.Base.{Bool, true, false, String, Option}
use mafuta.Base.Int.{ℤ}
use mafuta.Base.Ratio.{Ratio}
use mafuta.Domain.Quantity.{litres_to_ml}

pub data ReadingSource : Type 0 where
  simulated device manual : ReadingSource

pub data ReadingProvenance : Type 0 where
  measured recorded estimated inferred manual : ReadingProvenance

pub data ReadingQuality : Type 0 where
  ok suspect invalid : ReadingQuality

pub data ReadingFreshness : Type 0 where
  fresh delayed stale : ReadingFreshness

pub data SourceProtocol : Type 0 where
  simulated http mqtt manual : SourceProtocol

-- `reading.quality === 'invalid'`, and so on.
abbrev pub is_invalid : ReadingQuality → Bool
is_invalid invalid = true
is_invalid _ = false

abbrev pub is_ok : ReadingQuality → Bool
is_ok ok = true
is_ok _ = false

abbrev pub is_suspect : ReadingQuality → Bool
is_suspect suspect = true
is_suspect _ = false

pub record TankReading : Type 0 where
  pub id : String
  pub tenant_id : String
  pub tank_id : String
  pub recorded_at : String
  pub received_at : String
  pub level_mm : Ratio
  pub water_level_mm : Ratio
  pub gross_volume_litres : Ratio
  pub net_volume_litres : Ratio
  pub temperature_c : Option Ratio
  pub source : ReadingSource
  pub quality : ReadingQuality
  pub provenance : ReadingProvenance
  pub source_protocol : SourceProtocol
  pub freshness : ReadingFreshness
  pub signal_quality_percent : Option Ratio
  pub device_id : Option String
  pub raw_message_id : Option String
  pub quality_reason : Option String
  pub idempotency_key : String

unfoldable pub gross_volume_ml : TankReading → ℤ
unfolding litres_to_ml
gross_volume_ml reading = litres_to_ml reading.gross_volume_litres

unfoldable pub net_volume_ml : TankReading → ℤ
unfolding litres_to_ml
net_volume_ml reading = litres_to_ml reading.net_volume_litres

unfoldable pub provenance_for_source : ReadingSource → ReadingProvenance
provenance_for_source device = measured
provenance_for_source simulated = measured
provenance_for_source manual = manual

unfoldable pub source_protocol_for_source : ReadingSource → SourceProtocol
source_protocol_for_source simulated = simulated
source_protocol_for_source manual = manual
source_protocol_for_source device = http
