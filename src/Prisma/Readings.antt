-- ===== src/Prisma/Readings.antt =====
-- packages/core/src/adapters/prisma/mappers.ts: readings. The columns of enumerations that the
-- source takes as they are hold the values of the types.
use mafuta.Base.{String, Option, none, some, get_or, if◌then◌else◌}
use mafuta.Base.Int.{ℤ}
use mafuta.Base.Ratio.{Ratio, of_ℕ}
use mafuta.Runtime.{Runtime}
use mafuta.Domain.Reading.{
  TankReading, ReadingSource, ReadingProvenance, ReadingQuality, ReadingFreshness, SourceProtocol,
  is_ok,
}
use mafuta.Prisma.{DecimalLike, to_number, to_number_or_null, to_date}

pub record ReadingRow : Type 0 where
  pub id : String
  pub tenant_id : String
  pub tank_id : String
  pub device_id : Option String
  pub recorded_at : ℤ
  pub received_at : ℤ
  pub level_mm : DecimalLike
  pub water_level_mm : Option DecimalLike
  pub volume_litres : DecimalLike
  pub temperature_c : Option DecimalLike
  pub provenance : ReadingProvenance
  pub quality_status : ReadingQuality
  pub freshness_status : ReadingFreshness
  pub source_protocol : SourceProtocol
  pub idempotency_key : String
  pub raw_message_id : Option String

unfoldable pub source_of : SourceProtocol → ReadingSource
source_of SourceProtocol.simulated = ReadingSource.simulated
source_of SourceProtocol.manual = ReadingSource.manual
source_of SourceProtocol.http = ReadingSource.device
source_of SourceProtocol.mqtt = ReadingSource.device

unfoldable pub quality_reason_from : ReadingQuality → Option String
quality_reason_from quality_status =
    if is_ok quality_status then none else some "see the retained raw payload for this reading"

module _ (rt : Runtime) (number_of : String → Ratio) where
  unfoldable pub to_domain_reading : ReadingRow → TankReading
  unfolding to_number to_number_or_null source_of quality_reason_from
  to_domain_reading row =
      let volume = to_number number_of row.volume_litres in
      record {
        id = row.id;
        tenant_id = row.tenant_id;
        tank_id = row.tank_id;
        recorded_at = rt.to_iso row.recorded_at;
        received_at = rt.to_iso row.received_at;
        level_mm = to_number number_of row.level_mm;
        water_level_mm = get_or (to_number_or_null number_of row.water_level_mm) (of_ℕ 0);
        gross_volume_litres = volume;
        net_volume_litres = volume;
        temperature_c = to_number_or_null number_of row.temperature_c;
        source = source_of row.source_protocol;
        quality = row.quality_status;
        provenance = row.provenance;
        source_protocol = row.source_protocol;
        freshness = row.freshness_status;
        signal_quality_percent = none;
        device_id = row.device_id;
        raw_message_id = row.raw_message_id;
        quality_reason = quality_reason_from row.quality_status;
        idempotency_key = row.idempotency_key;
      }

pub record ReadingInput : Type 0 where
  pub id : String
  pub tenant_id : String
  pub tank_id : String
  pub device_id : Option String
  pub recorded_at : Option ℤ
  pub received_at : Option ℤ
  pub level_mm : Ratio
  pub water_level_mm : Ratio
  pub volume_litres : Ratio
  pub temperature_c : Option Ratio
  pub source_protocol : SourceProtocol
  pub quality_status : ReadingQuality
  pub provenance : ReadingProvenance
  pub freshness_status : ReadingFreshness
  pub idempotency_key : String
  pub raw_message_id : Option String

unfoldable pub to_prisma_reading_input : Runtime → TankReading → ReadingInput
to_prisma_reading_input rt reading = record {
  id = reading.id;
  tenant_id = reading.tenant_id;
  tank_id = reading.tank_id;
  device_id = reading.device_id;
  recorded_at = to_date rt reading.recorded_at;
  received_at = to_date rt reading.received_at;
  level_mm = reading.level_mm;
  water_level_mm = reading.water_level_mm;
  volume_litres = reading.net_volume_litres;
  temperature_c = reading.temperature_c;
  source_protocol = reading.source_protocol;
  quality_status = reading.quality;
  provenance = reading.provenance;
  freshness_status = reading.freshness;
  idempotency_key = reading.idempotency_key;
  raw_message_id = reading.raw_message_id;
}
