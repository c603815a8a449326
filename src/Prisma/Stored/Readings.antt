-- ===== src/Prisma/Stored/Readings.antt =====
-- packages/core/src/adapters/prisma/mappers.ts: a reading that is written and read.
use mafuta.Base.{String, some, none, ◌≡◌, ◌∙◌, refl, ap, arith}
use mafuta.Base.Ratio.{Ratio}
use mafuta.Runtime.{Runtime}
use mafuta.Domain.Reading.{
  TankReading, ReadingSource, simulated, device, manual, source_protocol_for_source,
}
use mafuta.Prisma.{to_number, to_number_or_null}
use mafuta.Prisma.Readings.{
  ReadingRow, ReadingInput, source_of, quality_reason_from, to_domain_reading,
  to_prisma_reading_input,
}
use mafuta.Prisma.Stored.{IsIso, to_iso-written}

source_lem : (source : ReadingSource) → source_of (source_protocol_for_source source) ≡ source
unfolding source_of source_protocol_for_source
source_lem simulated = refl
source_lem device = refl
source_lem manual = refl

module _ (rt : Runtime) (number_of : String → Ratio) where
  pub record IsStored (input : ReadingInput) (row : ReadingRow) : Type 0 where
    pub same_id : row.id ≡ input.id
    pub same_tenant_id : row.tenant_id ≡ input.tenant_id
    pub same_tank_id : row.tank_id ≡ input.tank_id
    pub same_device_id : row.device_id ≡ input.device_id
    pub same_recorded_at : input.recorded_at ≡ some row.recorded_at
    pub same_received_at : input.received_at ≡ some row.received_at
    pub same_level : to_number number_of row.level_mm ≡ input.level_mm
    pub same_water : to_number_or_null number_of row.water_level_mm ≡ some input.water_level_mm
    pub same_volume : to_number number_of row.volume_litres ≡ input.volume_litres
    pub same_temperature : to_number_or_null number_of row.temperature_c ≡ input.temperature_c
    pub same_provenance : row.provenance ≡ input.provenance
    pub same_quality : row.quality_status ≡ input.quality_status
    pub same_freshness : row.freshness_status ≡ input.freshness_status
    pub same_protocol : row.source_protocol ≡ input.source_protocol
    pub same_key : row.idempotency_key ≡ input.idempotency_key
    pub same_raw_message_id : row.raw_message_id ≡ input.raw_message_id

  -- A reading whose dates toISOString made and whose protocol is that of its source, written to a
  -- row which holds the columns written, is read back the same, but for its gross volume, which is
  -- the net one, its signal quality, which is none, and its reason, which is that of its quality.
  pub to_domain_reading-stored :
      (reading : TankReading) (row : ReadingRow)
      → IsStored (to_prisma_reading_input rt reading) row
      → IsIso rt reading.recorded_at
      → IsIso rt reading.received_at
      → reading.source_protocol ≡ source_protocol_for_source reading.source
      → to_domain_reading rt number_of row ≡ record reading {
        gross_volume_litres = reading.net_volume_litres;
        signal_quality_percent = none;
        quality_reason = quality_reason_from reading.quality;
      }
  unfolding to_domain_reading to_prisma_reading_input
  to_domain_reading-stored reading row stored recorded received protocol =
      let recorded_at =
        to_iso-written rt reading.recorded_at row.recorded_at stored.same_recorded_at recorded in
      let received_at =
        to_iso-written rt reading.received_at row.received_at stored.same_received_at received in
      let source = ap source_of (stored.same_protocol ∙ protocol) ∙ source_lem reading.source in
      let reason = ap quality_reason_from stored.same_quality in
      ground (arith, recorded_at, received_at, source, reason)
