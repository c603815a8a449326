-- ===== src/Prisma/Stored/Events.antt =====
-- packages/core/src/adapters/prisma/mappers.ts: a fuel event that is written and read.
use mafuta.Base.{ℕ, String, Option, some, none, List, [], ◌∷◌, ◌≡◌, ◌∙◌, refl, ap, arith}
use mafuta.Base.Int.{ℤ, pos, negsuc, ◌*ℤ◌, ◌+ℤ◌}
use mafuta.Base.Ratio.{Ratio, math_round, mul_ratio, floor_div}
use mafuta.Runtime.{Runtime}
use mafuta.Domain.Quantity.{ml_to_litres}
use mafuta.Domain.Quantity.Decimal.{decimal_text, decimal_value}
use mafuta.Domain.Quantity.Written.{decimal_value-litres_string}
use mafuta.Domain.Event.{FuelEvent, FuelEventEvidence, DataQuality, ok, suspect}
use mafuta.Prisma.{JsonFields, Json, to_number, get_field}
use mafuta.Prisma.Events.{
  FuelEventRow, FuelEventInput, get_text_or_null, get_number_or_null, as_texts, text_items,
  text_or_null_json, number_or_null_json, data_quality_of, data_quality_text, get_texts,
  as_evidence, evidence_to_json, column_ml, event_with_evidence, to_domain_fuel_event,
  to_prisma_fuel_event_input,
}
use mafuta.Prisma.Stored.{written, IsIso, IsIsoOrNull, to_iso-written, iso_or_null-written}

as_texts-text_items : (values : List String) → as_texts (text_items values) ≡ some values
unfolding as_texts text_items
as_texts-text_items [] = refl
as_texts-text_items (value ∷ values) = rw (as_texts-text_items values) refl

get_texts_lem :
    (name : String) (fields : JsonFields) (values : List String)
    → get_field name fields ≡ some (Json.arr (text_items values))
    → get_texts name fields ≡ some values
unfolding get_texts
get_texts_lem name fields values found = rw (found, get_texts) (as_texts-text_items values)

get_text_or_null_lem :
    (name : String) (fields : JsonFields) (value : Option String)
    → get_field name fields ≡ some (text_or_null_json value)
    → get_text_or_null name fields ≡ some value
unfolding get_text_or_null
get_text_or_null_lem name fields none found = rw (found, get_text_or_null) refl
get_text_or_null_lem name fields (some value) found = rw (found, get_text_or_null) refl

get_number_or_null_lem :
    (name : String) (fields : JsonFields) (value : Option Ratio)
    → get_field name fields ≡ some (number_or_null_json value)
    → get_number_or_null name fields ≡ some value
unfolding get_number_or_null
get_number_or_null_lem name fields none found = rw (found, get_number_or_null) refl
get_number_or_null_lem name fields (some value) found = rw (found, get_number_or_null) refl

data_quality_lem :
    (quality : DataQuality) → data_quality_of (data_quality_text quality) ≡ some quality
data_quality_lem ok = refl
data_quality_lem suspect = refl

as_evidence-evidence_to_json :
    (evidence : FuelEventEvidence) → as_evidence (evidence_to_json evidence) ≡ some evidence
unfolding as_evidence evidence_to_json get_field
as_evidence-evidence_to_json evidence =
    let fields = evidence_to_json evidence in
    rw
      (
        as_texts-text_items evidence.reading_ids,
        get_text_or_null_lem "firstReadingId" fields evidence.first_reading_id refl,
        get_text_or_null_lem "lastReadingId" fields evidence.last_reading_id refl,
        get_number_or_null_lem "thresholdLitresPerHour" fields evidence.threshold_litres_per_hour
            refl,
        get_number_or_null_lem "thresholdLitres" fields evidence.threshold_litres refl,
        as_texts-text_items evidence.suspect_reading_ids,
        data_quality_lem evidence.data_quality,
        as_texts-text_items evidence.possible_explanations,
      )
      refl

pub column_ml_lem :
    (z : ℤ) → math_round (mul_ratio (ml_to_litres z) (record { num = pos 1000; den_pred = 0 })) ≡ z
unfolding math_round mul_ratio ml_to_litres floor_div ◌*ℤ◌ ◌+ℤ◌
column_ml_lem (pos n) = ground arith
column_ml_lem (negsuc n) = ground arith

module _ (number_of : String → Ratio) where
  pub record IsStored (input : FuelEventInput) (row : FuelEventRow) : Type 0 where
    pub same_id : row.id ≡ input.id
    pub same_tenant_id : row.tenant_id ≡ input.tenant_id
    pub same_tank_id : row.tank_id ≡ input.tank_id
    pub same_type : row.type ≡ input.type
    pub same_status : row.status ≡ input.status
    pub same_confidence : to_number number_of row.confidence ≡ input.confidence
    -- The column has the value of the text that was written.
    pub same_volume :
        to_number number_of row.volume_change_litres ≡ number_of input.volume_change_litres
    pub same_window_start : input.window_start ≡ some row.window_start
    pub same_window_end : input.window_end ≡ some row.window_end
    pub same_evidence : row.evidence ≡ input.evidence
    pub same_notes : row.notes ≡ input.notes
    pub same_decided_by : row.decided_by_user_id ≡ input.decided_by_user_id
    pub same_decided_at : input.decided_at ≡ written row.decided_at

module _ (rt : Runtime) (number_of : String → Ratio)
    (shows : (n : ℕ) → rt.int_text (pos n) ≡ decimal_text n)
    (reads : (s : String) (value : Ratio)
      → decimal_value s ≡ some value
      → number_of s ≡ value) where
  -- When String writes whole numbers in decimal and Number reads the value of every decimal, an
  -- event whose dates toISOString made, written to a row which holds the columns written, its
  -- volume being of the value of the text written, is read back the same with all its evidence, but
  -- for the dates of creation and change, which are those of the row.
  pub to_domain_fuel_event-stored :
      (event : FuelEvent) (row : FuelEventRow)
      → IsStored number_of (to_prisma_fuel_event_input rt event) row
      → IsIso rt event.window_start
      → IsIso rt event.window_end
      → IsIsoOrNull rt event.decided_at
      → to_domain_fuel_event rt number_of row
        ≡ some (record event {
          created_at = rt.to_iso row.created_at;
          updated_at = rt.to_iso row.updated_at;
        })
  unfolding to_domain_fuel_event to_prisma_fuel_event_input event_with_evidence column_ml
  to_domain_fuel_event-stored event row stored start end decided =
      let evidence =
        ap as_evidence stored.same_evidence ∙ as_evidence-evidence_to_json event.evidence in
      let window_start =
        to_iso-written rt event.window_start row.window_start stored.same_window_start start in
      let window_end =
        to_iso-written rt event.window_end row.window_end stored.same_window_end end in
      let decided_at =
        iso_or_null-written rt event.decided_at row.decided_at stored.same_decided_at decided in
      let volume =
        ap (λ r. math_round (mul_ratio r (record { num = pos 1000; den_pred = 0 })))
          (stored.same_volume
            ∙ reads _ _ (decimal_value-litres_string rt shows event.volume_change_ml))
        ∙ column_ml_lem event.volume_change_ml in
      rw (evidence, to_domain_fuel_event)
        (ground (arith, window_start, window_end, decided_at, volume))
