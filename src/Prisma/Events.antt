-- ===== src/Prisma/Events.antt =====
-- packages/core/src/adapters/prisma/mappers.ts: fuel events with their evidence.
use mafuta.Base.{String, Option, none, some, Bool, List, [], ◌∷◌, ◌==◌, if◌then◌else◌, nat_eq}
use mafuta.Base.Int.{ℤ}
use mafuta.Base.Ratio.{Ratio, of_ℤ, of_ℕ, mul_ratio, math_round}
use mafuta.Runtime.{Runtime}
use mafuta.Domain.Quantity.{litres_string}
use mafuta.Domain.Event.{
  FuelEvent, FuelEventType, FuelEventStatus, FuelEventEvidence, DataQuality, ok, suspect,
}
use mafuta.Prisma.{
  Json, JsonItems, JsonFields, num, str, bool, arr, nil, item, end, field, DecimalLike, to_number,
  get_field, iso_or_null, to_date, date_or_null,
}
use mafuta.Prisma.Tanks.{get_number}

infixl 5 ◌>>=◌
abbrev ◌>>=◌ : {A B : Type 0} → Option A → (A → Option B) → Option B
none >>= f = none
some a >>= f = f a

-- The source takes the column for an evidence unseen. The fields of the type are read here; `none`
-- is a field that is missing or has another type.
unfoldable pub get_text : String → JsonFields → Option String
unfolding get_field
get_text name fields = elim (get_field name fields) [ some (str value) ↦ some value | _ ↦ none ]

abbrev whole : Ratio → Option ℤ
whole value = if nat_eq value.den_pred 0 then some value.num else none

-- A number of millilitres is whole.
unfoldable pub get_whole : String → JsonFields → Option ℤ
unfolding get_number
get_whole name fields = get_number name fields >>= whole

unfoldable pub get_flag : String → JsonFields → Option Bool
unfolding get_field
get_flag name fields = elim (get_field name fields) [ some (bool value) ↦ some value | _ ↦ none ]

unfoldable pub get_text_or_null : String → JsonFields → Option (Option String)
unfolding get_field
get_text_or_null name fields = elim (get_field name fields) [
  | some (str value) ↦ some (some value)
  | some Json.null ↦ some none
  | _ ↦ none
]

unfoldable pub get_number_or_null : String → JsonFields → Option (Option Ratio)
unfolding get_field
get_number_or_null name fields = elim (get_field name fields) [
  | some (num value) ↦ some (some value)
  | some Json.null ↦ some none
  | _ ↦ none
]

abbrev cons_text : Option (List String) → String → Option (List String)
cons_text none value = none
cons_text (some values) value = some (value ∷ values)

unfoldable pub as_texts : JsonItems → Option (List String)
as_texts nil = some []
as_texts (item (str value) rest) = cons_text (as_texts rest) value
as_texts (item _ rest) = none

unfoldable pub get_texts : String → JsonFields → Option (List String)
unfolding get_field as_texts
get_texts name fields = elim (get_field name fields) [
  | some (arr items) ↦ as_texts items
  | _ ↦ none
]

abbrev pub data_quality_of : String → Option DataQuality
data_quality_of value =
    if value == "ok" then some ok else if value == "suspect" then some suspect else none

unfoldable pub as_evidence : JsonFields → Option FuelEventEvidence
unfolding get_text get_whole get_flag get_text_or_null get_number_or_null get_texts get_number
as_evidence fields = do
  window_start ← get_text "windowStart" fields
  window_end ← get_text "windowEnd" fields
  window_minutes ← get_number "windowMinutes" fields
  volume_before_ml ← get_whole "volumeBeforeMl" fields
  volume_after_ml ← get_whole "volumeAfterMl" fields
  volume_change_ml ← get_whole "volumeChangeMl" fields
  reading_ids ← get_texts "readingIds" fields
  first_reading_id ← get_text_or_null "firstReadingId" fields
  last_reading_id ← get_text_or_null "lastReadingId" fields
  threshold_litres_per_hour ← get_number_or_null "thresholdLitresPerHour" fields
  threshold_litres ← get_number_or_null "thresholdLitres" fields
  rule ← get_text "rule" fields
  suspect_reading_ids ← get_texts "suspectReadingIds" fields
  data_quality ← get_text "dataQuality" fields >>= data_quality_of
  possible_explanations ← get_texts "possibleExplanations" fields
  investigation_required ← get_flag "investigationRequired" fields
  some (record {
    window_start = window_start;
    window_end = window_end;
    window_minutes = window_minutes;
    volume_before_ml = volume_before_ml;
    volume_after_ml = volume_after_ml;
    volume_change_ml = volume_change_ml;
    reading_ids = reading_ids;
    first_reading_id = first_reading_id;
    last_reading_id = last_reading_id;
    threshold_litres_per_hour = threshold_litres_per_hour;
    threshold_litres = threshold_litres;
    rule = rule;
    suspect_reading_ids = suspect_reading_ids;
    data_quality = data_quality;
    possible_explanations = possible_explanations;
    investigation_required = investigation_required;
  })

pub record FuelEventRow : Type 0 where
  pub id : String
  pub tenant_id : String
  pub tank_id : String
  pub type : FuelEventType
  pub status : FuelEventStatus
  pub confidence : DecimalLike
  pub volume_change_litres : DecimalLike
  pub window_start : ℤ
  pub window_end : ℤ
  pub evidence : JsonFields
  pub notes : Option String
  pub decided_by_user_id : Option String
  pub decided_at : Option ℤ
  pub created_at : ℤ
  pub updated_at : ℤ

-- `Math.round(toNumber(litres) * 1000)`
unfoldable pub column_ml : (String → Ratio) → DecimalLike → ℤ
unfolding to_number mul_ratio math_round
column_ml number_of litres = math_round (mul_ratio (to_number number_of litres) (of_ℕ 1000))

module _ (rt : Runtime) (number_of : String → Ratio) where
  unfoldable pub event_with_evidence : FuelEventRow → FuelEventEvidence → FuelEvent
  unfolding to_number column_ml
  event_with_evidence row evidence = record {
    id = row.id;
    tenant_id = row.tenant_id;
    tank_id = row.tank_id;
    type = row.type;
    status = row.status;
    confidence = to_number number_of row.confidence;
    volume_change_ml = column_ml number_of row.volume_change_litres;
    window_start = rt.to_iso row.window_start;
    window_end = rt.to_iso row.window_end;
    evidence = evidence;
    notes = row.notes;
    decided_by = row.decided_by_user_id;
    decided_at = iso_or_null rt row.decided_at;
    created_at = rt.to_iso row.created_at;
    updated_at = rt.to_iso row.updated_at;
  }

  -- `none` where the evidence has a shape that the type has not.
  unfoldable pub to_domain_fuel_event : FuelEventRow → Option FuelEvent
  unfolding as_evidence event_with_evidence
  to_domain_fuel_event row = do
    evidence ← as_evidence row.evidence
    some (event_with_evidence row evidence)

unfoldable pub text_items : List String → JsonItems
text_items [] = nil
text_items (value ∷ values) = item (str value) (text_items values)

abbrev pub text_or_null_json : Option String → Json
text_or_null_json none = Json.null
text_or_null_json (some value) = str value

abbrev pub number_or_null_json : Option Ratio → Json
number_or_null_json none = Json.null
number_or_null_json (some value) = num value

abbrev pub data_quality_text : DataQuality → String
data_quality_text ok = "ok"
data_quality_text suspect = "suspect"

unfoldable pub evidence_to_json : FuelEventEvidence → JsonFields
unfolding text_items
evidence_to_json evidence = field "windowStart" (str evidence.window_start) (
    field "windowEnd" (str evidence.window_end) (
      field "windowMinutes" (num evidence.window_minutes) (
        field "volumeBeforeMl" (num (of_ℤ evidence.volume_before_ml)) (
          field "volumeAfterMl" (num (of_ℤ evidence.volume_after_ml)) (
            field "volumeChangeMl" (num (of_ℤ evidence.volume_change_ml)) (
              field "readingIds" (arr (text_items evidence.reading_ids)) (
                field "firstReadingId" (text_or_null_json evidence.first_reading_id) (
                  field "lastReadingId" (text_or_null_json evidence.last_reading_id) (
                    field "thresholdLitresPerHour"
                      (number_or_null_json evidence.threshold_litres_per_hour)
                      (field "thresholdLitres" (number_or_null_json evidence.threshold_litres) (
                        field "rule" (str evidence.rule) (
                          field "suspectReadingIds" (arr (text_items evidence.suspect_reading_ids))
                            (field "dataQuality" (str (data_quality_text evidence.data_quality)) (
                              field "possibleExplanations"
                                (arr (text_items evidence.possible_explanations))
                                (field "investigationRequired"
                                  (bool evidence.investigation_required) end)))))))))))))))

pub record FuelEventInput : Type 0 where
  pub id : String
  pub tenant_id : String
  pub tank_id : String
  pub type : FuelEventType
  pub status : FuelEventStatus
  pub confidence : Ratio
  pub volume_change_litres : String
  pub window_start : Option ℤ
  pub window_end : Option ℤ
  pub evidence : JsonFields
  pub notes : Option String
  pub decided_by_user_id : Option String
  pub decided_at : Option (Option ℤ)

unfoldable pub to_prisma_fuel_event_input : Runtime → FuelEvent → FuelEventInput
unfolding litres_string evidence_to_json
to_prisma_fuel_event_input rt event = record {
  id = event.id;
  tenant_id = event.tenant_id;
  tank_id = event.tank_id;
  type = event.type;
  status = event.status;
  confidence = event.confidence;
  volume_change_litres = litres_string rt event.volume_change_ml;
  window_start = to_date rt event.window_start;
  window_end = to_date rt event.window_end;
  evidence = evidence_to_json event.evidence;
  notes = event.notes;
  decided_by_user_id = event.decided_by;
  decided_at = date_or_null rt event.decided_at;
}
