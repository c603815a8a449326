-- ===== src/Domain/Event.antt =====
-- packages/core/src/domain/event.ts
use mafuta.Base.{ℕ, Bool, true, false, String, Option, List, [], ◌∷◌, if◌then◌else◌, ltb}
use mafuta.Base.Int.{ℤ, pos}
use mafuta.Base.Ratio.{
  Ratio, over, of_ℕ, lt_ratio, add_ratio, sub_ratio, mul_ratio, div_ratio, min_ratio, max_ratio,
  abs_ratio, math_round,
}

pub data FuelEventType : Type 0 where
  candidate_delivery candidate_unexplained_decrease : FuelEventType

pub data FuelEventStatus : Type 0 where
  candidate confirmed rejected : FuelEventStatus

abbrev pub same_event_type : FuelEventType → FuelEventType → Bool
same_event_type candidate_delivery candidate_delivery = true
same_event_type candidate_unexplained_decrease candidate_unexplained_decrease = true
same_event_type _ _ = false

abbrev pub same_event_status : FuelEventStatus → FuelEventStatus → Bool
same_event_status candidate candidate = true
same_event_status confirmed confirmed = true
same_event_status rejected rejected = true
same_event_status _ _ = false

abbrev pub event_type_text : FuelEventType → String
event_type_text candidate_delivery = "candidate_delivery"
event_type_text candidate_unexplained_decrease = "candidate_unexplained_decrease"

abbrev pub event_status_text : FuelEventStatus → String
event_status_text candidate = "candidate"
event_status_text confirmed = "confirmed"
event_status_text rejected = "rejected"

pub data DataQuality : Type 0 where
  ok suspect : DataQuality

pub record FuelEventEvidence : Type 0 where
  pub window_start : String
  pub window_end : String
  pub window_minutes : Ratio
  pub volume_before_ml : ℤ
  pub volume_after_ml : ℤ
  pub volume_change_ml : ℤ
  pub reading_ids : List String
  pub first_reading_id : Option String
  pub last_reading_id : Option String
  pub threshold_litres_per_hour : Option Ratio
  pub threshold_litres : Option Ratio
  pub rule : String
  pub suspect_reading_ids : List String
  pub data_quality : DataQuality
  pub possible_explanations : List String
  pub investigation_required : Bool

pub record FuelEvent : Type 0 where
  pub id : String
  pub tenant_id : String
  pub tank_id : String
  pub type : FuelEventType
  pub status : FuelEventStatus
  pub confidence : Ratio
  pub volume_change_ml : ℤ
  pub window_start : String
  pub window_end : String
  pub evidence : FuelEventEvidence
  pub notes : Option String
  pub decided_by : Option String
  pub decided_at : Option String
  pub created_at : String
  pub updated_at : String

abbrev pub default_explanations_for_decrease : List String
default_explanations_for_decrease =
    "Unrecorded withdrawal or transfer"
    ∷ "Sale not captured because no dispenser data is integrated yet" ∷ "Tank or line leak"
    ∷ "Probe or calibration error"
    ∷ "Reading taken at a different temperature than the previous reading" ∷ []

abbrev pub default_explanations_for_delivery : List String
default_explanations_for_delivery =
    "Fuel delivery recorded by the supplier" ∷ "Transfer between tanks"
    ∷ "Probe or calibration error on the rise" ∷ []

unfoldable pub score_confidence : Ratio → Ratio → ℕ → Ratio
unfolding add_ratio sub_ratio mul_ratio div_ratio min_ratio max_ratio abs_ratio math_round
score_confidence observed_ml threshold_ml suspect_readings =
    let threshold = max_ratio (of_ℕ 1) (abs_ratio threshold_ml) in
    let observed = abs_ratio observed_ml in
    let excess_ratio =
      max_ratio (of_ℕ 0)
        (min_ratio (of_ℕ 1) (div_ratio (sub_ratio observed threshold) threshold)) in
    let base =
      if lt_ratio observed_ml threshold
      then of_ℕ 0
      else add_ratio (over (pos 1) 2) (mul_ratio (over (pos 1) 2) excess_ratio) in
    let penalty = if ltb 0 suspect_readings then over (pos 4) 5 else of_ℕ 1 in
    over (math_round (mul_ratio (mul_ratio base penalty) (of_ℕ 1000))) 1000
