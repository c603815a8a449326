-- ===== src/Events/Detection.antt =====
-- packages/core/src/events/detection.ts
pub mod Justified
use mafuta.Base.{
  String, Option, some, none, Bool, true, false, not, ◌&&◌, List, [], ◌∷◌, ◌++◌, ◌==◌, filter, map,
  any, length, get_last?, get_or, ltb, if◌then◌else◌, template,
}
use mafuta.Base.Int.{ℤ, pos, neg, ◌-ℤ◌, leb_ℤ, ltb_ℤ}
use mafuta.Base.Ratio.{
  Ratio, over, of_ℕ, of_ℤ, lt_ratio, le_ratio, sub_ratio, mul_ratio, div_ratio, math_round,
}
use mafuta.Runtime.{Runtime}
use mafuta.Domain.Quantity.{litres_to_ml, ml_to_litres, percent_of}
use mafuta.Domain.Reading.{TankReading, is_invalid, is_ok, net_volume_ml}
use mafuta.Domain.Tank.{Tank, usable_capacity_ml}
use mafuta.Domain.Event.{
  FuelEvent, FuelEventType, FuelEventEvidence, candidate_delivery, candidate_unexplained_decrease,
  DataQuality, ok, suspect, rejected, same_event_type, same_event_status, score_confidence,
  default_explanations_for_delivery, default_explanations_for_decrease,
}
use mafuta.Alerts.Engine.{round2}

pub record FuelEventDraft : Type 0 where
  pub tank_id : String
  pub type : FuelEventType
  pub confidence : Ratio
  pub volume_change_ml : ℤ
  pub window_start : String
  pub window_end : String
  pub evidence : FuelEventEvidence

abbrev min_decrease_window_minutes : Ratio
min_decrease_window_minutes = of_ℕ 2

-- `readingIds.includes(id)`
unfoldable pub includes : List String → String → Bool
includes ids id = any (λ i. i == id) ids

unfoldable pub is_duplicate : FuelEventType → String → List FuelEvent → Bool
unfolding includes
is_duplicate type latest_reading_id existing_events =
    any
      (λ e.
        same_event_type e.type type
        && not (same_event_status e.status rejected)
        && includes e.evidence.reading_ids latest_reading_id)
      existing_events

abbrev lowest_of : TankReading → TankReading → TankReading
lowest_of lowest reading =
    if ltb_ℤ (net_volume_ml reading) (net_volume_ml lowest) then reading else lowest

abbrev highest_of : TankReading → TankReading → TankReading
highest_of top reading = if ltb_ℤ (net_volume_ml top) (net_volume_ml reading) then reading else top

-- `window.reduce(f)` from the first reading on.
unfoldable pub reduce :
    (TankReading → TankReading → TankReading) → TankReading → List TankReading → TankReading
reduce f acc [] = acc
reduce f acc (r ∷ rs) = reduce f (f acc r) rs

abbrev quality_of : List TankReading → DataQuality
quality_of [] = ok
quality_of (r ∷ rs) = suspect

module _ (rt : Runtime) where
  minutes_between : TankReading → TankReading → Option Ratio
  minutes_between earlier later = elim (rt.date_parse earlier.recorded_at) [
    | none ↦ none
    | some start ↦ elim (rt.date_parse later.recorded_at) [
      | none ↦ none
      | some end ↦ some (over (end -ℤ start) 60000)
    ]
  ]

  -- The test of the window's filter; an instant that cannot be parsed is outside.
  is_in_window : Tank → Option ℤ → Option ℤ → Bool
  unfolding sub_ratio mul_ratio
  is_in_window tank (some last) (some at) =
      le_ratio
        (sub_ratio (of_ℤ last) (mul_ratio tank.thresholds.delivery_window_minutes (of_ℕ 60000)))
        (of_ℤ at)
      && leb_ℤ at last
  is_in_window tank _ _ = false

  unfoldable pub delivery_window : Tank → List TankReading → TankReading → List TankReading
  unfolding is_in_window
  delivery_window tank usable latest =
      filter
        (λ r. is_in_window tank (rt.date_parse latest.recorded_at) (rt.date_parse r.recorded_at))
        usable

  delivery_draft : Tank → List TankReading → TankReading → TankReading → FuelEventDraft
  unfolding minutes_between
  delivery_draft tank window before latest =
      let rise_ml = net_volume_ml latest -ℤ net_volume_ml before in
      let cap_ml = usable_capacity_ml tank in
      let doubtful = filter (λ r. not (is_ok r.quality)) window in
      let risen = percent_of rise_ml cap_ml in
      record {
        tank_id = tank.id;
        type = candidate_delivery;
        confidence =
            score_confidence (of_ℤ rise_ml) (of_ℤ (litres_to_ml tank.thresholds.delivery_litres))
              (length doubtful);
        volume_change_ml = rise_ml;
        window_start = before.recorded_at;
        window_end = latest.recorded_at;
        evidence = record {
          window_start = before.recorded_at;
          window_end = latest.recorded_at;
          window_minutes = round2 (get_or (minutes_between before latest) (of_ℕ 0));
          volume_before_ml = net_volume_ml before;
          volume_after_ml = net_volume_ml latest;
          volume_change_ml = rise_ml;
          reading_ids = map (λ r. r.id) window;
          first_reading_id = some before.id;
          last_reading_id = some latest.id;
          threshold_litres_per_hour = none;
          threshold_litres = some tank.thresholds.delivery_litres;
          rule = template (
              "Rise of at least "
              ∷ rt.number_text tank.thresholds.delivery_litres
              ∷ " L sustained within "
              ∷ rt.number_text tank.thresholds.delivery_window_minutes
              ∷ " minutes and holding at the latest reading ("
              ∷ rt.to_fixed risen 1
              ∷ "% of usable capacity)"
              ∷ []);
          suspect_reading_ids = map (λ r. r.id) doubtful;
          data_quality = quality_of doubtful;
          possible_explanations = default_explanations_for_delivery;
          investigation_required = true;
        };
      }

  -- The checks on a window of at least two readings, `first` before `rest`.
  delivery_from_window :
      Tank → TankReading → List TankReading → TankReading → List FuelEvent → Option FuelEventDraft
  unfolding reduce delivery_draft is_duplicate
  delivery_from_window tank first rest latest existing_events =
      let before = reduce lowest_of first rest in
      let highest = reduce highest_of first rest in
      if ltb_ℤ (net_volume_ml latest -ℤ net_volume_ml before)
        (litres_to_ml tank.thresholds.delivery_litres)
      then none
      else if not (highest.id == latest.id)
      then none
      else if is_duplicate candidate_delivery latest.id existing_events
      then none
      else some (delivery_draft tank (first ∷ rest) before latest)

  detect_in_window : Tank → List TankReading → TankReading → List FuelEvent → Option FuelEventDraft
  unfolding delivery_from_window
  detect_in_window tank (first ∷ second ∷ rest) latest existing_events =
      delivery_from_window tank first (second ∷ rest) latest existing_events
  detect_in_window tank _ latest existing_events = none

  unfoldable pub detect_delivery_candidate :
      Tank → List TankReading → List FuelEvent → Option FuelEventDraft
  unfolding detect_in_window delivery_window
  detect_delivery_candidate tank usable existing_events = elim (get_last? usable) [
    | none ↦ none
    | some latest ↦
        detect_in_window tank (delivery_window tank usable latest) latest existing_events
  ]

  decrease_draft : Tank → TankReading → TankReading → Ratio → FuelEventDraft
  decrease_draft tank previous latest minutes =
      let lost_ml = net_volume_ml previous -ℤ net_volume_ml latest in
      let limit = tank.thresholds.rapid_drop_litres_per_hour in
      let threshold_ml_per_hour = of_ℤ (litres_to_ml limit) in
      let observed_ml_per_hour = mul_ratio (div_ratio (of_ℤ lost_ml) minutes) (of_ℕ 60) in
      let threshold_for_window_ml = div_ratio (mul_ratio threshold_ml_per_hour minutes) (of_ℕ 60) in
      let doubtful = filter (λ r. not (is_ok r.quality)) (previous ∷ latest ∷ []) in
      record {
        tank_id = tank.id;
        type = candidate_unexplained_decrease;
        confidence = score_confidence (of_ℤ lost_ml) threshold_for_window_ml (length doubtful);
        volume_change_ml = neg lost_ml;
        window_start = previous.recorded_at;
        window_end = latest.recorded_at;
        evidence = record {
          window_start = previous.recorded_at;
          window_end = latest.recorded_at;
          window_minutes = round2 minutes;
          volume_before_ml = net_volume_ml previous;
          volume_after_ml = net_volume_ml latest;
          volume_change_ml = neg lost_ml;
          reading_ids = previous.id ∷ latest.id ∷ [];
          first_reading_id = some previous.id;
          last_reading_id = some latest.id;
          threshold_litres_per_hour = some limit;
          threshold_litres = some (ml_to_litres (math_round threshold_for_window_ml));
          rule = template (
              "Loss rate "
              ∷ rt.to_fixed (ml_to_litres (math_round observed_ml_per_hour)) 0
              ∷ " L/h exceeds the configured "
              ∷ rt.number_text limit
              ∷ " L/h for a decrease of "
              ∷ rt.to_fixed (ml_to_litres lost_ml) 1
              ∷ " L over "
              ∷ rt.to_fixed minutes 1
              ∷ " minutes"
              ∷ []);
          suspect_reading_ids = map (λ r. r.id) doubtful;
          data_quality = quality_of doubtful;
          possible_explanations = default_explanations_for_decrease;
          investigation_required = true;
        };
      }

  -- The rules on the last two usable readings, `minutes` apart.
  decrease_between :
      Tank → TankReading → TankReading → List FuelEvent → Ratio → Option FuelEventDraft
  unfolding decrease_draft is_duplicate mul_ratio div_ratio
  decrease_between tank previous latest existing_events minutes =
      let lost_ml = net_volume_ml previous -ℤ net_volume_ml latest in
      let threshold_ml_per_hour = litres_to_ml tank.thresholds.rapid_drop_litres_per_hour in
      if lt_ratio minutes min_decrease_window_minutes
      then none
      else if leb_ℤ lost_ml (pos 0)
      then none
      else if lt_ratio (mul_ratio (div_ratio (of_ℤ lost_ml) minutes) (of_ℕ 60))
          (of_ℤ threshold_ml_per_hour)
      then none
      else if is_duplicate candidate_unexplained_decrease latest.id existing_events
      then none
      else some (decrease_draft tank previous latest minutes)

  decrease_of_pair : Tank → TankReading → TankReading → List FuelEvent → Option FuelEventDraft
  unfolding decrease_between minutes_between
  decrease_of_pair tank previous latest existing_events = elim (minutes_between previous latest) [
    | none ↦ none
    | some minutes ↦ decrease_between tank previous latest existing_events minutes
  ]

  unfoldable pub detect_decrease_candidate :
      Tank → List TankReading → List FuelEvent → Option FuelEventDraft
  unfolding decrease_of_pair
  detect_decrease_candidate tank (previous ∷ latest ∷ []) existing_events =
      decrease_of_pair tank previous latest existing_events
  detect_decrease_candidate tank (r ∷ s ∷ t ∷ usable) existing_events =
      detect_decrease_candidate tank (s ∷ t ∷ usable) existing_events
  detect_decrease_candidate tank _ existing_events = none

  abbrev to_list : Option FuelEventDraft → List FuelEventDraft
  to_list none = []
  to_list (some draft) = draft ∷ []

  unfoldable pub detect_tank_events : Tank → List TankReading → List FuelEvent → List FuelEventDraft
  detect_tank_events tank readings existing_events =
      let usable = filter (λ r. not (is_invalid r.quality)) readings in
      if ltb (length usable) 2
      then []
      else to_list (detect_delivery_candidate tank usable existing_events)
        ++ to_list (detect_decrease_candidate tank usable existing_events)
