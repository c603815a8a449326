-- ===== src/Domain/Views.antt =====
-- packages/core/src/domain/views.ts, and `ageMinutes` of freshness.ts. A product is the key of its
-- stock by its text.
pub mod Sums
pub mod Stock
use mafuta.Base.{
  ℕ, suc, ◌+◌, String, Option, none, some, Bool, true, false, not, ◌||◌, List, [], ◌∷◌, map, length,
  if◌then◌else◌,
}
use mafuta.Base.Int.{ℤ, pos, negsuc, neg, ◌+ℤ◌, ◌-ℤ◌, eqb_ℤ}
use mafuta.Base.Ratio.{Ratio, over, of_ℕ, mul_ratio, math_round, le_ratio}
use mafuta.Base.Dict.{Dict, get, set, values}
use mafuta.Base.Sort.{sort}
use mafuta.Runtime.{Runtime}
use mafuta.Domain.Reading.{
  TankReading, ReadingFreshness, ReadingQuality, fresh, stale, invalid, net_volume_ml,
}
use mafuta.Domain.Freshness.{with_freshness, default_delayed_after_minutes}
use mafuta.Domain.Alert.{Alert, AlertSeverity, critical, warning, info}
use mafuta.Domain.Station.{Station}
use mafuta.Domain.Tank.{
  Tank, FuelProduct, diesel, petrol_91, petrol_95, kerosene, adblue, StockStatus, fill_percent_ml,
  free_capacity_ml, stock_status, usable_capacity_ml,
}

pub record ReadingView : Type 0 where
  pub reading : TankReading
  pub age_minutes : Option Ratio
  pub is_stale : Bool

-- `Math.round(x * 10) / 10`
unfoldable pub round_tenths : Ratio → Ratio
unfolding mul_ratio math_round
round_tenths x = over (math_round (mul_ratio x (of_ℕ 10))) 10

abbrev pub is_stale_freshness : ReadingFreshness → Bool
is_stale_freshness stale = true
is_stale_freshness _ = false

abbrev pub is_fresh : ReadingFreshness → Bool
is_fresh fresh = true
is_fresh _ = false

abbrev pub is_invalid_quality : ReadingQuality → Bool
is_invalid_quality invalid = true
is_invalid_quality _ = false

pub record TankSummary : Type 0 where
  pub tank : Tank
  pub station : Option Station
  pub latest_reading : Option ReadingView
  pub net_volume_ml : Option ℤ
  pub fill_percent : Option Ratio
  pub free_capacity_ml : Option ℤ
  pub stock_status : Option StockStatus
  pub overfill_risk : Bool
  pub open_alert_count : ℕ
  pub highest_open_severity : Option AlertSeverity
  pub data_missing_or_stale : Bool

abbrev or_info : Option AlertSeverity → Option AlertSeverity
or_info none = some info
or_info (some severity) = some severity

unfoldable pub highest_from : Option AlertSeverity → List Alert → Option AlertSeverity
highest_from highest [] = highest
highest_from highest (alert ∷ alerts) = elim alert.severity [
  | critical ↦ some critical
  | warning ↦ highest_from (some warning) alerts
  | info ↦ highest_from (or_info highest) alerts
]

unfoldable pub highest_severity : List Alert → Option AlertSeverity
unfolding highest_from
highest_severity alerts = highest_from none alerts

abbrev pub option_map : {A B : Type 0} → (A → B) → Option A → Option B
option_map f none = none
option_map f (some a) = some (f a)

module _ (rt : Runtime) where
  unfoldable pub age_minutes : TankReading → ℤ → Option Ratio
  unfolding ◌-ℤ◌
  age_minutes reading now = elim (rt.date_parse reading.recorded_at) [
    | none ↦ none
    | some recorded ↦ some (over (now -ℤ recorded) 60000)
  ]

  unfoldable pub to_reading_view : TankReading → ℤ → Ratio → ReadingView
  unfolding round_tenths with_freshness age_minutes
  to_reading_view reading now stale_after_minutes =
      let refreshed = with_freshness rt reading now (record {
        stale_after_minutes = stale_after_minutes;
        delayed_after_minutes = default_delayed_after_minutes;
      }) in
      record {
        reading = refreshed;
        age_minutes = option_map round_tenths (age_minutes refreshed now);
        is_stale = is_stale_freshness refreshed.freshness;
      }

  -- The volume of a reading that is not invalid.
  abbrev usable_volume : Option ReadingView → Option ℤ
  usable_volume none = none
  usable_volume (some view) =
      if is_invalid_quality view.reading.quality then none else some (net_volume_ml view.reading)

  abbrev is_missing_or_stale : Option ReadingView → Bool
  is_missing_or_stale none = true
  is_missing_or_stale (some view) =
      not (is_fresh view.reading.freshness) || is_invalid_quality view.reading.quality

  abbrev at_least : Ratio → Option Ratio → Bool
  at_least limit none = false
  at_least limit (some percent) = le_ratio limit percent

  unfoldable pub to_tank_summary :
      Tank → Option Station → Option TankReading → List Alert → ℤ → TankSummary
  unfolding round_tenths to_reading_view highest_severity fill_percent_ml free_capacity_ml
      stock_status net_volume_ml
  to_tank_summary tank station latest_reading open_alerts now =
      let view =
        option_map (λ r. to_reading_view r now tank.thresholds.stale_after_minutes)
          latest_reading in
      let volume = usable_volume view in
      let percent = option_map (fill_percent_ml tank) volume in
      record {
        tank = tank;
        station = station;
        latest_reading = view;
        net_volume_ml = volume;
        fill_percent = option_map round_tenths percent;
        free_capacity_ml = option_map (free_capacity_ml tank) volume;
        stock_status = option_map (stock_status tank) volume;
        overfill_risk = at_least tank.thresholds.high_percent percent;
        open_alert_count = length open_alerts;
        highest_open_severity = highest_severity open_alerts;
        data_missing_or_stale = is_missing_or_stale view;
      }

pub record ProductStock : Type 0 where
  pub product : FuelProduct
  pub tank_count : ℕ
  pub capacity_ml : ℤ
  pub net_volume_ml : ℤ
  pub fill_percent : Ratio
  pub tanks_without_reading : ℕ

abbrev pub product_text : FuelProduct → String
product_text diesel = "diesel"
product_text petrol_91 = "petrol-91"
product_text petrol_95 = "petrol-95"
product_text kerosene = "kerosene"
product_text adblue = "adblue"

abbrev pub empty_stock : FuelProduct → ProductStock
empty_stock product = record {
  product = product;
  tank_count = 0;
  capacity_ml = pos 0;
  net_volume_ml = pos 0;
  fill_percent = of_ℕ 0;
  tanks_without_reading = 0;
}

abbrev pub or_empty : FuelProduct → Option ProductStock → ProductStock
or_empty product none = empty_stock product
or_empty product (some existing) = existing

abbrev pub volume_or_zero : Option ℤ → ℤ
volume_or_zero none = pos 0
volume_or_zero (some volume) = volume

abbrev pub one_if_none : Option ℤ → ℕ
one_if_none none = 1
one_if_none (some volume) = 0

unfoldable pub add_summary : ProductStock → TankSummary → ProductStock
unfolding usable_capacity_ml ◌+ℤ◌
add_summary existing summary = record {
  product = existing.product;
  tank_count = existing.tank_count + 1;
  capacity_ml = existing.capacity_ml +ℤ usable_capacity_ml summary.tank;
  net_volume_ml = existing.net_volume_ml +ℤ volume_or_zero summary.net_volume_ml;
  fill_percent = of_ℕ 0;
  tanks_without_reading = existing.tanks_without_reading + one_if_none summary.net_volume_ml;
}

-- The loop over the summaries.
unfoldable pub stock_from : Dict ProductStock → List TankSummary → Dict ProductStock
unfolding get set add_summary
stock_from by_product [] = by_product
stock_from by_product (summary ∷ summaries) =
    let product = summary.tank.product in
    let existing = or_empty product (get (product_text product) by_product) in
    stock_from (set (product_text product) (add_summary existing summary) by_product) summaries

-- `a / b` for a `b` that is not 0.
abbrev quotient : ℤ → ℤ → Ratio
quotient a (pos b) = over a b
quotient a (negsuc b) = over (neg a) (suc b)

unfoldable pub with_fill_percent : ProductStock → ProductStock
unfolding mul_ratio math_round
with_fill_percent entry = record entry {
  fill_percent =
      if eqb_ℤ entry.capacity_ml (pos 0)
      then of_ℕ 0
      else over
          (math_round (mul_ratio (quotient entry.net_volume_ml entry.capacity_ml) (of_ℕ 1000))) 10;
}

unfoldable pub summarise_product_stock : Runtime → List TankSummary → List ProductStock
unfolding stock_from with_fill_percent values sort
summarise_product_stock rt summaries =
    sort (λ left right. rt.locale_after (product_text left.product) (product_text right.product))
      (map with_fill_percent (values (stock_from [] summaries)))
