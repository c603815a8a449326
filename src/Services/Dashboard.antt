-- ===== src/Services/Dashboard.antt =====
-- packages/core/src/services/dashboard-service.ts: the series of a tank, and the order of the tanks
-- that need attention.
pub mod Buckets
use mafuta.Base.{
  ℕ, zero, suc, ◌+◌, ◌-◌, ◌*◌, ◌/◌, String, Option, none, some, true, ◌||◌, List, [], ◌∷◌,
  if◌then◌else◌, ltb, leb, nat_eq, get_or,
}
use mafuta.Base.Int.{ℤ, pos, negsuc, neg, pos_part, ltb_ℤ, ◌+ℤ◌, ◌-ℤ◌, ◌*ℤ◌}
use mafuta.Base.Ratio.{over, of_ℕ, mul_ratio, math_round}
use mafuta.Runtime.{Runtime}
use mafuta.Errors.{other}
use mafuta.Effect.{Action, pure, require, ◌>>=◌}
use mafuta.Memory.{World, now}
use mafuta.Memory.Readings
use mafuta.Domain.Alert.{AlertSeverity}
use mafuta.Domain.Reading.{TankReading, fresh, delayed, stale, net_volume_ml}
use mafuta.Domain.Tank.{FuelProduct, StockStatus}
use mafuta.Domain.Views.{TankSummary, ReadingView}
use mafuta.Services.Fleet.{require_tank}

pub record DashboardSeriesPoint : Type 0 where
  pub at : String
  pub net_volume_ml : ℤ
  pub reading_count : ℕ

pub record TankSeries : Type 0 where
  pub tank_id : String
  pub tank_name : String
  pub product : FuelProduct
  pub capacity_ml : ℤ
  pub buckets : List DashboardSeriesPoint

pub record Bucket : Type 0 where
  pub total : ℤ
  pub count : ℕ

unfoldable pub new_buckets : ℕ → List Bucket
new_buckets zero = []
new_buckets (suc n) = record { total = pos 0; count = 0 } ∷ new_buckets n

-- An index that is no bucket's changes nothing.
unfoldable pub add_at : ℕ → ℤ → List Bucket → List Bucket
unfolding ◌+ℤ◌
add_at index volume [] = []
add_at zero volume (bucket ∷ buckets) =
    record { total = bucket.total +ℤ volume; count = bucket.count + 1 } ∷ buckets
add_at (suc index) volume (bucket ∷ buckets) = bucket ∷ add_at index volume buckets

-- `Math.max(1, end - start)`
unfoldable pub span_of : ℤ → ℤ → ℕ
unfolding ◌-ℤ◌
span_of start end = let length = pos_part (end -ℤ start) in if leb length 1 then 1 else length

unfoldable pub bucket_index : ℤ → ℤ → ℕ → ℤ → ℕ
unfolding span_of ◌-ℤ◌
bucket_index start end bucket_count at =
    let index = pos_part (at -ℤ start) * bucket_count / span_of start end in
    if leb index (bucket_count - 1) then index else bucket_count - 1

-- `Math.round(total / count)`, and 0 of none.
abbrev mean : Bucket → ℤ
unfolding math_round
mean bucket = if nat_eq bucket.count 0 then pos 0 else math_round (over bucket.total bucket.count)

-- A `Date` drops what is less than a millisecond.
abbrev trunc_div : ℤ → ℕ → ℤ
trunc_div (pos n) d = pos (n / d)
trunc_div (negsuc n) d = neg (pos (suc n / d))

module _ (rt : Runtime) where
  unfoldable pub count_reading : ℤ → ℤ → ℕ → TankReading → List Bucket → List Bucket
  unfolding add_at bucket_index net_volume_ml
  count_reading start end bucket_count reading buckets = elim (rt.date_parse reading.recorded_at) [
    | none ↦ buckets
    | some at ↦
        let counted =
          add_at (bucket_index start end bucket_count at) (net_volume_ml reading) buckets in
        if ltb_ℤ at start || ltb_ℤ end at then buckets else counted
  ]

  unfoldable pub count_readings : ℤ → ℤ → ℕ → List TankReading → List Bucket → List Bucket
  unfolding count_reading
  count_readings start end bucket_count [] buckets = buckets
  count_readings start end bucket_count (reading ∷ readings) buckets =
      count_readings start end bucket_count readings
        (count_reading start end bucket_count reading buckets)

  unfoldable pub series_points : ℤ → ℕ → ℕ → ℕ → List Bucket → List DashboardSeriesPoint
  unfolding math_round ◌+ℤ◌ ◌*ℤ◌
  series_points start span bucket_count index [] = []
  series_points start span bucket_count index (bucket ∷ buckets) =
      record {
        at = rt.to_iso (trunc_div (start *ℤ pos bucket_count +ℤ pos (span * index)) bucket_count);
        net_volume_ml = mean bucket;
        reading_count = bucket.count;
      }
      ∷ series_points start span bucket_count (suc index) buckets

  -- `none` where `toISOString` throws its RangeError on an invalid start.
  unfoldable pub bucket_readings :
      List TankReading → String → ℤ → ℕ → Option (List DashboardSeriesPoint)
  unfolding new_buckets count_readings series_points span_of
  bucket_readings readings from_iso end bucket_count = elim (rt.date_parse from_iso) [
    | none ↦ if nat_eq bucket_count 0 then some [] else none
    | some start ↦ some (
        series_points start (span_of start end) bucket_count 0
          (count_readings start end bucket_count readings (new_buckets bucket_count)))
  ]

  -- `Math.max(low, Math.min(high, n))`
  abbrev between : ℕ → ℕ → ℕ → ℕ
  between low high n =
      let capped = if leb high n then high else n in if leb capped low then low else capped

  unfoldable pub tank_series : String → String → Option ℕ → Option ℕ → Action World TankSeries
  unfolding bucket_readings mul_ratio math_round ◌-ℤ◌ now require_tank Readings.list pure require
      ◌>>=◌
  tank_series tenant_id tank_id hours buckets = do
    tank ← require_tank tenant_id tank_id
    let bucket_count = between 4 200 (get_or buckets 48)
    at ← now rt
    let from = rt.to_iso (at -ℤ pos (between 1 720 (get_or hours 24) * 3600000))
    readings ← Readings.list rt tenant_id (record {
      tank_id = tank_id;
      from = some from;
      to = some (rt.to_iso at);
      limit = some 500;
      ascending = true;
    })
    points ← require (bucket_readings readings from at bucket_count) (other "Invalid time value")
    pure (record {
      tank_id = tank.id;
      tank_name = tank.name;
      product = tank.product;
      capacity_ml = math_round (mul_ratio tank.capacity_litres (of_ℕ 1000));
      buckets = points;
    })

abbrev stock_score : Option StockStatus → ℕ
stock_score (some StockStatus.critical) = 100
stock_score (some StockStatus.low) = 50
stock_score _ = 0

abbrev freshness_score : Option ReadingView → ℕ
freshness_score none = 40
freshness_score (some view) = elim view.reading.freshness [ stale ↦ 30 | delayed ↦ 10 | fresh ↦ 0 ]

abbrev severity_score : Option AlertSeverity → ℕ
severity_score (some AlertSeverity.critical) = 60
severity_score (some AlertSeverity.warning) = 20
severity_score _ = 0

unfoldable pub attention_score : TankSummary → ℕ
attention_score summary =
    stock_score summary.stock_status
    + freshness_score summary.latest_reading
    + severity_score summary.highest_open_severity
    + (if leb summary.open_alert_count 10 then summary.open_alert_count else 10)
