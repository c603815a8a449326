-- ===== src/Services/Dashboard/Buckets.antt =====
-- packages/core/src/services/dashboard-service.ts: every reading of the window is in one bucket.
use mafuta.Base.{
  ℕ, zero, suc, ◌+◌, ◌-◌, ◌*◌, ◌/◌, ◌≤◌, ◌<◌, String, Option, none, some, Bool, false, not, ◌||◌,
  List, [], ◌∷◌, filter, length, ◌≡◌, refl, if◌then◌else◌, leb, Bool-cases, Option-cases, inl, inr,
  arith,
}
use mafuta.Base.Int.{ℤ, pos_part, ltb_ℤ, ◌-ℤ◌}
use mafuta.Runtime.{Runtime}
use mafuta.Domain.Reading.{TankReading, net_volume_ml}
use mafuta.Services.Dashboard.{
  Bucket, DashboardSeriesPoint, new_buckets, add_at, span_of, bucket_index, count_reading,
  count_readings, series_points, bucket_readings,
}

-- How many readings the buckets, or the points, count together.
pub counted : List Bucket → ℕ
counted [] = 0
counted (bucket ∷ buckets) = bucket.count + counted buckets

unfoldable pub reading_total : List DashboardSeriesPoint → ℕ
reading_total [] = 0
reading_total (point ∷ points) = point.reading_count + reading_total points

counted-add_at :
    (index : ℕ) (volume : ℤ) (buckets : List Bucket)
    → index < length buckets
    → counted (add_at index volume buckets) ≡ counted buckets + 1
unfolding counted add_at
counted-add_at index volume [] inside = absurd (omega (arith, inside))
counted-add_at zero volume (bucket ∷ buckets) inside = omega arith
counted-add_at (suc index) volume (bucket ∷ buckets) inside =
    omega (arith, counted-add_at index volume buckets (omega (arith, inside)))

length-add_at :
    (index : ℕ) (volume : ℤ) (buckets : List Bucket)
    → length (add_at index volume buckets) ≡ length buckets
unfolding add_at
length-add_at index volume [] = refl
length-add_at zero volume (bucket ∷ buckets) = refl
length-add_at (suc index) volume (bucket ∷ buckets) =
    omega (arith, length-add_at index volume buckets)

bucket_index-lt :
    (start end : ℤ) (bucket_count : ℕ) (at : ℤ)
    → 1 ≤ bucket_count
    → bucket_index start end bucket_count at < bucket_count
unfolding bucket_index
bucket_index-lt start end bucket_count at some_bucket =
    let index = pos_part (at -ℤ start) * bucket_count / span_of start end in
    elim (Bool-cases (leb index (bucket_count - 1))) [
      | inl inside ↦ rw inside (ground (arith, inside, some_bucket))
      | inr last ↦ rw last (omega (arith, some_bucket))
    ]

new_buckets_lem : (n : ℕ) → (length (new_buckets n) ≡ n) × (counted (new_buckets n) ≡ 0)
unfolding new_buckets counted
new_buckets_lem zero = (refl, refl)
new_buckets_lem (suc n) =
    let (all, none_yet) = new_buckets_lem n in (omega (arith, all), omega (arith, none_yet))

module _ (rt : Runtime) (start end : ℤ) where
  -- The reading is recorded at a time from the start to the end.
  abbrev pub is_between : Option ℤ → Bool
  is_between none = false
  is_between (some at) = not (ltb_ℤ at start || ltb_ℤ end at)

  abbrev pub in_span : TankReading → Bool
  in_span reading = is_between (rt.date_parse reading.recorded_at)

  -- One reading counts once if it lies in the span.
  count_reading_lem :
      (n : ℕ) (reading : TankReading) (buckets : List Bucket)
      → length buckets ≡ n
      → 1 ≤ n
      → (length (count_reading rt start end n reading buckets) ≡ n)
        × (counted (count_reading rt start end n reading buckets)
            ≡ counted buckets + (if in_span reading then 1 else 0))
  unfolding count_reading
  count_reading_lem n reading buckets all some_bucket =
      elim (Option-cases (rt.date_parse reading.recorded_at)) [
        | inl no_date ↦ rw (no_date, count_reading) (all, omega arith)
        | inr (at, dated) ↦
            let index = bucket_index start end n at in
            let volume = net_volume_ml reading in
            let inside = bucket_index-lt start end n at some_bucket in
            elim (Bool-cases (ltb_ℤ at start || ltb_ℤ end at)) [
              | inl outside ↦ rw (dated, outside, count_reading) (all, omega arith)
              | inr within ↦
                  rw (dated, within, count_reading)
                    (
                      omega (arith, all, length-add_at index volume buckets),
                      counted-add_at index volume buckets (omega (arith, inside, all)),
                    )
            ]
      ]

  count_readings_lem :
      (n : ℕ) (readings : List TankReading) (buckets : List Bucket)
      → length buckets ≡ n
      → 1 ≤ n
      → (length (count_readings rt start end n readings buckets) ≡ n)
        × (counted (count_readings rt start end n readings buckets)
            ≡ counted buckets + length (filter in_span readings))
  unfolding count_readings
  count_readings_lem n [] buckets all some_bucket = (all, omega arith)
  count_readings_lem n (reading ∷ readings) buckets all some_bucket =
      let (kept, once) = count_reading_lem n reading buckets all some_bucket in
      let (length_kept, rest) =
        count_readings_lem n readings (count_reading rt start end n reading buckets) kept
          some_bucket in
      (
        length_kept,
        elim (Bool-cases (in_span reading)) [
          | inl here ↦ rw here (let one = rw here at once in omega (arith, one, rest))
          | inr apart ↦ rw apart (let one = rw apart at once in omega (arith, one, rest))
        ],
      )

  series_points_lem :
      (span n index : ℕ) (buckets : List Bucket)
      → (length (series_points rt start span n index buckets) ≡ length buckets)
        × (reading_total (series_points rt start span n index buckets) ≡ counted buckets)
  unfolding series_points counted reading_total
  series_points_lem span n index [] = (refl, refl)
  series_points_lem span n index (bucket ∷ buckets) =
      let (all, sum) = series_points_lem span n (suc index) buckets in
      (omega (arith, all), omega (arith, sum))

-- With a start that is a date and at least one bucket, the series has as many points as there are
-- buckets, and together they count exactly the readings that were recorded from the start to the
-- end.
pub bucket_readings_lem :
    (rt : Runtime) (readings : List TankReading) (from_iso : String) (start end : ℤ)
    (bucket_count : ℕ)
    → rt.date_parse from_iso ≡ some start
    → 1 ≤ bucket_count
    → (points : List DashboardSeriesPoint) × (bucket_readings rt readings from_iso end bucket_count
        ≡ some points)
      × (length points ≡ bucket_count)
      × (reading_total points ≡ length (filter (in_span rt start end) readings))
unfolding bucket_readings
bucket_readings_lem rt readings from_iso start end bucket_count parsed some_bucket =
    let buckets = count_readings rt start end bucket_count readings (new_buckets bucket_count) in
    let (all, none_yet) = new_buckets_lem bucket_count in
    let (kept, total) =
      count_readings_lem rt start end bucket_count readings (new_buckets bucket_count) all
        some_bucket in
    let (points_all, points_total) =
      series_points_lem rt start end (span_of start end) bucket_count 0 buckets in
    (
      series_points rt start (span_of start end) bucket_count 0 buckets,
      rw (parsed, bucket_readings) refl,
      omega (arith, points_all, kept),
      omega (arith, points_total, total, none_yet),
    )
