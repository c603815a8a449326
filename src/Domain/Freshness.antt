-- ===== src/Domain/Freshness.antt =====
-- packages/core/src/domain/freshness.ts: freshness is computed when a reading is read.
use mafuta.Base.{none, some, String, if◌then◌else◌}
use mafuta.Base.Int.{ℤ, ◌-ℤ◌}
use mafuta.Base.Ratio.{Ratio, over, of_ℕ, lt_ratio}
use mafuta.Runtime.{Runtime}
use mafuta.Domain.Reading.{TankReading, ReadingFreshness, fresh, delayed, stale}

pub record FreshnessPolicy : Type 0 where
  pub stale_after_minutes : Ratio
  pub delayed_after_minutes : Ratio

abbrev pub default_delayed_after_minutes : Ratio
default_delayed_after_minutes = of_ℕ 15

module _ (rt : Runtime) where
  unfoldable pub compute_freshness : String → String → ℤ → FreshnessPolicy → ReadingFreshness
  compute_freshness recorded_at received_at now policy = elim (rt.date_parse recorded_at) [
    | none ↦ stale
    | some recorded ↦
        if lt_ratio policy.stale_after_minutes (over (now -ℤ recorded) 60000)
        then stale
        else elim (rt.date_parse received_at) [
          | none ↦ fresh
          | some received ↦
              if lt_ratio policy.delayed_after_minutes (over (received -ℤ recorded) 60000)
              then delayed
              else fresh
        ]
  ]

  unfoldable pub with_freshness : TankReading → ℤ → FreshnessPolicy → TankReading
  unfolding compute_freshness
  with_freshness reading now policy = record reading {
    freshness = compute_freshness reading.recorded_at reading.received_at now policy;
  }
