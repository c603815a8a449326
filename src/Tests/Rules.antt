-- ===== src/Tests/Rules.antt =====
-- The rules, the limits and the conversions.
use mafuta.Base.{
  true, suc, ◌+◌, ◌*◌, ◌≤◌, String, none, some, false, List, [], ◌∷◌, ◌≡◌, refl, All, length, arith,
}
use mafuta.Base.Dict.{Dict, get}
use mafuta.Base.Int.{pos}
use mafuta.Base.Ratio.{of_ℕ}
use mafuta.Effect.{ok}
use mafuta.Domain.Reading.{TankReading}
use mafuta.Alerts.Engine.{AlertEvaluationInput, evaluate_tank_alerts}
use mafuta.Alerts.Engine.Exclusive.{IsExclusive, evaluate_tank_alerts-IsExclusive}
use mafuta.Events.Detection.{detect_tank_events}
use mafuta.Events.Detection.Justified.{IsJustified, detect_tank_events-IsJustified}
use mafuta.Tenancy.RateLimit.{RateLimitOptions, WindowState, allowance, check}
use mafuta.Tenancy.RateLimit.Window.{grants, check_retry, grants-le-allowance}
use mafuta.Tenancy.CredentialHealth.{
  CredentialStoreStatus, CacheEvent, counted, inspect_credential_store, answered, called, arrived,
  finished, answers, new_status_cache,
}
use mafuta.Tenancy.CredentialHealth.Cached.{
  IsBefore, starts, finishes, single_flight, fresh_answers,
}
use mafuta.Tenancy.Scopes.{normalize_scopes, has_scope}
use mafuta.Tenancy.Scopes.Normal.{IsDistinct, IsCurrent, asks_for, normalize_scopes_lem}
use mafuta.Memory.{World}
use mafuta.Memory.Readings.{ReadingQuery}
use mafuta.Memory.Readings
use mafuta.Memory.Readings.Pages.{IsWanted, list_page}
use mafuta.Services.Rules.{default_ingest_config}
use mafuta.Services.Sweep.{SweepResult, sweep_all_tenants}
use mafuta.Services.Sweep.Total.{sweep_all_tenants_total}
use mafuta.Tests.Samples.{rt, empty_world, depot_tank, no_reading}

abbrev low_reading : TankReading
low_reading = record no_reading {
  id = "rdg-2";
  tenant_id = "acme";
  tank_id = "tank-1";
  net_volume_litres = of_ℕ 50;
}

abbrev full_reading : TankReading
full_reading = record low_reading { id = "rdg-3"; net_volume_litres = of_ℕ 900 }

abbrev evaluation : AlertEvaluationInput
evaluation = record {
  tenant_id = "acme";
  tank = depot_tank;
  readings = low_reading ∷ [];
  now = pos 1700000000000;
  assigned_devices = [];
  device_offline_after_minutes = of_ℕ 30;
  consecutive_invalid_for_fault = none;
}

evaluate_tank_alerts-IsExclusive_example :
    IsExclusive rt (evaluate_tank_alerts rt evaluation).drafts
evaluate_tank_alerts-IsExclusive_example = evaluate_tank_alerts-IsExclusive rt evaluation

detect_tank_events-IsJustified_example :
    All
      (IsJustified rt depot_tank [] (low_reading ∷ full_reading ∷ []))
      (detect_tank_events rt depot_tank (low_reading ∷ full_reading ∷ []) [])
detect_tank_events-IsJustified_example =
    detect_tank_events-IsJustified rt depot_tank [] (low_reading ∷ full_reading ∷ [])

abbrev one_each_second : RateLimitOptions
one_each_second = record { limit = 2; window_seconds = 1 }

grants-le-allowance_example :
    grants one_each_second "key-1" (5000 ∷ 5100 ∷ 5200 ∷ 5999 ∷ []) [] ≤ allowance one_each_second
unfolding get
grants-le-allowance_example =
    grants-le-allowance one_each_second "key-1" 5000 (5100 ∷ 5200 ∷ 5999 ∷ []) [] refl
      (omega arith, (omega arith, (omega arith, tt)))

abbrev old_scopes : List String
old_scopes = "alarms:read" ∷ "alerts:read" ∷ "tanks:read" ∷ []

normalize_scopes_lem_example :
    IsDistinct (normalize_scopes old_scopes)
    × All IsCurrent (normalize_scopes old_scopes)
    × ((k : String) → has_scope (normalize_scopes old_scopes) k ≡ asks_for old_scopes k)
normalize_scopes_lem_example = normalize_scopes_lem old_scopes

abbrev ledger : World
ledger = record empty_world {
  store = record (empty_world.store) {
    readings = ("acme:rdg-2", low_reading) ∷ ("acme:rdg-3", full_reading) ∷ [];
    tanks = ("acme:tank-1", depot_tank) ∷ [];
  };
}

abbrev last_one : ReadingQuery
last_one = record { tank_id = "tank-1"; from = none; to = none; limit = some 1; ascending = false }

list_page_example :
    (page : List TankReading) × (Readings.list rt "acme" last_one ledger ≡ (ok page, ledger))
    × All (IsWanted rt "acme" last_one) page
    × (length page ≤ 500)
list_page_example = list_page rt "acme" last_one ledger

sweep_all_tenants_total_example :
    (r : SweepResult) × (v : World) × (sweep_all_tenants rt default_ingest_config ledger
      ≡ (ok r, v))
    × (r.failing_tanks ≤ r.tanks_evaluated)
sweep_all_tenants_total_example = sweep_all_tenants_total rt default_ingest_config ledger

abbrev full_window : Dict WindowState
full_window = ("key-1", record { window_start_ms = 5000; count = 2 }) ∷ []

check_retry_example :
    (check one_each_second "key-1"
      (5400 + (check one_each_second "key-1" 5400 full_window).0.retry_after_seconds * 1000)
      (check one_each_second "key-1" 5400 full_window).1).0.allowed
    ≡ true
unfolding check get
check_retry_example = check_retry one_each_second "key-1" 5400 full_window refl

abbrev two_keys : CredentialStoreStatus
two_keys = inspect_credential_store (counted 2)

abbrev cache_events : List CacheEvent
cache_events =
    called 1000
    ∷ called 1001
    ∷ arrived 1010 two_keys
    ∷ finished
    ∷ called 2000
    ∷ called 7000
    ∷ called 7001
    ∷ []

two_starts : starts (answers 5000 cache_events new_status_cache) ≡ 2
unfolding starts answers
two_starts = refl

single_flight_example :
    starts (answers 5000 cache_events new_status_cache) ≤ suc (finishes cache_events)
single_flight_example = single_flight 5000 cache_events

abbrev later_calls : List CacheEvent
later_calls = called 1010 ∷ finished ∷ called 6009 ∷ []

fresh_answers_example :
    All
      (λ answer. answer ≡ answered two_keys)
      (answers 5000 (arrived 1010 two_keys ∷ later_calls) new_status_cache)
unfolding IsBefore
fresh_answers_example =
    fresh_answers 5000 1010 two_keys later_calls new_status_cache
      (omega arith, (tt, (omega arith, tt)))
