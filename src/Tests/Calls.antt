-- ===== src/Tests/Calls.antt =====
-- Sequences of calls.
use mafuta.Base.{
  ℕ, zero, suc, sym, ap, String, none, some, Bool, true, false, List, [], ◌∷◌, ◌≡◌, refl, eq_iff,
}
use text.Mathlib.TextLemmas.{nil≢cons, tail-eq_of_cons-eq}
use mathlib.Core.Path.{Path}
use mafuta.Base.Ratio.{of_ℕ}
use mafuta.Effect.{Result, ok, ◌>>=◌}
use mafuta.Domain.Normalize.{ProbeSample}
use mafuta.Domain.Reading.{ReadingSource}
use mafuta.Domain.Station.{Station, StationStatus}
use mafuta.Memory.{World, create_memory_store}
use mafuta.Memory.Keys.{Apart, has_no_colon, has_no_colon-Apart}
use mafuta.Base.Dict.{get, set}
use mafuta.Services.Ingest.{IngestResult}
use mafuta.Services.Rules.{default_ingest_config}
use mafuta.Services.Ingest.{ingest}
use mafuta.Services.Calls.{Call, run, mark_seen_call, ingest_call}
use mafuta.Services.Calls.Submitted.{IsDuplicate, ingest_once}
use mafuta.Runtime.{Runtime}
use mafuta.Services.Writes.Puts.{reading_id, draw}
use mafuta.Services.Ledger.Fixed.{IsFresh, Retains, put-Fixes}
use mafuta.Services.Calls.Kept.{run_kept}
use mafuta.Services.Calls.Inserted.{ledger_of, Inserts, append-Inserts}
use mafuta.Memory.Readings
use mafuta.Domain.Reading.{TankReading}
use mafuta.Tenancy.Guard.{assert_owned_by_tenant}
use mafuta.Services.Calls.Keyed.{IsKeyed, run-IsKeyed}
use mafuta.Services.Calls.Untouched.{Untouched}
use mafuta.Services.Calls.Isolated.{run-Untouched}
use mafuta.Tests.Samples.{
  rt, empty_world, new_station, depot_tank, no_reading, value_of, everything,
}

false_not_true : ¬ (Path Bool false true)
false_not_true e = cc

different : ¬ (Path String "acme" "beta")
different e = false_not_true ((eq_iff "acme" "beta").1 e)

acme-Apart_beta : Apart "acme" "beta"
unfolding has_no_colon
acme-Apart_beta = has_no_colon-Apart "acme" "beta" refl refl different

empty-IsKeyed : IsKeyed create_memory_store
unfolding IsKeyed
empty-IsKeyed = (tt, tt, tt, tt, tt, tt, tt, tt, tt, tt)

run-IsKeyed_example :
    IsKeyed (run rt default_ingest_config (("acme", new_station) ∷ []) empty_world).store
run-IsKeyed_example =
    run-IsKeyed rt default_ingest_config (("acme", new_station) ∷ []) empty_world empty-IsKeyed

abbrev stocked : World
stocked = record empty_world {
  store = record create_memory_store { tanks = ("acme:tank-1", depot_tank) ∷ [] };
}

abbrev dip : ProbeSample
dip = record {
  tank_id = "tank-1";
  observed_at = "now";
  level_mm = some (of_ℕ 50);
  water_level_mm = some (of_ℕ 0);
  temperature_c = none;
  device_id = none;
  source = ReadingSource.manual;
  signal_quality_percent = none;
  idempotency_key = some "dip-1";
}

abbrev beta_depot : Station
beta_depot = record {
  id = "stn-9";
  tenant_id = "beta";
  name = "Beta depot";
  code = "B1";
  timezone = "Africa/Nairobi";
  status = StationStatus.active;
  created_at = "c";
  updated_at = "c";
}

abbrev with_beta : World
with_beta = record stocked {
  store = record (stocked.store) { stations = ("beta:stn-9", beta_depot) ∷ [] };
}

with_beta-IsKeyed : IsKeyed with_beta.store
unfolding IsKeyed everything
with_beta-IsKeyed = ((refl, tt), (refl, tt), tt, tt, tt, tt, tt, tt, tt, tt)

abbrev acme_calls : List (String × Call)
acme_calls = ("acme", new_station) ∷ ("acme", ingest_call dip none) ∷ []

run-Untouched_example :
    Untouched "beta" with_beta.store (run rt default_ingest_config acme_calls with_beta).store
run-Untouched_example =
    run-Untouched rt default_ingest_config "beta" acme_calls with_beta
      (acme-Apart_beta, (acme-Apart_beta, tt)) with_beta-IsKeyed

abbrev first_dip : Result IngestResult × World
first_dip = ingest rt default_ingest_config "acme" dip none stocked

abbrev no_result : IngestResult
no_result = record {
  reading = no_reading;
  raised_alerts = [];
  resolved_alerts = [];
  raised_events = [];
  duplicate = false;
}

abbrev between : List (String × Call)
between = ("acme", mark_seen_call "dev-1" "now") ∷ ("beta", new_station) ∷ []

abbrev second_dip : Result IngestResult × World
second_dip =
    ingest rt default_ingest_config "acme" dip (some "{}")
      (run rt default_ingest_config between first_dip.1)

stocked-IsKeyed : IsKeyed stocked.store
unfolding IsKeyed everything
stocked-IsKeyed = (tt, (refl, tt), tt, tt, tt, tt, tt, tt, tt, tt)

first_dip_ok :
    ingest rt default_ingest_config "acme" dip none stocked
    ≡ (ok (value_of no_result first_dip.0), first_dip.1)
unfolding everything
first_dip_ok = refl

second_dip_ok :
    ingest rt default_ingest_config "acme" dip
      (some "{}")
      (run rt default_ingest_config between first_dip.1)
    ≡ (ok (value_of no_result second_dip.0), second_dip.1)
unfolding everything
second_dip_ok = refl

ingest_once_example :
    IsDuplicate rt default_ingest_config "acme" "dip-1"
      (value_of no_result second_dip.0)
      second_dip.1
ingest_once_example =
    ingest_once rt default_ingest_config "acme" "dip-1" dip dip none (some "{}") between stocked
      first_dip.1 second_dip.1 (value_of no_result first_dip.0) (value_of no_result second_dip.0)
      refl refl stocked-IsKeyed first_dip_ok second_dip_ok

-- A runtime whose n-th random identifier is n zeros.
zeros : ℕ → String
zeros zero = ""
zeros (suc n) = String.◌∷◌ "0" (zeros n)

zeros_distinct : (m n : ℕ) → zeros m ≡ zeros n → m ≡ n
unfolding zeros
zeros_distinct zero zero e = refl
zeros_distinct zero (suc n) e = absurd (nil≢cons e)
zeros_distinct (suc m) zero e = absurd (nil≢cons (sym e))
zeros_distinct (suc m) (suc n) e = ap (λ k. suc k) (zeros_distinct m n (tail-eq_of_cons-eq e))

zeros_no_colon : (n : ℕ) → has_no_colon (zeros n) ≡ true
unfolding zeros has_no_colon
zeros_no_colon zero = refl
zeros_no_colon (suc n) = zeros_no_colon n

abbrev counting : Runtime
counting = record rt { uuid = zeros }

abbrev drawn_dip : TankReading
drawn_dip = record no_reading { id = reading_id counting 0; tenant_id = "acme" }

abbrev with_drawn_dip : World
with_drawn_dip = Readings.put "acme" drawn_dip (draw stocked)

stocked-IsFresh : IsFresh counting stocked
unfolding get
stocked-IsFresh t n drawn = refl

with_drawn_dip-IsFresh : IsFresh counting with_drawn_dip
with_drawn_dip-IsFresh =
    ((put-Fixes counting zeros_distinct zeros_no_colon "acme" drawn_dip stocked refl).1
      stocked-IsFresh).0

run_kept_example :
    Retains with_drawn_dip.store.readings
      (run counting default_ingest_config acme_calls with_drawn_dip).store.readings
    × IsFresh counting (run counting default_ingest_config acme_calls with_drawn_dip)
run_kept_example =
    run_kept counting default_ingest_config zeros_distinct zeros_no_colon acme_calls with_drawn_dip
      with_drawn_dip-IsFresh

abbrev new_dip : TankReading
new_dip = record no_reading { id = "rdg-9"; tenant_id = "acme"; idempotency_key = "key-9" }

abbrev with_new_dip : World
unfolding Readings.put set
with_new_dip = Readings.put "acme" new_dip empty_world

append-Inserts_example :
    (new_dip ≡ new_dip)
    × Inserts "acme" new_dip (ledger_of empty_world) (ledger_of with_new_dip)
    × ((u key : String)
        → Readings.find_by_idempotency_key u key with_new_dip
          ≡ (ok (ledger_of with_new_dip u key), with_new_dip))
unfolding with_new_dip Readings.append Readings.put get set assert_owned_by_tenant ◌>>=◌
append-Inserts_example =
    append-Inserts "acme" new_dip new_dip empty_world with_new_dip empty-IsKeyed refl refl
