-- ===== src/Services/Sweep.antt =====
-- packages/core/src/services/alert-sweep-service.ts
pub mod Moves
pub mod Total
use mafuta.Base.{ℕ, ◌+◌, String, some, none, false, List, [], ◌∷◌, length, reverse}
use mafuta.Runtime.{Runtime}
use mafuta.Effect.{Action, Result, ok, err, pure, ◌>>=◌}
use mafuta.Domain.Tank.{Tank, active}
use mafuta.Memory.{World}
use mafuta.Memory.Tanks
use mafuta.Memory.Readings
use mafuta.Memory.Tenants
use mafuta.Services.Rules.{IngestConfig, RulesOutcome, run_rules}

pub record SweepResult : Type 0 where
  pub tanks_evaluated : ℕ
  pub alerts_raised : ℕ
  pub alerts_resolved : ℕ
  pub events_raised : ℕ
  pub failing_tanks : ℕ

abbrev pub empty_result : SweepResult
empty_result = record {
  tanks_evaluated = 0;
  alerts_raised = 0;
  alerts_resolved = 0;
  events_raised = 0;
  failing_tanks = 0;
}

unfoldable pub count_outcome : SweepResult → Result RulesOutcome → SweepResult
count_outcome result (ok outcome) = record result {
  alerts_raised = result.alerts_raised + length outcome.raised_alerts;
  alerts_resolved = result.alerts_resolved + length outcome.resolved_alerts;
  events_raised = result.events_raised + length outcome.raised_events;
}
count_outcome result (err e) = record result { failing_tanks = result.failing_tanks + 1 }

unfoldable pub add_results : SweepResult → SweepResult → SweepResult
add_results a b = record {
  tanks_evaluated = a.tanks_evaluated + b.tanks_evaluated;
  alerts_raised = a.alerts_raised + b.alerts_raised;
  alerts_resolved = a.alerts_resolved + b.alerts_resolved;
  events_raised = a.events_raised + b.events_raised;
  failing_tanks = a.failing_tanks + b.failing_tanks;
}

-- `try { m } catch`: the outcome or the error, as a value.
unfoldable pub attempt : {A : Type 0} → Action World A → Action World (Result A)
attempt m w = let (r, w') = m w in (ok r, w')

module _ (rt : Runtime) (config : IngestConfig) where
  unfoldable pub sweep_tank : String → Tank → Action World RulesOutcome
  sweep_tank tenant_id tank = do
    readings ← Readings.list rt tenant_id (record {
      tank_id = tank.id;
      from = none;
      to = none;
      limit = some config.recent_reading_count;
      ascending = false;
    })
    run_rules rt config tenant_id tank (reverse readings)

  -- One tank that fails does not stop the others.
  unfoldable pub sweep_tanks : String → SweepResult → List Tank → Action World SweepResult
  sweep_tanks tenant_id result [] = pure result
  sweep_tanks tenant_id result (tank ∷ tanks) = do
    outcome ← attempt (sweep_tank tenant_id tank)
    sweep_tanks tenant_id (count_outcome result outcome) tanks

  unfoldable pub sweep_tenant : String → Action World SweepResult
  sweep_tenant tenant_id = do
    tanks ←
        Tanks.list rt tenant_id
          (record { station_id = none; status = some active; limit = some 500 })
    sweep_tanks tenant_id (record empty_result { tanks_evaluated = length tanks }) tanks

  unfoldable pub sweep_each : SweepResult → List String → Action World SweepResult
  sweep_each result [] = pure result
  sweep_each result (tenant_id ∷ rest) = do
    tenant_result ← sweep_tenant tenant_id
    sweep_each (add_results result tenant_result) rest

  unfoldable pub sweep_all_tenants : Action World SweepResult
  sweep_all_tenants = do tenants ← Tenants.list 500; sweep_each empty_result tenants
