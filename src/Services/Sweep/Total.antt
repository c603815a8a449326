-- ===== src/Services/Sweep/Total.antt =====
-- packages/core/src/services/alert-sweep-service.ts: what `sweepTenant` counts.
use mafuta.Base.{◌+◌, ◌≤◌, String, List, [], ◌∷◌, length, arith, ◌≡◌, refl}
use mafuta.Runtime.{Runtime}
use mafuta.Effect.{Result, ok, err, gets, ◌>>=◌}
use mafuta.Domain.Tank.{Tank}
use mafuta.Memory.{World}
use mafuta.Memory.Tanks
use mafuta.Memory.Tenants
use mafuta.Services.Rules.{IngestConfig, RulesOutcome}
use mafuta.Services.Sweep.{
  SweepResult, count_outcome, attempt, sweep_tank, sweep_tanks, sweep_tenant, empty_result,
  add_results, sweep_each, sweep_all_tenants,
}

module _ (rt : Runtime) (config : IngestConfig) (t : String) where
  count_outcome-evaluated :
      (r : SweepResult) (o : Result RulesOutcome)
      → (count_outcome r o).tanks_evaluated ≡ r.tanks_evaluated
  unfolding count_outcome
  count_outcome-evaluated r (ok o) = refl
  count_outcome-evaluated r (err e) = refl

  count_outcome-failing :
      (r : SweepResult) (o : Result RulesOutcome)
      → (count_outcome r o).failing_tanks ≤ r.failing_tanks + 1
  unfolding count_outcome
  count_outcome-failing r (ok o) = omega arith
  count_outcome-failing r (err e) = omega arith

  sweep_tanks_total :
      (result : SweepResult) (tanks : List Tank) (w : World)
      → (r : SweepResult) × (v : World) × (sweep_tanks rt config t result tanks w ≡ (ok r, v))
        × (r.tanks_evaluated ≡ result.tanks_evaluated)
        × (r.failing_tanks ≤ result.failing_tanks + length tanks)
  unfolding sweep_tanks ◌>>=◌ attempt
  sweep_tanks_total result [] w = (result, w, refl, refl, omega arith)
  sweep_tanks_total result (tank ∷ tanks) w =
      let (outcome, u) = sweep_tank rt config t tank w in
      let (r, v, run, evaluated, failing) =
        sweep_tanks_total (count_outcome result outcome) tanks u in
      (
        r,
        v,
        run,
        ground (arith, evaluated, count_outcome-evaluated result outcome),
        omega (arith, failing, count_outcome-failing result outcome),
      )

  over_listed :
      (f : World → List Tank) (w : World)
      → (r : SweepResult) × (v : World) × ((gets f >>= λ tanks.
              sweep_tanks rt config t
                (record empty_result { tanks_evaluated = length tanks })
                tanks)
            w
          ≡ (ok r, v))
        × (r.failing_tanks ≤ r.tanks_evaluated)
  unfolding ◌>>=◌
  over_listed f w =
      let start : SweepResult = record empty_result { tanks_evaluated = length (f w) } in
      let (r, v, run, evaluated, failing) = sweep_tanks_total start (f w) w in
      (r, v, run, omega (arith, evaluated, failing))

  sweep_tenant_total :
      (w : World)
      → (r : SweepResult) × (v : World) × (sweep_tenant rt config t w ≡ (ok r, v))
        × (r.failing_tanks ≤ r.tanks_evaluated)
  unfolding sweep_tenant Tanks.list
  sweep_tenant_total w = over_listed _ w

module _ (rt : Runtime) (config : IngestConfig) where
  sweep_each_total :
      (result : SweepResult) (tenants : List String) (w : World)
      → result.failing_tanks ≤ result.tanks_evaluated
      → (r : SweepResult) × (v : World) × (sweep_each rt config result tenants w ≡ (ok r, v))
        × (r.failing_tanks ≤ r.tanks_evaluated)
  unfolding sweep_each ◌>>=◌ add_results
  sweep_each_total result [] w h = (result, w, refl, h)
  sweep_each_total result (t ∷ tenants) w h =
      let (one, u, swept, fewer) = sweep_tenant_total rt config t w in
      let next = add_results result one in
      let (r, v, run, rest) = sweep_each_total next tenants u (omega (arith, h, fewer)) in
      (r, v, rw swept run, rest)

  over_tenants :
      (f : World → List String) (w : World)
      → (r : SweepResult) × (v : World) × ((gets f >>= λ tenants.
              sweep_each rt config empty_result tenants)
            w
          ≡ (ok r, v))
        × (r.failing_tanks ≤ r.tanks_evaluated)
  unfolding ◌>>=◌
  over_tenants f w = sweep_each_total empty_result (f w) w (omega arith)

  -- The sweep of all tenants always returns, whatever the rules do on the single tanks, and counts
  -- no more failing tanks than tanks evaluated.
  pub sweep_all_tenants_total :
      (w : World)
      → (r : SweepResult) × (v : World) × (sweep_all_tenants rt config w ≡ (ok r, v))
        × (r.failing_tanks ≤ r.tanks_evaluated)
  unfolding sweep_all_tenants Tenants.list
  sweep_all_tenants_total w = over_tenants _ w
