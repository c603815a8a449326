-- ===== src/Services/Sweep/Moves.antt =====
-- packages/core/src/services/alert-sweep-service.ts: `sweepTenant` as a rule for relations between states.
use mafuta.Base.{String, List, [], ◌∷◌}
use mafuta.Effect.Moves.{Moves, Moves-bind, Moves-gets, Moves-pure}
use mafuta.Runtime.{Runtime}
use mafuta.Memory.{World}
use mafuta.Services.Writes.{Admits}
use mafuta.Effect.{Action}
use mafuta.Domain.Tank.{Tank}
use mafuta.Memory.Tanks
use mafuta.Memory.Readings
use mafuta.Services.Rules.{IngestConfig}
use mafuta.Services.Rules.Moves.{run_rules-Moves}
use mafuta.Services.Sweep.{
  SweepResult, attempt, count_outcome, sweep_tank, sweep_tanks, sweep_tenant,
}

attempt-Moves :
    {A : Type 0} (R : World → World → Type 0) (m : Action World A) → Moves R m → Moves R (attempt m)
unfolding attempt
attempt-Moves R m k = record { at = λ w. k.at w }

module _ (rt : Runtime) (t : String) (R : World → World → Type 0) (a : Admits rt t R)
    (config : IngestConfig) where
  sweep_tank-Moves : (tank : Tank) → Moves R (sweep_tank rt config t tank)
  unfolding sweep_tank Readings.list
  sweep_tank-Moves tank =
      Moves-bind a.composes _ _ (Moves-gets a.composes _)
        λ readings. run_rules-Moves rt t R a config tank _

  sweep_tanks-Moves :
      (result : SweepResult) (tanks : List Tank) → Moves R (sweep_tanks rt config t result tanks)
  unfolding sweep_tanks
  sweep_tanks-Moves result [] = Moves-pure a.composes _
  sweep_tanks-Moves result (tank ∷ tanks) =
      Moves-bind a.composes _ _ (attempt-Moves R _ (sweep_tank-Moves tank))
        λ outcome. sweep_tanks-Moves (count_outcome result outcome) tanks

  pub sweep_tenant-Moves : Moves R (sweep_tenant rt config t)
  unfolding sweep_tenant Tanks.list
  sweep_tenant-Moves =
      Moves-bind a.composes _ _ (Moves-gets a.composes _) λ tanks. sweep_tanks-Moves _ tanks
