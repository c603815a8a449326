-- ===== src/Services/Rules/Moves.antt =====
-- packages/core/src/services/ingest-service.ts: `runRules` as a rule for relations between states.
use mafuta.Base.{String, List, [], ◌∷◌}
use mafuta.Effect.Moves.{Moves, Moves-bind, Moves-gets, Moves-pure, Moves-for_each}
use mafuta.Runtime.{Runtime}
use mafuta.Memory.{World}
use mafuta.Services.Writes.{Admits}
use mafuta.Base.Int.{ℤ}
use mafuta.Domain.Tank.{Tank}
use mafuta.Domain.Reading.{TankReading}
use mafuta.Domain.Device.{DeviceAssignment}
use mafuta.Domain.Event.{FuelEvent}
use mafuta.Domain.Alert.{Alert, AlertDraft}
use mafuta.Memory.Devices
use mafuta.Memory.Assignments
use mafuta.Memory.Alerts
use mafuta.Services.Events.Moves.{detect_and_record-Moves, candidate_events-Moves}
use mafuta.Services.Rules.{
  IngestConfig, load_assigned, assigned_devices, raise_draft, apply_drafts, evaluate_alerts,
  raise_event_alerts, run_rules,
}

module _ (rt : Runtime) (t : String) (R : World → World → Type 0) (a : Admits rt t R) where
  load_assigned-Moves : (xs : List DeviceAssignment) → Moves R (load_assigned rt t xs)
  unfolding load_assigned Devices.find_by_id
  load_assigned-Moves [] = Moves-pure a.composes _
  load_assigned-Moves (x ∷ xs) =
      Moves-bind a.composes _ _ (Moves-gets a.composes _) λ found.
        Moves-bind a.composes _ _ (load_assigned-Moves xs) λ others. Moves-pure a.composes _

  assigned_devices-Moves : (tank_id : String) → Moves R (assigned_devices rt t tank_id)
  unfolding assigned_devices Assignments.list_active_by_tank
  assigned_devices-Moves tank_id =
      Moves-bind a.composes _ _ (Moves-gets a.composes _)
        λ assignments. load_assigned-Moves assignments

  raise_draft-Moves : (at : ℤ) (draft : AlertDraft) → Moves R (raise_draft rt t at draft)
  unfolding raise_draft
  raise_draft-Moves at draft = Moves-bind a.composes _ _ (a.new_id_moves _) λ id. a.alerts_save _

  apply_drafts-Moves :
      (at : ℤ) (drafts : List AlertDraft) (alerts : List Alert)
      → Moves R (apply_drafts rt t at drafts alerts)
  unfolding apply_drafts
  apply_drafts-Moves at drafts alerts =
      Moves-bind a.composes _ _ (Moves-for_each a.composes _ _ (raise_draft-Moves at)) λ raised.
        Moves-bind a.composes _ _ (Moves-for_each a.composes _ _ λ x. a.alerts_update _)
          λ updated. Moves-pure a.composes _

  module _ (config : IngestConfig) where
    evaluate_alerts-Moves :
        (tank : Tank) (readings : List TankReading)
        → Moves R (evaluate_alerts rt config t tank readings)
    unfolding evaluate_alerts Alerts.list_open_by_tank
    evaluate_alerts-Moves tank readings =
        Moves-bind a.composes _ _ (assigned_devices-Moves _) λ assigned.
          Moves-bind a.composes _ _ a.now_moves λ evaluated_at.
            Moves-bind a.composes _ _ a.now_moves λ at.
              Moves-bind a.composes _ _ (candidate_events-Moves rt t R a _) λ events.
                Moves-bind a.composes _ _ (Moves-gets a.composes _)
                  λ alerts. apply_drafts-Moves at _ alerts

    raise_event_alerts-Moves :
        (tank_id : String) (events : List FuelEvent)
        → Moves R (raise_event_alerts rt config t tank_id events)
    unfolding raise_event_alerts Alerts.list_open_by_tank
    raise_event_alerts-Moves tank_id [] = Moves-pure a.composes _
    raise_event_alerts-Moves tank_id (event ∷ events) = Moves-bind a.composes _ _ a.now_moves λ at.
        Moves-bind a.composes _ _ (Moves-gets a.composes _)
          λ alerts. Moves-for_each a.composes _ _ (raise_draft-Moves at)

    pub run_rules-Moves :
        (tank : Tank) (readings : List TankReading) → Moves R (run_rules rt config t tank readings)
    unfolding run_rules
    run_rules-Moves tank readings =
        Moves-bind a.composes _ _ (evaluate_alerts-Moves tank readings) λ outcome.
          Moves-bind a.composes _ _ (detect_and_record-Moves rt t R a tank readings) λ raised.
            Moves-bind a.composes _ _ (raise_event_alerts-Moves _ raised)
              λ event_alerts. Moves-pure a.composes _
