-- ===== src/Services/Events/Moves.antt =====
-- packages/core/src/services/event-service.ts: its operations as rules for relations between states.
use mafuta.Base.{String, List}
use mafuta.Effect.Moves.{
  Moves, Moves-bind, Moves-gets, Moves-require, Moves-ensure, Moves-pure, Moves-for_each,
}
use mafuta.Runtime.{Runtime}
use mafuta.Memory.{World}
use mafuta.Services.Writes.{Admits}
use mafuta.Domain.Tank.{Tank}
use mafuta.Domain.Reading.{TankReading}
use mafuta.Domain.Event.{FuelEvent}
use mafuta.Events.Detection.{FuelEventDraft}
use mafuta.Memory.Events
use mafuta.Memory.Deliveries
use mafuta.Services.Events.{
  ConfirmEventInput, require_event, record_draft, detect_and_record, confirm, check_confirmable,
  write_confirmation, reject, delivered_volume_ml, candidate_events,
}

module _ (rt : Runtime) (t : String) (R : World → World → Type 0) (a : Admits rt t R) where
  require_event-Moves : (id : String) → Moves R (require_event t id)
  unfolding require_event Events.find_by_id
  require_event-Moves id =
      Moves-bind a.composes _ _ (Moves-gets a.composes _) λ found. Moves-require a.composes _ _

  record_draft-Moves : (draft : FuelEventDraft) → Moves R (record_draft rt t draft)
  unfolding record_draft
  record_draft-Moves draft =
      Moves-bind a.composes _ _ a.now_moves
        λ at. Moves-bind a.composes _ _ (a.new_id_moves _) λ id. a.events_save _

  pub detect_and_record-Moves :
      (tank : Tank) (readings : List TankReading) → Moves R (detect_and_record rt t tank readings)
  unfolding detect_and_record Events.list_recent_by_tank
  detect_and_record-Moves tank readings = Moves-bind a.composes _ _ a.now_moves λ at.
      Moves-bind a.composes _ _ (Moves-gets a.composes _)
        λ existing. Moves-for_each a.composes _ _ record_draft-Moves

  check_confirmable-Moves :
      (id : String) (event : FuelEvent) (input : ConfirmEventInput)
      → Moves R (check_confirmable rt id event input)
  unfolding check_confirmable
  check_confirmable-Moves id event input =
      Moves-bind a.composes _ _ (Moves-ensure a.composes _ _) λ u.
        Moves-bind a.composes _ _ (Moves-ensure a.composes _ _) λ v.
          Moves-bind a.composes _ _ (Moves-ensure a.composes _ _) λ w. Moves-ensure a.composes _ _

  write_confirmation-Moves :
      (event : FuelEvent) (input : ConfirmEventInput) (actor at id : String)
      → Moves R (write_confirmation rt t event input actor at id)
  unfolding write_confirmation
  write_confirmation-Moves event input actor at id =
      Moves-bind a.composes _ _ (a.deliveries_save _)
        λ delivery. Moves-bind a.composes _ _ (a.events_update _) λ updated. Moves-pure a.composes _

  pub confirm-Moves :
      (id : String) (input : ConfirmEventInput) (actor : String)
      → Moves R (confirm rt t id input actor)
  unfolding confirm Deliveries.list_by_event
  confirm-Moves id input actor = Moves-bind a.composes _ _ (require_event-Moves id) λ event.
      Moves-bind a.composes _ _ (check_confirmable-Moves id event input) λ u.
        Moves-bind a.composes _ _ a.now_moves λ at.
          Moves-bind a.composes _ _ (Moves-gets a.composes _) λ existing.
            Moves-bind a.composes _ _ (Moves-ensure a.composes _ _) λ y.
              Moves-bind a.composes _ _ (a.new_id_moves _)
                λ id'. write_confirmation-Moves event input actor _ id'

  pub reject-Moves : (id note actor : String) → Moves R (reject rt t id note actor)
  unfolding reject
  reject-Moves id note actor = Moves-bind a.composes _ _ (require_event-Moves id) λ event.
      Moves-bind a.composes _ _ (Moves-ensure a.composes _ _)
        λ u. Moves-bind a.composes _ _ a.now_moves λ at. a.events_update _

  pub delivered_volume_ml-Moves :
      (tank_id from to : String) → Moves R (delivered_volume_ml rt t tank_id from to)
  unfolding delivered_volume_ml Deliveries.list
  delivered_volume_ml-Moves tank_id from to =
      Moves-bind a.composes _ _ (Moves-gets a.composes _) λ deliveries. Moves-pure a.composes _

  pub candidate_events-Moves : (tank_id : String) → Moves R (candidate_events rt t tank_id)
  unfolding candidate_events Events.list
  candidate_events-Moves tank_id = Moves-gets a.composes _
