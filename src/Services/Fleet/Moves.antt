-- ===== src/Services/Fleet/Moves.antt =====
-- packages/core/src/services/fleet-service.ts: its operations as rules for relations between states.
use mafuta.Base.{String, Option, none, some}
use mafuta.Effect.Moves.{
  Moves, Moves-bind, Moves-gets, Moves-require, Moves-ensure, Moves-pure, Moves-throw,
}
use mafuta.Runtime.{Runtime}
use mafuta.Memory.{World}
use mafuta.Services.Writes.{Admits}
use mafuta.Domain.Station.{Station}
use mafuta.Memory.Stations
use mafuta.Memory.Tanks
use mafuta.Memory.Alerts
use mafuta.Services.Devices.Moves.{given_or_new_id-Moves}
use mafuta.Services.Fleet.{
  CreateStationInput, UpdateStationInput, CreateTankInput, UpdateTankInput, require_station,
  require_tank, require_alert, refuse_used_code, create_station, update_station, create_tank,
  update_tank, acknowledge_alert, resolve_alert, assign_alert,
}

module _ (rt : Runtime) (t : String) (R : World → World → Type 0) (a : Admits rt t R) where
  require_station-Moves : (id : String) → Moves R (require_station t id)
  unfolding require_station Stations.find_by_id
  require_station-Moves id =
      Moves-bind a.composes _ _ (Moves-gets a.composes _) λ found. Moves-require a.composes _ _

  require_tank-Moves : (id : String) → Moves R (require_tank t id)
  unfolding require_tank Tanks.find_by_id
  require_tank-Moves id =
      Moves-bind a.composes _ _ (Moves-gets a.composes _) λ found. Moves-require a.composes _ _

  require_alert-Moves : (id : String) → Moves R (require_alert t id)
  unfolding require_alert Alerts.find_by_id
  require_alert-Moves id =
      Moves-bind a.composes _ _ (Moves-gets a.composes _) λ found. Moves-require a.composes _ _

  refuse_used_code-Moves :
      (code : String) (found : Option Station) → Moves R (refuse_used_code rt code found)
  unfolding refuse_used_code
  refuse_used_code-Moves code none = Moves-pure a.composes _
  refuse_used_code-Moves code (some existing) = Moves-throw a.composes _

  pub create_station-Moves : (input : CreateStationInput) → Moves R (create_station rt t input)
  unfolding create_station Stations.find_by_code
  create_station-Moves input = Moves-bind a.composes _ _ a.now_moves λ at.
      Moves-bind a.composes _ _ (given_or_new_id-Moves rt t R a _ _) λ id.
        Moves-bind a.composes _ _ (Moves-gets a.composes _) λ existing.
          Moves-bind a.composes _ _ (refuse_used_code-Moves _ existing) λ u. a.stations_save _

  pub update_station-Moves :
      (id : String) (input : UpdateStationInput) → Moves R (update_station rt t id input)
  unfolding update_station
  update_station-Moves id input =
      Moves-bind a.composes _ _ (require_station-Moves id)
        λ station. Moves-bind a.composes _ _ a.now_moves λ at. a.stations_save _

  pub create_tank-Moves : (input : CreateTankInput) → Moves R (create_tank rt t input)
  unfolding create_tank Stations.find_by_id
  create_tank-Moves input = Moves-bind a.composes _ _ (Moves-gets a.composes _) λ found.
      Moves-bind a.composes _ _ (Moves-require a.composes _ _) λ station.
        Moves-bind a.composes _ _ (Moves-ensure a.composes _ _) λ u.
          Moves-bind a.composes _ _ a.now_moves λ at.
            Moves-bind a.composes _ _ (given_or_new_id-Moves rt t R a _ _) λ id. a.tanks_save _

  pub update_tank-Moves :
      (id : String) (input : UpdateTankInput) → Moves R (update_tank rt t id input)
  unfolding update_tank
  update_tank-Moves id input = Moves-bind a.composes _ _ (require_tank-Moves id) λ tank.
      Moves-bind a.composes _ _ (Moves-ensure a.composes _ _)
        λ u. Moves-bind a.composes _ _ a.now_moves λ at. a.tanks_save _

  pub acknowledge_alert-Moves :
      (id : String) (remark : Option String) (actor : String)
      → Moves R (acknowledge_alert rt t id remark actor)
  unfolding acknowledge_alert
  acknowledge_alert-Moves id remark actor =
      Moves-bind a.composes _ _ (require_alert-Moves id) λ alert.
        Moves-bind a.composes _ _ (Moves-ensure a.composes _ _)
          λ u. Moves-bind a.composes _ _ a.now_moves λ at. a.alerts_update _

  pub resolve_alert-Moves :
      (id : String) (remark : Option String) (actor : String)
      → Moves R (resolve_alert rt t id remark actor)
  unfolding resolve_alert
  resolve_alert-Moves id remark actor = Moves-bind a.composes _ _ (require_alert-Moves id) λ alert.
      Moves-bind a.composes _ _ (Moves-ensure a.composes _ _)
        λ u. Moves-bind a.composes _ _ a.now_moves λ at. a.alerts_update _

  pub assign_alert-Moves :
      (id : String) (assignee : Option String) → Moves R (assign_alert rt t id assignee)
  unfolding assign_alert
  assign_alert-Moves id assignee =
      Moves-bind a.composes _ _ (require_alert-Moves id)
        λ alert. Moves-bind a.composes _ _ a.now_moves λ at. a.alerts_update _
