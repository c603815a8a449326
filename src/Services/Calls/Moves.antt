-- ===== src/Services/Calls/Moves.antt =====
-- packages/core/src/services: each call as a rule for relations between states.
use mafuta.Base.{String}
use mafuta.Runtime.{Runtime}
use mafuta.Memory.{World}
use mafuta.Services.Writes.{Admits}
use mafuta.Services.Devices.Moves.{
  register-Moves, update-Moves, assign_to_tank-Moves, unassign-Moves, mark_seen-Moves,
}
use mafuta.Services.Events.Moves.{confirm-Moves, reject-Moves}
use mafuta.Services.Fleet.Moves.{
  create_station-Moves, update_station-Moves, create_tank-Moves, update_tank-Moves,
  acknowledge_alert-Moves, resolve_alert-Moves, assign_alert-Moves,
}
use mafuta.Services.Ingest.Moves.{ingest-Moves}
use mafuta.Services.Sweep.Moves.{sweep_tenant-Moves}
use mafuta.Services.Rules.{IngestConfig}
use mafuta.Services.Calls.{
  Call, perform, create_station_call, update_station_call, create_tank_call, update_tank_call,
  acknowledge_call, resolve_call, assign_alert_call, register_call, update_device_call, assign_call,
  unassign_call, mark_seen_call, confirm_call, reject_call, ingest_call, sweep_call,
}

module _ (rt : Runtime) (config : IngestConfig) (t : String) (R : World → World → Type 0)
    (a : Admits rt t R) where
  pub perform-Moves : (call : Call) (w : World) → R w (perform rt config t call w)
  unfolding perform
  perform-Moves (create_station_call input) = (create_station-Moves rt t R a input).at
  perform-Moves (update_station_call id input) = (update_station-Moves rt t R a id input).at
  perform-Moves (create_tank_call input) = (create_tank-Moves rt t R a input).at
  perform-Moves (update_tank_call id input) = (update_tank-Moves rt t R a id input).at
  perform-Moves (acknowledge_call id remark actor) =
      (acknowledge_alert-Moves rt t R a id remark actor).at
  perform-Moves (resolve_call id remark actor) = (resolve_alert-Moves rt t R a id remark actor).at
  perform-Moves (assign_alert_call id assignee) = (assign_alert-Moves rt t R a id assignee).at
  perform-Moves (register_call input) = (register-Moves rt t R a input).at
  perform-Moves (update_device_call id input) = (update-Moves rt t R a id input).at
  perform-Moves (assign_call device_id tank_id) =
      (assign_to_tank-Moves rt t R a device_id tank_id).at
  perform-Moves (unassign_call device_id) = (unassign-Moves rt t R a device_id).at
  perform-Moves (mark_seen_call device_id at) = (mark_seen-Moves rt t R a device_id at).at
  perform-Moves (confirm_call id input actor) = (confirm-Moves rt t R a id input actor).at
  perform-Moves (reject_call id remark actor) = (reject-Moves rt t R a id remark actor).at
  perform-Moves (ingest_call sample payload) = (ingest-Moves rt t R a config sample payload).at
  perform-Moves sweep_call = (sweep_tenant-Moves rt t R a config).at
