-- ===== src/Services/Calls.antt =====
-- The calls that the API makes on the services for the tenant of a request, and what a sequence of them
-- does to the store; the services are in packages/core/src/services.
pub mod Moves
pub mod Keyed
pub mod Untouched
pub mod Isolated
pub mod Inserted
pub mod Once
pub mod Kept
pub mod Submitted
use mafuta.Base.{String, Option, List, [], ◌∷◌}
use mafuta.Runtime.{Runtime}
use mafuta.Effect.{Action}
use mafuta.Domain.Normalize.{ProbeSample}
use mafuta.Memory.{World}
use mafuta.Services.Devices.{
  RegisterDeviceInput, UpdateDeviceInput, register, update, assign_to_tank, unassign, mark_seen,
}
use mafuta.Services.Events.{ConfirmEventInput, confirm, reject}
use mafuta.Services.Fleet.{
  CreateStationInput, UpdateStationInput, CreateTankInput, UpdateTankInput, create_station,
  update_station, create_tank, update_tank, acknowledge_alert, resolve_alert, assign_alert,
}
use mafuta.Services.Rules.{IngestConfig}
use mafuta.Services.Ingest.{ingest}
use mafuta.Services.Sweep.{sweep_tenant}

pub data Call : Type 0 where
  create_station_call : CreateStationInput → Call
  update_station_call : String → UpdateStationInput → Call
  create_tank_call : CreateTankInput → Call
  update_tank_call : String → UpdateTankInput → Call
  acknowledge_call : String → Option String → String → Call
  resolve_call : String → Option String → String → Call
  assign_alert_call : String → Option String → Call
  register_call : RegisterDeviceInput → Call
  update_device_call : String → UpdateDeviceInput → Call
  assign_call : String → String → Call
  unassign_call : String → Call
  mark_seen_call : String → String → Call
  confirm_call : String → ConfirmEventInput → String → Call
  reject_call : String → String → String → Call
  ingest_call : ProbeSample → Option String → Call
  sweep_call : Call

-- The state that an action leaves, whether it returns or throws.
abbrev after : {A : Type 0} → Action World A → World → World
after m w = (m w).1

module _ (rt : Runtime) (config : IngestConfig) where
  unfoldable pub perform : String → Call → World → World
  perform t (create_station_call input) = after (create_station rt t input)
  perform t (update_station_call id input) = after (update_station rt t id input)
  perform t (create_tank_call input) = after (create_tank rt t input)
  perform t (update_tank_call id input) = after (update_tank rt t id input)
  perform t (acknowledge_call id remark actor) = after (acknowledge_alert rt t id remark actor)
  perform t (resolve_call id remark actor) = after (resolve_alert rt t id remark actor)
  perform t (assign_alert_call id assignee) = after (assign_alert rt t id assignee)
  perform t (register_call input) = after (register rt t input)
  perform t (update_device_call id input) = after (update rt t id input)
  perform t (assign_call device_id tank_id) = after (assign_to_tank rt t device_id tank_id)
  perform t (unassign_call device_id) = after (unassign rt t device_id)
  perform t (mark_seen_call device_id at) = after (mark_seen rt t device_id at)
  perform t (confirm_call id input actor) = after (confirm rt t id input actor)
  perform t (reject_call id remark actor) = after (reject rt t id remark actor)
  perform t (ingest_call sample payload) = after (ingest rt config t sample payload)
  perform t sweep_call = after (sweep_tenant rt config t)

  -- Each call with the tenant that makes it, the first one first.
  unfoldable pub run : List (String × Call) → World → World
  run [] w = w
  run ((t, call) ∷ rest) w = run rest (perform t call w)
