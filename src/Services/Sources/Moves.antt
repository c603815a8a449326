-- ===== src/Services/Sources/Moves.antt =====
-- packages/core/src/services/ingest-service.ts: `resolveDevice` and `retainRawPayload` as rules for
-- relations between states.
use mafuta.Base.{String, Option, none, some}
use mafuta.Effect.Moves.{
  Moves, Moves-bind, Moves-gets, Moves-ensure, Moves-pure, Moves-throw, Moves-if, Moves-or_else,
}
use mafuta.Runtime.{Runtime}
use mafuta.Memory.{World}
use mafuta.Services.Writes.{Admits}
use mafuta.Domain.Reading.{ReadingSource, simulated, device, manual}
use mafuta.Domain.Device.{Device, DeviceAssignment}
use mafuta.Domain.Normalize.{ProbeSample}
use mafuta.Memory.Devices
use mafuta.Memory.Assignments
use mafuta.Services.Devices.Moves.{assign_to_tank-Moves, register_simulated-Moves}
use mafuta.Services.Sources.{
  found_or_simulated, attach_if_free, check_assignment, resolve_known, resolve_device,
  retain_raw_payload, is_simulated,
}

module _ (rt : Runtime) (t : String) (R : World → World → Type 0) (a : Admits rt t R) where
  found_or_simulated-Moves :
      (sample : ProbeSample) (id : String) (found : Option Device)
      → Moves R (found_or_simulated rt t sample id found)
  unfolding found_or_simulated
  found_or_simulated-Moves sample id (some found) = Moves-pure a.composes _
  found_or_simulated-Moves sample id none =
      Moves-if a.composes (is_simulated sample.source) _ _ (register_simulated-Moves rt t R a id)
        (Moves-throw a.composes _)

  attach_if_free-Moves :
      (device_id tank_id : String) (found : Option DeviceAssignment)
      → Moves R (attach_if_free rt t device_id tank_id found)
  unfolding attach_if_free
  attach_if_free-Moves device_id tank_id (some assignment) = Moves-pure a.composes _
  attach_if_free-Moves device_id tank_id none =
      Moves-bind a.composes _ _ (assign_to_tank-Moves rt t R a device_id tank_id)
        λ u. Moves-pure a.composes _

  check_assignment-Moves :
      (source : ReadingSource) (device_id tank_id : String)
      → Moves R (check_assignment rt t source device_id tank_id)
  unfolding check_assignment Assignments.find_active_by_device
  check_assignment-Moves device device_id tank_id =
      Moves-bind a.composes _ _ (Moves-gets a.composes _) λ found. Moves-ensure a.composes _ _
  check_assignment-Moves simulated device_id tank_id =
      Moves-bind a.composes _ _ (Moves-gets a.composes _)
        λ found. attach_if_free-Moves device_id tank_id found
  check_assignment-Moves manual device_id tank_id = Moves-pure a.composes _

  resolve_known-Moves :
      (sample : ProbeSample) (tank_id device_id : String)
      → Moves R (resolve_known rt t sample tank_id device_id)
  unfolding resolve_known Devices.find_by_id
  resolve_known-Moves sample tank_id device_id =
      Moves-bind a.composes _ _ (Moves-gets a.composes _) λ found.
        Moves-bind a.composes _ _ (found_or_simulated-Moves sample device_id found) λ probe.
          Moves-bind a.composes _ _ (Moves-ensure a.composes _ _) λ u.
            Moves-bind a.composes _ _ (check_assignment-Moves _ _ _) λ v. Moves-pure a.composes _

  pub resolve_device-Moves :
      (sample : ProbeSample) (tank_id : String) (device_id : Option String)
      → Moves R (resolve_device rt t sample tank_id device_id)
  unfolding resolve_device
  resolve_device-Moves sample tank_id none =
      Moves-bind a.composes _ _ (Moves-ensure a.composes _ _) λ u. Moves-pure a.composes _
  resolve_device-Moves sample tank_id (some device_id) =
      Moves-bind a.composes _ _ (resolve_known-Moves sample tank_id device_id)
        λ id. Moves-pure a.composes _

  pub retain_raw_payload-Moves :
      (sample : ProbeSample) (payload : Option String) (at : String)
      → Moves R (retain_raw_payload rt t sample payload at)
  unfolding retain_raw_payload
  retain_raw_payload-Moves sample payload at = Moves-bind a.composes _ _ (a.new_id_moves _) λ id.
      Moves-or_else a.composes _ _
        (Moves-bind a.composes _ _ (a.raw_messages_save _) λ kept. Moves-pure a.composes _)
