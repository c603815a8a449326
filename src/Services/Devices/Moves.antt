-- ===== src/Services/Devices/Moves.antt =====
-- packages/core/src/services/device-service.ts: its operations as rules for relations between states.
use mafuta.Base.{ℕ, String, Option, none, some, ◌==◌}
use mafuta.Runtime.{Runtime}
use mafuta.Effect.Moves.{
  Moves, Moves-bind, Moves-gets, Moves-require, Moves-ensure, Moves-pure, Moves-throw, Moves-if,
}
use mafuta.Memory.{World}
use mafuta.Memory.Devices
use mafuta.Memory.Assignments
use mafuta.Memory.Tanks
use mafuta.Memory.RawMessages
use mafuta.Domain.Device.{Device, DeviceAssignment}
use mafuta.Services.Writes.{Admits}
use mafuta.Services.Devices.{
  RegisterDeviceInput, UpdateDeviceInput, require_device, given_or_new_id, refuse_registered,
  register, update, attach, replace_assignment, assign_to_tank, unassign, mark_seen,
  register_simulated, raw_messages,
}

module _ (rt : Runtime) (t : String) (R : World → World → Type 0) (a : Admits rt t R) where
  pub require_device-Moves : (id : String) → Moves R (require_device t id)
  unfolding require_device Devices.find_by_id
  require_device-Moves id =
      Moves-bind a.composes _ _ (Moves-gets a.composes _) λ found. Moves-require a.composes _ _

  pub given_or_new_id-Moves : (id : Option String) (p : String) → Moves R (given_or_new_id rt id p)
  unfolding given_or_new_id
  given_or_new_id-Moves none p = a.new_id_moves p
  given_or_new_id-Moves (some id) p = Moves-pure a.composes _

  refuse_registered-Moves :
      (input : RegisterDeviceInput) (found : Option Device)
      → Moves R (refuse_registered rt input found)
  unfolding refuse_registered
  refuse_registered-Moves input none = Moves-pure a.composes _
  refuse_registered-Moves input (some existing) = Moves-throw a.composes _

  pub register-Moves : (input : RegisterDeviceInput) → Moves R (register rt t input)
  unfolding register Devices.find_by_serial_number
  register-Moves input = Moves-bind a.composes _ _ (Moves-gets a.composes _) λ existing.
      Moves-bind a.composes _ _ (refuse_registered-Moves input existing) λ u.
        Moves-bind a.composes _ _ a.now_moves
          λ at. Moves-bind a.composes _ _ (given_or_new_id-Moves _ _) λ id. a.devices_save _

  pub update-Moves : (id : String) (input : UpdateDeviceInput) → Moves R (update rt t id input)
  unfolding update
  update-Moves id input =
      Moves-bind a.composes _ _ (require_device-Moves id)
        λ d. Moves-bind a.composes _ _ a.now_moves λ at. a.devices_save _

  attach-Moves : (device_id tank_id at : String) → Moves R (attach rt t device_id tank_id at)
  unfolding attach
  attach-Moves device_id tank_id at =
      Moves-bind a.composes _ _ (a.new_id_moves _) λ id. a.assignments_save _

  replace_assignment-Moves :
      (device_id tank_id at : String) (current : Option DeviceAssignment)
      → Moves R (replace_assignment rt t device_id tank_id at current)
  unfolding replace_assignment
  replace_assignment-Moves device_id tank_id at none = attach-Moves device_id tank_id at
  replace_assignment-Moves device_id tank_id at (some current) =
      Moves-if a.composes (current.tank_id == tank_id) _ _ (Moves-pure a.composes _)
        (Moves-bind a.composes _ _ (a.assignments_end _ _) λ u. attach-Moves device_id tank_id at)

  pub assign_to_tank-Moves :
      (device_id tank_id : String) → Moves R (assign_to_tank rt t device_id tank_id)
  unfolding assign_to_tank Tanks.find_by_id Assignments.find_active_by_device
  assign_to_tank-Moves device_id tank_id =
      Moves-bind a.composes _ _ (require_device-Moves device_id) λ device.
        Moves-bind a.composes _ _ (Moves-ensure a.composes _ _) λ u.
          Moves-bind a.composes _ _ (Moves-gets a.composes _) λ found.
            Moves-bind a.composes _ _ (Moves-require a.composes _ _) λ tank.
              Moves-bind a.composes _ _ (Moves-ensure a.composes _ _) λ v.
                Moves-bind a.composes _ _ a.now_moves λ at.
                  Moves-bind a.composes _ _ (Moves-gets a.composes _)
                    λ current. replace_assignment-Moves device_id tank_id _ current

  pub unassign-Moves : (device_id : String) → Moves R (unassign rt t device_id)
  unfolding unassign Assignments.find_active_by_device
  unassign-Moves device_id = Moves-bind a.composes _ _ (require_device-Moves device_id) λ device.
      Moves-bind a.composes _ _ (Moves-gets a.composes _) λ found.
        Moves-bind a.composes _ _ (Moves-require a.composes _ _)
          λ current. Moves-bind a.composes _ _ a.now_moves λ at. a.assignments_end _ _

  pub mark_seen-Moves : (device_id at : String) → Moves R (mark_seen rt t device_id at)
  unfolding mark_seen
  mark_seen-Moves device_id at = a.devices_touch _ _ _

  pub register_simulated-Moves : (device_id : String) → Moves R (register_simulated rt t device_id)
  unfolding register_simulated
  register_simulated-Moves device_id = Moves-bind a.composes _ _ a.now_moves λ at. a.devices_save _

  pub raw_messages-Moves : (device_id : String) (n : ℕ) → Moves R (raw_messages rt t device_id n)
  unfolding raw_messages RawMessages.list_by_device
  raw_messages-Moves device_id n =
      Moves-bind a.composes _ _ (require_device-Moves device_id) λ device. Moves-gets a.composes _
