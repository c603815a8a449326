-- ===== src/Services/Devices.antt =====
-- packages/core/src/services/device-service.ts
pub mod Moves
pub mod Assigned
use mafuta.Base.{
  ℕ, String, Option, some, none, List, [], ◌∷◌, ◌==◌, get_or, if◌then◌else◌, template,
}
use mafuta.Runtime.{Runtime}
use mafuta.Errors.{not_found, conflict, validation}
use mafuta.Effect.{Action, pure, throw, ensure, require, ◌>>=◌, ◌>>◌}
use mafuta.Domain.Tank.{is_active_status}
use mafuta.Domain.Device.{
  Device, DeviceAssignment, DeviceProtocol, DeviceStatus, simulated, registered, active, online,
  offline, AssignmentStatus, is_device_assignable,
}
use mafuta.Memory.{World, now, new_id, RawMessageRecord}
use mafuta.Memory.Devices
use mafuta.Memory.Assignments
use mafuta.Memory.Tanks
use mafuta.Memory.RawMessages

pub record RegisterDeviceInput : Type 0 where
  pub id : Option String
  pub manufacturer : String
  pub model : String
  pub serial_number : String
  pub protocol : DeviceProtocol
  pub firmware_version : Option String
  pub credential_ref : Option String

-- An outer `none` is an absent field, an inner one is null.
pub record UpdateDeviceInput : Type 0 where
  pub manufacturer : Option String
  pub model : Option String
  pub protocol : Option DeviceProtocol
  pub firmware_version : Option (Option String)
  pub status : Option DeviceStatus
  pub credential_ref : Option (Option String)

unfoldable pub require_device : String → String → Action World Device
require_device tenant_id device_id = do
  found ← Devices.find_by_id tenant_id device_id
  require found (not_found "Device" device_id)

module _ (rt : Runtime) where
  -- `input.id ?? newId('dev')`
  unfoldable pub given_or_new_id : Option String → String → Action World String
  given_or_new_id (some id) prefix = pure id
  given_or_new_id none prefix = new_id rt prefix

  unfoldable pub refuse_registered : RegisterDeviceInput → Option Device → Action World (Unit {0})
  refuse_registered input none = pure tt
  refuse_registered input (some existing) = throw (
      conflict (
        template
          ("A device with serial number " ∷ input.serial_number ∷ " is already registered" ∷ [])))

  unfoldable pub register : String → RegisterDeviceInput → Action World Device
  register tenant_id input = do
    existing ← Devices.find_by_serial_number tenant_id input.serial_number
    refuse_registered input existing
    at ← now rt
    id ← given_or_new_id input.id "dev"
    Devices.save tenant_id (record {
      id = id;
      tenant_id = tenant_id;
      manufacturer = input.manufacturer;
      model = input.model;
      serial_number = input.serial_number;
      protocol = input.protocol;
      firmware_version = input.firmware_version;
      status = registered;
      connection_state = offline;
      last_seen_at = none;
      credential_ref = input.credential_ref;
      created_at = rt.to_iso at;
      updated_at = rt.to_iso at;
    })

  unfoldable pub update : String → String → UpdateDeviceInput → Action World Device
  update tenant_id device_id input = do
    device ← require_device tenant_id device_id
    at ← now rt
    Devices.save tenant_id (record device {
      manufacturer = get_or input.manufacturer device.manufacturer;
      model = get_or input.model device.model;
      protocol = get_or input.protocol device.protocol;
      firmware_version = get_or input.firmware_version device.firmware_version;
      status = get_or input.status device.status;
      credential_ref = get_or input.credential_ref device.credential_ref;
      updated_at = rt.to_iso at;
    })

  -- The part of `assignToTank` from `newId('asg')` on.
  unfoldable pub attach : String → String → String → String → Action World DeviceAssignment
  attach tenant_id device_id tank_id at = do
    id ← new_id rt "asg"
    Assignments.save tenant_id (record {
      id = id;
      tenant_id = tenant_id;
      device_id = device_id;
      tank_id = tank_id;
      status = AssignmentStatus.active;
      assigned_at = at;
      unassigned_at = none;
      created_at = at;
      updated_at = at;
    })

  -- The part of `assignToTank` that looks at the current assignment.
  unfoldable pub replace_assignment :
      String → String → String → String → Option DeviceAssignment → Action World DeviceAssignment
  replace_assignment tenant_id device_id tank_id at none = attach tenant_id device_id tank_id at
  replace_assignment tenant_id device_id tank_id at (some current) =
      if current.tank_id == tank_id
      then pure current
      else (Assignments.end_at tenant_id current.id at >> attach tenant_id device_id tank_id at)

  unfoldable pub assign_to_tank : String → String → String → Action World DeviceAssignment
  assign_to_tank tenant_id device_id tank_id = do
    device ← require_device tenant_id device_id
    ensure (is_device_assignable device) (
        conflict (
          template (
            "Device " ∷ device.serial_number ∷ " is retired and cannot be assigned to a tank"
            ∷ [])))
    found ← Tanks.find_by_id tenant_id tank_id
    tank ← require found (not_found "Tank" tank_id)
    ensure (is_active_status tank.status) (
        validation "Cannot assign a device to a decommissioned tank"
          (("tankId", "tank is not active") ∷ []))
    at ← now rt
    current ← Assignments.find_active_by_device rt tenant_id device_id
    replace_assignment tenant_id device_id tank_id (rt.to_iso at) current

  unfoldable pub unassign : String → String → Action World DeviceAssignment
  unassign tenant_id device_id = do
    device ← require_device tenant_id device_id
    found ← Assignments.find_active_by_device rt tenant_id device_id
    current ← require found (not_found "Active assignment for device" device.id)
    at ← now rt
    Assignments.end_at tenant_id current.id (rt.to_iso at)

  -- Called with the instant at which the sample was received.
  unfoldable pub mark_seen : String → String → String → Action World (Unit {0})
  mark_seen tenant_id device_id seen_at = Devices.touch tenant_id device_id seen_at online

  unfoldable pub register_simulated : String → String → Action World Device
  register_simulated tenant_id device_id = do
    at ← now rt
    Devices.save tenant_id (record {
      id = device_id;
      tenant_id = tenant_id;
      manufacturer = "FuelTrack";
      model = "development-simulator";
      serial_number = device_id;
      protocol = simulated;
      firmware_version = none;
      status = active;
      connection_state = online;
      last_seen_at = none;
      credential_ref = none;
      created_at = rt.to_iso at;
      updated_at = rt.to_iso at;
    })

  unfoldable pub raw_messages : String → String → ℕ → Action World (List RawMessageRecord)
  raw_messages tenant_id device_id limit = do
    device ← require_device tenant_id device_id
    RawMessages.list_by_device rt tenant_id device_id (some limit)
