-- ===== src/Memory/Devices.antt =====
-- packages/core/src/adapters/memory/memory-device-repositories.ts: devices.
use mafuta.Base.{
  ℕ, String, Option, some, none, Bool, false, ◌&&◌, ◌||◌, List, ◌==◌, filter, take, find, any,
}
use mafuta.Base.Dict.{get, set, values}
use mafuta.Base.Sort.{sort}
use mafuta.Runtime.{Runtime}
use mafuta.Effect.{Action, pure, gets, modify, ◌>>◌}
use mafuta.Tenancy.Guard.{assert_owned_by_tenant}
use mafuta.Memory.{World, scoped_key, clamp_limit, default_page_size, matches, is_text, is_none}
use mafuta.Domain.Device.{
  Device, DeviceAssignment, DeviceStatus, DeviceConnectionState, registered, active,
  same_device_status, is_assignment_active,
}

pub record DeviceQuery : Type 0 where
  pub station_id : Option String
  pub tank_id : Option String
  pub status : Option DeviceStatus
  pub limit : Option ℕ

unfoldable pub put : String → Device → World → World
put tenant_id entity w = record w {
  store = record (w.store) {
    devices = set (scoped_key tenant_id entity.id) entity w.store.devices;
  };
}

unfoldable pub save : String → Device → Action World Device
save tenant_id entity = do
  assert_owned_by_tenant tenant_id entity.tenant_id "devices.save"
  modify (put tenant_id entity)
  pure entity

unfoldable pub find_by_id : String → String → Action World (Option Device)
find_by_id tenant_id id = gets (λ w. get (scoped_key tenant_id id) w.store.devices)

unfoldable pub find_by_serial_number : String → String → Action World (Option Device)
find_by_serial_number tenant_id serial_number = gets (λ w.
    find (λ d. d.tenant_id == tenant_id && d.serial_number == serial_number)
      (values w.store.devices))

-- The test of `list` on one assignment, for the tank or else the station that is asked for.
unfoldable pub is_at : World → String → DeviceQuery → DeviceAssignment → Bool
is_at w tenant_id query assignment = elim query.tank_id [
  | some tank_id ↦ assignment.tank_id == tank_id
  | none ↦ elim (get (scoped_key tenant_id assignment.tank_id) w.store.tanks) [
    | none ↦ false
    | some tank ↦ is_text query.station_id tank.station_id
  ]
]

unfoldable pub is_asked_for : World → String → DeviceQuery → Device → Bool
is_asked_for w tenant_id query device =
    is_none query.tank_id && is_none query.station_id
    || any
        (λ a.
          a.tenant_id == tenant_id
          && a.device_id == device.id
          && is_assignment_active a
          && is_at w tenant_id query a)
        (values w.store.assignments)

unfoldable pub list : Runtime → String → DeviceQuery → Action World (List Device)
list rt tenant_id query = gets (λ w. take (clamp_limit query.limit default_page_size) (
    sort (λ l r. rt.locale_after l.serial_number r.serial_number)
      (filter (is_asked_for w tenant_id query) (
        filter (λ d. matches same_device_status query.status d.status)
          (filter (λ d. d.tenant_id == tenant_id) (values w.store.devices))))))

-- The status after a message: a registered device becomes active.
abbrev seen_status : DeviceStatus → DeviceStatus
seen_status registered = active
seen_status status = status

unfoldable pub touch_device : Device → String → DeviceConnectionState → Device
touch_device existing seen_at connection_state = record existing {
  last_seen_at = some seen_at;
  connection_state = connection_state;
  status = seen_status existing.status;
  updated_at = seen_at;
}

-- The write goes to the key that was read.
unfoldable pub put_at : String → String → Device → World → World
put_at tenant_id id updated w = record w {
  store = record (w.store) { devices = set (scoped_key tenant_id id) updated w.store.devices };
}

unfoldable pub touch : String → String → String → DeviceConnectionState → Action World (Unit {0})
touch tenant_id id seen_at connection_state = modify (λ w.
    elim (get (scoped_key tenant_id id) w.store.devices) [
      | none ↦ w
      | some existing ↦ put_at tenant_id id (touch_device existing seen_at connection_state) w
    ])
