-- ===== src/Tests/Decisions.antt =====
-- Decisions on an event and on an alert.
use mafuta.Base.{String, none, some, false, [], ◌∷◌, ◌≡◌, refl}
use mafuta.Base.Int.{pos}
use mafuta.Base.Ratio.{of_ℕ}
use mafuta.Effect.{Result, ok, err}
use mafuta.Memory.{World, create_memory_store, scoped_key}
use mafuta.Base.Dict.{get}
use mafuta.Domain.Event.{FuelEvent, FuelEventType, FuelEventStatus}
use mafuta.Domain.Alert.{Alert, AlertStatus}
use mafuta.Services.Events.{ConfirmEventInput, ConfirmEventResult, confirm, reject, already_decided}
use mafuta.Services.Fleet.{resolve_alert, acknowledge_alert, already_resolved}
use mafuta.Services.Calls.Once.{confirm_once, resolve_alert_final}
use mafuta.Services.Calls.Keyed.{IsKeyed}
use mafuta.Base.Int.{leb_ℤ}
use mafuta.Services.Events.{measured_ml, recorded_ml, or_null}
use mafuta.Services.Events.Decisions.{Written, confirm-ok}
use mafuta.Services.Fleet.AlertLife.{acknowledge_alert-ok, resolve_alert-ok}
use mafuta.Base.{true}
use mafuta.Domain.Tank.{Tank, is_active_status}
use mafuta.Domain.Device.{
  Device, DeviceAssignment, DeviceProtocol, DeviceStatus, DeviceConnectionState, AssignmentStatus,
  is_device_assignable,
}
use mafuta.Services.Devices.{assign_to_tank, require_device, replace_assignment, attach}
use mafuta.Services.Devices.Assigned.{IsAssigned, assign_to_tank-IsAssigned}
use mafuta.Memory.Devices
use mafuta.Memory.Assignments
use mafuta.Services.Fleet.{with_note}
use mafuta.Tests.Samples.{depot_tank, rt, empty_world, rise, low_alert, value_of, everything}

abbrev undecided : World
undecided = record empty_world {
  store = record create_memory_store {
    events = ("acme:evt-1", rise) ∷ [];
    alerts = ("acme:alt-1", low_alert) ∷ [];
  };
}

undecided-IsKeyed : IsKeyed undecided.store
unfolding IsKeyed everything
undecided-IsKeyed = (tt, tt, tt, (refl, tt), tt, tt, (refl, tt), tt, tt, tt)

abbrev ticket : ConfirmEventInput
ticket = record {
  recorded_volume_litres = some (of_ℕ 480);
  reference = some "T-7";
  supplier = none;
  note = none;
}

abbrev no_confirmation : ConfirmEventResult
no_confirmation = record {
  event = rise;
  delivery = record {
    id = "";
    tenant_id = "";
    tank_id = "";
    fuel_event_id = none;
    measured_volume_ml = pos 0;
    recorded_volume_ml = pos 0;
    reference = none;
    supplier = none;
    confirmed_by = "";
    confirmed_at = "";
    created_at = "";
  };
  variance_ml = pos 0;
}

abbrev confirmation_run : Result ConfirmEventResult × World
confirmation_run = confirm rt "acme" "evt-1" ticket "ann" undecided

abbrev confirmed_result : ConfirmEventResult
confirmed_result = value_of no_confirmation confirmation_run.0

confirmation_ok :
    confirm rt "acme" "evt-1" ticket "ann" undecided ≡ (ok confirmed_result, confirmation_run.1)
unfolding everything
confirmation_ok = refl

confirm_once_example :
    (confirm rt "acme" "evt-1" ticket "bob" confirmation_run.1
      ≡ (err (already_decided "evt-1" confirmed_result.event), confirmation_run.1))
    × (reject rt "acme" "evt-1" "wrong" "bob" confirmation_run.1
        ≡ (err (already_decided "evt-1" confirmed_result.event), confirmation_run.1))
confirm_once_example =
    confirm_once rt "acme" "evt-1" ticket "ann" undecided confirmation_run.1 confirmed_result
      undecided-IsKeyed confirmation_ok ticket "bob" "wrong"

abbrev resolution : Result Alert × World
resolution = resolve_alert rt "acme" "alt-1" none "ann" undecided

resolution_ok :
    resolve_alert rt "acme" "alt-1" none "ann" undecided
    ≡ (ok (value_of low_alert resolution.0), resolution.1)
unfolding everything
resolution_ok = refl

resolve_alert_final_example :
    (acknowledge_alert rt "acme" "alt-1" none "bob" resolution.1
      ≡ (err (already_resolved "alt-1"), resolution.1))
    × (resolve_alert rt "acme" "alt-1" none "bob" resolution.1
        ≡ (err (already_resolved "alt-1"), resolution.1))
resolve_alert_final_example =
    resolve_alert_final rt "acme" "alt-1" none "ann" undecided resolution.1
      (value_of low_alert resolution.0) undecided-IsKeyed resolution_ok none "bob"

abbrev acknowledgement : Result Alert × World
acknowledgement = acknowledge_alert rt "acme" "alt-1" none "ann" undecided

acknowledgement_ok :
    acknowledge_alert rt "acme" "alt-1" none "ann" undecided
    ≡ (ok (value_of low_alert acknowledgement.0), acknowledgement.1)
unfolding everything
acknowledgement_ok = refl

acknowledge_alert-ok_example :
    (alert : Alert) × (at : String) × (get (scoped_key "acme" "alt-1") undecided.store.alerts
      ≡ some alert)
    × ¬ (alert.status ≡ AlertStatus.resolved)
    × ((value_of low_alert acknowledgement.0).status ≡ AlertStatus.acknowledged)
    × ((value_of low_alert acknowledgement.0).acknowledged_at
        ≡ or_null alert.acknowledged_at (some at))
    × ((value_of low_alert acknowledgement.0).acknowledged_by
        ≡ or_null alert.acknowledged_by (some "ann"))
    × (get (scoped_key "acme" alert.id) acknowledgement.1.store.alerts
        ≡ some (value_of low_alert acknowledgement.0))
acknowledge_alert-ok_example =
    acknowledge_alert-ok rt "acme" "alt-1" none "ann" undecided acknowledgement.1
      (value_of low_alert acknowledgement.0) acknowledgement_ok

confirm-ok_example :
    (event : FuelEvent) × (at : String) × (get (scoped_key "acme" "evt-1") undecided.store.events
      ≡ some event)
    × (event.status ≡ FuelEventStatus.candidate)
    × (event.type ≡ FuelEventType.candidate_delivery)
    × (leb_ℤ (measured_ml event) (pos 0) ≡ false)
    × (leb_ℤ (recorded_ml event ticket) (pos 0) ≡ false)
    × Written rt "acme" "evt-1" ticket "ann" confirmation_run.1 confirmed_result event at
confirm-ok_example =
    confirm-ok rt "acme" "evt-1" ticket "ann" undecided confirmation_run.1 confirmed_result
      confirmation_ok

resolve_alert-ok_example :
    (alert : Alert) × (at : String) × (get (scoped_key "acme" "alt-1") undecided.store.alerts
      ≡ some alert)
    × ¬ (alert.status ≡ AlertStatus.resolved)
    × (alert.tenant_id ≡ "acme")
    × (value_of low_alert resolution.0 ≡ record alert {
      status = AlertStatus.resolved;
      resolved_at = some at;
      resolved_by = some "ann";
      acknowledged_at = or_null alert.acknowledged_at (some at);
      acknowledged_by = or_null alert.acknowledged_by (some "ann");
      updated_at = at;
      message = with_note alert.message none;
    })
    × (get (scoped_key "acme" alert.id) resolution.1.store.alerts
        ≡ some (value_of low_alert resolution.0))
resolve_alert-ok_example =
    resolve_alert-ok rt "acme" "alt-1" none "ann" undecided resolution.1
      (value_of low_alert resolution.0) resolution_ok

abbrev probe_device : Device
probe_device = record {
  id = "dev-1";
  tenant_id = "acme";
  manufacturer = "M";
  model = "P";
  serial_number = "S1";
  protocol = DeviceProtocol.http;
  firmware_version = none;
  status = DeviceStatus.registered;
  connection_state = DeviceConnectionState.offline;
  last_seen_at = none;
  credential_ref = none;
  created_at = "c";
  updated_at = "c";
}

abbrev equipped : World
equipped = record empty_world {
  store = record create_memory_store {
    tanks = ("acme:tank-1", depot_tank) ∷ [];
    devices = ("acme:dev-1", probe_device) ∷ [];
  };
}

abbrev no_assignment : DeviceAssignment
no_assignment = record {
  id = "";
  tenant_id = "";
  device_id = "";
  tank_id = "";
  status = AssignmentStatus.ended;
  assigned_at = "";
  unassigned_at = none;
  created_at = "";
  updated_at = "";
}

abbrev assignment_run : Result DeviceAssignment × World
assignment_run = assign_to_tank rt "acme" "dev-1" "tank-1" equipped

assignment_ok :
    assign_to_tank rt "acme" "dev-1" "tank-1" equipped
    ≡ (ok (value_of no_assignment assignment_run.0), assignment_run.1)
unfolding everything assign_to_tank require_device Devices.find_by_id
    Assignments.find_active_by_device replace_assignment attach Assignments.save Assignments.put
assignment_ok = refl

assign_to_tank-IsAssigned_example :
    IsAssigned rt "acme" "dev-1" "tank-1" (value_of no_assignment assignment_run.0)
    × (device : Device) × (tank : Tank) × (is_device_assignable device ≡ true)
    × (is_active_status tank.status ≡ true)
    × (get (scoped_key "acme" "dev-1") equipped.store.devices ≡ some device)
    × (get (scoped_key "acme" "tank-1") equipped.store.tanks ≡ some tank)
assign_to_tank-IsAssigned_example =
    assign_to_tank-IsAssigned rt "acme" "dev-1" "tank-1" equipped assignment_run.1
      (value_of no_assignment assignment_run.0) assignment_ok
