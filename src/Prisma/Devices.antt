-- ===== src/Prisma/Devices.antt =====
-- packages/core/src/adapters/prisma/mappers.ts: devices and their assignments.
use mafuta.Base.{String, Option, ◌==◌, if◌then◌else◌}
use mafuta.Base.Int.{ℤ}
use mafuta.Runtime.{Runtime}
use mafuta.Domain.Device.{
  Device, DeviceAssignment, DeviceProtocol, DeviceStatus, DeviceConnectionState, AssignmentStatus,
  simulated, http, mqtt, modbus_rtu, modbus_tcp, other,
}
use mafuta.Prisma.{iso_or_null, date_or_null, to_date}

-- The texts of `DEVICE_PROTOCOLS`.
unfoldable pub protocol_text : DeviceProtocol → String
protocol_text simulated = "simulated"
protocol_text http = "http"
protocol_text mqtt = "mqtt"
protocol_text modbus_rtu = "modbus_rtu"
protocol_text modbus_tcp = "modbus_tcp"
protocol_text other = "other"

unfoldable pub to_domain_protocol : String → DeviceProtocol
to_domain_protocol value =
    if value == "simulated"
    then simulated
    else if value == "http"
    then http
    else if value == "mqtt"
    then mqtt
    else if value == "modbus_rtu"
    then modbus_rtu
    else if value == "modbus_tcp"
    then modbus_tcp
    else other

pub record DeviceRow : Type 0 where
  pub id : String
  pub tenant_id : String
  pub manufacturer : String
  pub model : String
  pub serial_number : String
  pub protocol : String
  pub firmware_version : Option String
  pub status : DeviceStatus
  pub connection_state : DeviceConnectionState
  pub last_seen_at : Option ℤ
  pub credential_ref : Option String
  pub created_at : ℤ
  pub updated_at : ℤ

unfoldable pub to_domain_device : Runtime → DeviceRow → Device
unfolding to_domain_protocol
to_domain_device rt row = record {
  id = row.id;
  tenant_id = row.tenant_id;
  manufacturer = row.manufacturer;
  model = row.model;
  serial_number = row.serial_number;
  protocol = to_domain_protocol row.protocol;
  firmware_version = row.firmware_version;
  status = row.status;
  connection_state = row.connection_state;
  last_seen_at = iso_or_null rt row.last_seen_at;
  credential_ref = row.credential_ref;
  created_at = rt.to_iso row.created_at;
  updated_at = rt.to_iso row.updated_at;
}

pub record DeviceInput : Type 0 where
  pub id : String
  pub tenant_id : String
  pub manufacturer : String
  pub model : String
  pub serial_number : String
  pub protocol : String
  pub firmware_version : Option String
  pub status : DeviceStatus
  pub connection_state : DeviceConnectionState
  pub last_seen_at : Option (Option ℤ)
  pub credential_ref : Option String

unfoldable pub to_prisma_device_input : Runtime → Device → DeviceInput
unfolding protocol_text
to_prisma_device_input rt device = record {
  id = device.id;
  tenant_id = device.tenant_id;
  manufacturer = device.manufacturer;
  model = device.model;
  serial_number = device.serial_number;
  protocol = protocol_text device.protocol;
  firmware_version = device.firmware_version;
  status = device.status;
  connection_state = device.connection_state;
  last_seen_at = date_or_null rt device.last_seen_at;
  credential_ref = device.credential_ref;
}

pub record AssignmentRow : Type 0 where
  pub id : String
  pub tenant_id : String
  pub device_id : String
  pub tank_id : String
  pub status : AssignmentStatus
  pub assigned_at : ℤ
  pub unassigned_at : Option ℤ
  pub created_at : ℤ
  pub updated_at : ℤ

unfoldable pub to_domain_assignment : Runtime → AssignmentRow → DeviceAssignment
to_domain_assignment rt row = record {
  id = row.id;
  tenant_id = row.tenant_id;
  device_id = row.device_id;
  tank_id = row.tank_id;
  status = row.status;
  assigned_at = rt.to_iso row.assigned_at;
  unassigned_at = iso_or_null rt row.unassigned_at;
  created_at = rt.to_iso row.created_at;
  updated_at = rt.to_iso row.updated_at;
}

pub record AssignmentInput : Type 0 where
  pub id : String
  pub tenant_id : String
  pub device_id : String
  pub tank_id : String
  pub status : AssignmentStatus
  pub assigned_at : Option ℤ
  pub unassigned_at : Option (Option ℤ)

unfoldable pub to_prisma_assignment_input : Runtime → DeviceAssignment → AssignmentInput
to_prisma_assignment_input rt assignment = record {
  id = assignment.id;
  tenant_id = assignment.tenant_id;
  device_id = assignment.device_id;
  tank_id = assignment.tank_id;
  status = assignment.status;
  assigned_at = to_date rt assignment.assigned_at;
  unassigned_at = date_or_null rt assignment.unassigned_at;
}
