-- ===== src/Domain/Device.antt =====
-- packages/core/src/domain/device.ts
use mafuta.Base.{Bool, true, false, not, String, Option, none, some}
use mafuta.Base.Int.{ℤ, ◌-ℤ◌}
use mafuta.Base.Ratio.{Ratio, of_ℕ, of_ℤ, over, lt_ratio, mul_ratio}
use mafuta.Runtime.{Runtime}

pub data DeviceProtocol : Type 0 where
  simulated http mqtt modbus_rtu modbus_tcp other : DeviceProtocol

pub data DeviceStatus : Type 0 where
  registered active maintenance retired : DeviceStatus

pub data DeviceConnectionState : Type 0 where
  online offline degraded : DeviceConnectionState

pub data AssignmentStatus : Type 0 where
  active ended : AssignmentStatus

abbrev pub is_retired : DeviceStatus → Bool
is_retired retired = true
is_retired _ = false

abbrev pub is_maintenance : DeviceStatus → Bool
is_maintenance maintenance = true
is_maintenance _ = false

abbrev pub same_device_status : DeviceStatus → DeviceStatus → Bool
same_device_status registered registered = true
same_device_status active active = true
same_device_status maintenance maintenance = true
same_device_status retired retired = true
same_device_status _ _ = false

pub record Device : Type 0 where
  pub id : String
  pub tenant_id : String
  pub manufacturer : String
  pub model : String
  pub serial_number : String
  pub protocol : DeviceProtocol
  pub firmware_version : Option String
  pub status : DeviceStatus
  pub connection_state : DeviceConnectionState
  pub last_seen_at : Option String
  pub credential_ref : Option String
  pub created_at : String
  pub updated_at : String

pub record DeviceAssignment : Type 0 where
  pub id : String
  pub tenant_id : String
  pub device_id : String
  pub tank_id : String
  pub status : AssignmentStatus
  pub assigned_at : String
  pub unassigned_at : Option String
  pub created_at : String
  pub updated_at : String

abbrev pub default_device_offline_minutes : Ratio
default_device_offline_minutes = of_ℕ 30

abbrev pub is_device_assignable : Device → Bool
is_device_assignable device = not (is_retired device.status)

abbrev is_active_assignment_status : AssignmentStatus → Bool
is_active_assignment_status active = true
is_active_assignment_status ended = false

abbrev pub is_assignment_active : DeviceAssignment → Bool
is_assignment_active assignment = is_active_assignment_status assignment.status

module _ (rt : Runtime) where
  last_seen : Device → Option ℤ
  last_seen device = elim device.last_seen_at [ none ↦ none | some at ↦ rt.date_parse at ]

  unfoldable pub is_device_offline : Device → ℤ → Ratio → Bool
  unfolding last_seen mul_ratio
  is_device_offline device now offline_after_minutes = elim (last_seen device) [
    | none ↦ true
    | some last ↦ lt_ratio (mul_ratio offline_after_minutes (of_ℕ 60000)) (of_ℤ (now -ℤ last))
  ]

  unfoldable pub minutes_since_last_seen : Device → ℤ → Option Ratio
  unfolding last_seen
  minutes_since_last_seen device now = elim (last_seen device) [
    | none ↦ none
    | some last ↦ some (over (now -ℤ last) 60000)
  ]
