-- ===== src/Memory/Assignments.antt =====
-- packages/core/src/adapters/memory/memory-device-repositories.ts: assignments.
use mafuta.Base.{String, Option, some, ◌&&◌, List, [], ◌∷◌, ◌==◌, filter, find}
use mafuta.Base.Dict.{get, set, values}
use mafuta.Base.Sort.{sort}
use mafuta.Runtime.{Runtime}
use mafuta.Errors.{other}
use mafuta.Effect.{Action, pure, gets, modify, require, ◌>>=◌, ◌>>◌}
use mafuta.Tenancy.Guard.{assert_owned_by_tenant}
use mafuta.Memory.{World, scoped_key, newest_first}
use mafuta.Base.{template}
use mafuta.Domain.Device.{DeviceAssignment, ended, is_assignment_active}

unfoldable pub put : String → DeviceAssignment → World → World
put tenant_id entity w = record w {
  store = record (w.store) {
    assignments = set (scoped_key tenant_id entity.id) entity w.store.assignments;
  };
}

unfoldable pub save : String → DeviceAssignment → Action World DeviceAssignment
save tenant_id entity = do
  assert_owned_by_tenant tenant_id entity.tenant_id "assignments.save"
  modify (put tenant_id entity)
  pure entity

unfoldable pub find_by_id : String → String → Action World (Option DeviceAssignment)
find_by_id tenant_id id = gets (λ w. get (scoped_key tenant_id id) w.store.assignments)

unfoldable pub tenant_assignments : Runtime → String → World → List DeviceAssignment
tenant_assignments rt tenant_id w =
    sort (newest_first rt (λ a. a.assigned_at))
      (filter (λ a. a.tenant_id == tenant_id) (values w.store.assignments))

unfoldable pub find_active_by_device :
    Runtime → String → String → Action World (Option DeviceAssignment)
find_active_by_device rt tenant_id device_id = gets (λ w.
    find (λ a. a.device_id == device_id && is_assignment_active a)
      (tenant_assignments rt tenant_id w))

unfoldable pub list_active_by_tank :
    Runtime → String → String → Action World (List DeviceAssignment)
list_active_by_tank rt tenant_id tank_id = gets (λ w.
    filter (λ a. a.tank_id == tank_id && is_assignment_active a)
      (tenant_assignments rt tenant_id w))

unfoldable pub list_by_device : Runtime → String → String → Action World (List DeviceAssignment)
list_by_device rt tenant_id device_id =
    gets (λ w. filter (λ a. a.device_id == device_id) (tenant_assignments rt tenant_id w))

unfoldable pub end_assignment : DeviceAssignment → String → DeviceAssignment
end_assignment existing ended_at = record existing {
  status = ended;
  unassigned_at = some ended_at;
  updated_at = ended_at;
}

-- The write goes to the key that was read.
unfoldable pub put_at : String → String → DeviceAssignment → World → World
put_at tenant_id id updated w = record w {
  store = record (w.store) {
    assignments = set (scoped_key tenant_id id) updated w.store.assignments;
  };
}

unfoldable pub end_at : String → String → String → Action World DeviceAssignment
end_at tenant_id id ended_at = do
  found ← find_by_id tenant_id id
  existing ← require found (other (template ("Assignment " ∷ id ∷ " does not exist" ∷ [])))
  modify (put_at tenant_id id (end_assignment existing ended_at))
  pure (end_assignment existing ended_at)
