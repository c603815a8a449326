-- ===== src/Services/Devices/Assigned.antt =====
-- packages/core/src/services/device-service.ts: what `assignToTank` gives.
use mafuta.Base.{
  String, Bool, true, ◌==◌, eq_iff, Option, none, some, List, [], ◌∷◌, find, ◌≡◌, sym, ◌∙◌, ap,
  subst, inl, inr, Bool-cases, arith,
}
use mafuta.Base.Dict.{get}
use mafuta.Runtime.{Runtime}
use mafuta.Effect.{ok}
use mafuta.Effect.Ok.{bind-ok, ensure-ok, require-ok, gets-ok, pure-ok}
use mafuta.Domain.Tank.{Tank, is_active_status}
use mafuta.Domain.Device.{Device, DeviceAssignment, is_device_assignable, is_assignment_active}
use mafuta.Memory.{World, scoped_key}
use mafuta.Memory.Saved.{owned-ok}
use mafuta.Memory.Devices
use mafuta.Memory.Tanks
use mafuta.Memory.Assignments
use mafuta.Services.Devices.{require_device, attach, replace_assignment, assign_to_tank}

some_injective : {A : Type 0} {a b : A} → some a ≡ some b → a ≡ b
some_injective e = cc

find-passes : {A : Type 0} (p : A → Bool) (xs : List A) (a : A) → find p xs ≡ some a → p a ≡ true
find-passes p [] a e = cc
find-passes p (x ∷ xs) a e = elim (Bool-cases (p x)) [
  | inl hit ↦ subst (λ y. p y ≡ true) (some_injective (rw hit at e)) hit
  | inr miss ↦ find-passes p xs a (rw miss at e)
]

module _ (rt : Runtime) (t device_id tank_id : String) where
  -- The assignment is an active one of the device to the tank.
  abbrev pub IsAssigned : DeviceAssignment → Type 0
  IsAssigned a = (a.device_id ≡ device_id) × (a.tank_id ≡ tank_id) × (is_assignment_active a ≡ true)

  attach-IsAssigned :
      (at : String) (w v : World) (a : DeviceAssignment)
      → attach rt t device_id tank_id at w ≡ (ok a, v)
      → IsAssigned a
  unfolding attach Assignments.save
  attach-IsAssigned at w v a e =
      let (id, w₁, e₁, f₁) = bind-ok _ _ w v a e in
      let (mine, same, state) = owned-ok _ t _ _ _ a w₁ v f₁ in
      (ap (λ x. x.device_id) same, ap (λ x. x.tank_id) same, ap is_assignment_active same)

  found-IsAssigned :
      (w u : World) (current : DeviceAssignment)
      → Assignments.find_active_by_device rt t device_id w ≡ (ok (some current), u)
      → (current.device_id ≡ device_id) × (is_assignment_active current ≡ true)
  unfolding Assignments.find_active_by_device
  found-IsAssigned w u current e =
      let passes =
        find-passes _ (Assignments.tenant_assignments rt t w) current (gets-ok _ _ w u e).0 in
      (ground (arith, passes, eq_iff current.device_id device_id), ground (arith, passes))

  require_device-ok :
      (w v : World) (device : Device)
      → require_device t device_id w ≡ (ok device, v)
      → (get (scoped_key t device_id) w.store.devices ≡ some device) × (w ≡ v)
  unfolding require_device Devices.find_by_id
  require_device-ok w v device e =
      let (found, u, read, rest) = bind-ok _ _ w v device e in
      let (here, same) = gets-ok _ found w u read in
      let (present, last) = require-ok found _ u v device rest in (here ∙ present, same ∙ last)

  tank_found :
      (w v : World) (found : Option Tank)
      → Tanks.find_by_id t tank_id w ≡ (ok found, v)
      → (get (scoped_key t tank_id) w.store.tanks ≡ found) × (w ≡ v)
  unfolding Tanks.find_by_id
  tank_found w v found e = gets-ok _ found w v e

  replace_assignment-IsAssigned :
      (at : String) (current : Option DeviceAssignment) (w u v : World) (a : DeviceAssignment)
      → Assignments.find_active_by_device rt t device_id w ≡ (ok current, u)
      → replace_assignment rt t device_id tank_id at current u ≡ (ok a, v)
      → IsAssigned a
  unfolding replace_assignment
  replace_assignment-IsAssigned at none w u v a found e = attach-IsAssigned at u v a e
  replace_assignment-IsAssigned at (some current) w u v a found e =
      elim (Bool-cases (current.tank_id == tank_id)) [
        | inl same ↦
            let (of_device, active) = found-IsAssigned w u current found in
            let kept = (pure-ok current a u v (rw (replace_assignment, same) at e)).0 in
            subst IsAssigned kept (of_device, (eq_iff _ _).0 same, active)
        | inr other ↦
            let (ended, u', e', f) = bind-ok _ _ u v a (rw (replace_assignment, other) at e) in
            attach-IsAssigned at u' v a f
      ]

  -- An assignment of a device to a tank that returns gives an active assignment of that device to
  -- that tank, and found the device registered and not retired and the tank active.
  pub assign_to_tank-IsAssigned :
      (w v : World) (a : DeviceAssignment)
      → assign_to_tank rt t device_id tank_id w ≡ (ok a, v)
      → IsAssigned a
        × (device : Device) × (tank : Tank) × (is_device_assignable device ≡ true)
        × (is_active_status tank.status ≡ true)
        × (get (scoped_key t device_id) w.store.devices ≡ some device)
        × (get (scoped_key t tank_id) w.store.tanks ≡ some tank)
  unfolding assign_to_tank
  assign_to_tank-IsAssigned w v a e =
      let (device, w₁, e₁, f₁) = bind-ok _ _ w v a e in
      let (u₂, w₂, e₂, f₂) = bind-ok _ _ w₁ v a f₁ in
      let (found, w₃, e₃, f₃) = bind-ok _ _ w₂ v a f₂ in
      let (tank, w₄, e₄, f₄) = bind-ok _ _ w₃ v a f₃ in
      let (u₅, w₅, e₅, f₅) = bind-ok _ _ w₄ v a f₄ in
      let (at, w₆, e₆, f₆) = bind-ok _ _ w₅ v a f₅ in
      let (current, w₇, e₇, f₇) = bind-ok _ _ w₆ v a f₆ in
      let (here, same₁) = require_device-ok w w₁ device e₁ in
      let (can, same₂) = ensure-ok _ _ w₁ w₂ u₂ e₂ in
      let (listed, same₃) = tank_found w₂ w₃ found e₃ in
      (
        replace_assignment-IsAssigned (rt.to_iso at) current w₆ w₇ v a e₇ f₇,
        device,
        tank,
        can,
        (ensure-ok _ _ w₄ w₅ u₅ e₅).0,
        here,
        subst (λ z. get (scoped_key t tank_id) z.store.tanks ≡ some tank) (sym (same₁ ∙ same₂))
            (listed ∙ (require-ok found _ w₃ w₄ tank e₄).0),
      )
