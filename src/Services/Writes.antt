-- ===== src/Services/Writes.antt =====
-- packages/core/src/adapters/memory: the writes of one tenant's repositories, as rules for a relation
-- between states.
pub mod Puts
use mafuta.Base.{String, ◌≡◌}
use mafuta.Runtime.{Runtime}
use mafuta.Effect.{◌>>=◌}
use mafuta.Effect.Moves.{Composes, Moves}
use mafuta.Domain.Station.{Station}
use mafuta.Domain.Tank.{Tank}
use mafuta.Domain.Reading.{TankReading}
use mafuta.Domain.Alert.{Alert}
use mafuta.Domain.Device.{Device, DeviceAssignment, DeviceConnectionState}
use mafuta.Domain.Event.{FuelEvent}
use mafuta.Domain.Delivery.{Delivery}
use mafuta.Memory.{World, RawMessageRecord, now, new_id}
use mafuta.Memory.Stations
use mafuta.Memory.Tanks
use mafuta.Memory.Readings
use mafuta.Memory.Alerts
use mafuta.Memory.Devices
use mafuta.Memory.Assignments
use mafuta.Memory.Events
use mafuta.Memory.Deliveries
use mafuta.Memory.RawMessages

pub record Admits (rt : Runtime) (t : String) (R : World → World → Type 0) : Type 0 where
  pub composes : Composes R
  pub now_moves : Moves R (now rt)
  pub new_id_moves : (prefix : String) → Moves R (new_id rt prefix)
  pub stations_save : (x : Station) → Moves R (Stations.save t x)
  pub tanks_save : (x : Tank) → Moves R (Tanks.save t x)
  -- A reading is appended under the id that was drawn for it.
  pub readings_append :
      (make : String → TankReading)
      → ((id : String) → (make id).id ≡ id)
      → Moves R (new_id rt "rdg" >>= λ id. Readings.append t (make id))
  pub alerts_save : (x : Alert) → Moves R (Alerts.save t x)
  pub alerts_update : (x : Alert) → Moves R (Alerts.update t x)
  pub devices_save : (x : Device) → Moves R (Devices.save t x)
  pub devices_touch :
      (id at : String) (state : DeviceConnectionState) → Moves R (Devices.touch t id at state)
  pub assignments_save : (x : DeviceAssignment) → Moves R (Assignments.save t x)
  pub assignments_end : (id at : String) → Moves R (Assignments.end_at t id at)
  pub events_save : (x : FuelEvent) → Moves R (Events.save t x)
  pub events_update : (x : FuelEvent) → Moves R (Events.update t x)
  pub deliveries_save : (x : Delivery) → Moves R (Deliveries.save t x)
  pub raw_messages_save : (x : RawMessageRecord) → Moves R (RawMessages.save t x)
