-- ===== src/Services/Writes/Puts.antt =====
-- packages/core/src/adapters/memory: the writes of the repositories behind their guards.
use mafuta.Base.{
  ℕ, suc, ◌≤◌, [], ◌∷◌, template, arith, Bool-cases, ◌==◌, String, Option, none, some, ◌≡◌, refl,
  eq_iff, inl, inr, Option-cases,
}
use mafuta.Base.Dict.{get}
use mafuta.Runtime.{Runtime}
use mafuta.Effect.{pure, modify, ◌>>=◌, ◌>>◌}
use mafuta.Effect.Moves.{
  Composes, Moves, Moves-bind, Moves-bind_ensure, Moves-modify, Moves-pure, Moves-gets,
}
use mafuta.Tenancy.Guard.{assert_owned_by_tenant}
use mafuta.Domain.Station.{Station}
use mafuta.Domain.Tank.{Tank}
use mafuta.Domain.Reading.{TankReading}
use mafuta.Domain.Alert.{Alert}
use mafuta.Domain.Device.{Device, DeviceAssignment, DeviceConnectionState}
use mafuta.Domain.Event.{FuelEvent}
use mafuta.Domain.Delivery.{Delivery}
use mafuta.Memory.{World, RawMessageRecord, now, new_id, scoped_key}
use mafuta.Memory.Stations
use mafuta.Memory.Tanks
use mafuta.Memory.Readings
use mafuta.Memory.Alerts
use mafuta.Memory.Devices
use mafuta.Memory.Assignments
use mafuta.Memory.Events
use mafuta.Memory.Deliveries
use mafuta.Memory.RawMessages
use mafuta.Services.Writes.{Admits}

-- The id of the reading that is recorded when the n-th random identifier is drawn for it.
abbrev pub reading_id : Runtime → ℕ → String
reading_id rt n = template ("rdg" ∷ "-" ∷ rt.uuid n ∷ [])

abbrev pub draw : World → World
draw w = record w { uuid_draws = suc w.uuid_draws }

pub record Puts (rt : Runtime) (t : String) (R : World → World → Type 0) : Type 0 where
  pub composes : Composes R
  pub counts : (w v : World) → v.store ≡ w.store → w.uuid_draws ≤ v.uuid_draws → R w v
  pub stations_put : (x : Station) (w : World) → x.tenant_id ≡ t → R w (Stations.put t x w)
  pub tanks_put : (x : Tank) (w : World) → x.tenant_id ≡ t → R w (Tanks.put t x w)
  pub readings_put :
      (x : TankReading) (w : World)
      → x.tenant_id ≡ t
      → x.id ≡ reading_id rt w.uuid_draws
      → R w (Readings.put t x (draw w))
  pub alerts_put : (x : Alert) (w : World) → x.tenant_id ≡ t → R w (Alerts.put t x w)
  pub devices_put : (x : Device) (w : World) → x.tenant_id ≡ t → R w (Devices.put t x w)
  pub assignments_put :
      (x : DeviceAssignment) (w : World) → x.tenant_id ≡ t → R w (Assignments.put t x w)
  pub events_put : (x : FuelEvent) (w : World) → x.tenant_id ≡ t → R w (Events.put t x w)
  pub deliveries_put : (x : Delivery) (w : World) → x.tenant_id ≡ t → R w (Deliveries.put t x w)
  pub raw_messages_put :
      (x : RawMessageRecord) (w : World) → x.tenant_id ≡ t → R w (RawMessages.put t x w)
  pub devices_put_at :
      (id at : String) (state : DeviceConnectionState) (d : Device) (w : World)
      → get (scoped_key t id) w.store.devices ≡ some d
      → R w (Devices.put_at t id (Devices.touch_device d at state) w)
  pub assignments_put_at :
      (id at : String) (d : DeviceAssignment) (w : World)
      → get (scoped_key t id) w.store.assignments ≡ some d
      → R w (Assignments.put_at t id (Assignments.end_assignment d at) w)

module _ (rt : Runtime) (t : String) (R : World → World → Type 0) (p : Puts rt t R) where
  owned-Moves :
      {A : Type 0} (owner op : String) (f : World → World) (x : A)
      → (owner ≡ t → (w : World) → R w (f w))
      → Moves R (assert_owned_by_tenant t owner op >> (modify f >> pure x))
  unfolding assert_owned_by_tenant
  owned-Moves owner op f x h = Moves-bind_ensure p.composes _ _ _ λ same.
      Moves-bind p.composes _ _ (Moves-modify p.composes f (h ((eq_iff owner t).0 same)))
        λ u. Moves-pure p.composes x

  now-Moves : Moves R (now rt)
  unfolding now
  now-Moves = record { at = λ w. p.counts w _ refl (omega arith) }

  new_id-Moves : (prefix : String) → Moves R (new_id rt prefix)
  unfolding new_id
  new_id-Moves prefix = record { at = λ w. p.counts w _ refl (omega arith) }

  stations_save-Moves : (x : Station) → Moves R (Stations.save t x)
  unfolding Stations.save
  stations_save-Moves x = owned-Moves x.tenant_id _ _ x λ same w. p.stations_put x w same

  tanks_save-Moves : (x : Tank) → Moves R (Tanks.save t x)
  unfolding Tanks.save
  tanks_save-Moves x = owned-Moves x.tenant_id _ _ x λ same w. p.tanks_put x w same

  readings_append-Moves :
      (make : String → TankReading)
      → ((id : String) → (make id).id ≡ id)
      → Moves R (new_id rt "rdg" >>= λ id. Readings.append t (make id))
  unfolding Readings.append new_id assert_owned_by_tenant ◌>>=◌
  readings_append-Moves make named = record {
    at = λ w.
        let reading = make (reading_id rt w.uuid_draws) in
        elim (Bool-cases (reading.tenant_id == t)) [
          | inl mine ↦
              rw mine (p.readings_put reading w ((eq_iff reading.tenant_id t).0 mine) (named _))
          | inr foreign ↦ rw foreign (p.counts w (draw w) refl (omega arith))
        ];
  }

  alerts_save-Moves : (x : Alert) → Moves R (Alerts.save t x)
  unfolding Alerts.save
  alerts_save-Moves x = owned-Moves x.tenant_id _ _ x λ same w. p.alerts_put x w same

  alerts_update-Moves : (x : Alert) → Moves R (Alerts.update t x)
  unfolding Alerts.update
  alerts_update-Moves x = owned-Moves x.tenant_id _ _ x λ same w. p.alerts_put x w same

  devices_save-Moves : (x : Device) → Moves R (Devices.save t x)
  unfolding Devices.save
  devices_save-Moves x = owned-Moves x.tenant_id _ _ x λ same w. p.devices_put x w same

  assignments_save-Moves : (x : DeviceAssignment) → Moves R (Assignments.save t x)
  unfolding Assignments.save
  assignments_save-Moves x = owned-Moves x.tenant_id _ _ x λ same w. p.assignments_put x w same

  events_save-Moves : (x : FuelEvent) → Moves R (Events.save t x)
  unfolding Events.save
  events_save-Moves x = owned-Moves x.tenant_id _ _ x λ same w. p.events_put x w same

  events_update-Moves : (x : FuelEvent) → Moves R (Events.update t x)
  unfolding Events.update
  events_update-Moves x = owned-Moves x.tenant_id _ _ x λ same w. p.events_put x w same

  deliveries_save-Moves : (x : Delivery) → Moves R (Deliveries.save t x)
  unfolding Deliveries.save
  deliveries_save-Moves x = owned-Moves x.tenant_id _ _ x λ same w. p.deliveries_put x w same

  keep_or_put-Moves :
      (x : RawMessageRecord) (kept : Option RawMessageRecord)
      → x.tenant_id ≡ t
      → Moves R (RawMessages.keep_or_put t x kept)
  unfolding RawMessages.keep_or_put
  keep_or_put-Moves x (some kept) same = Moves-pure p.composes _
  keep_or_put-Moves x none same =
      Moves-bind p.composes _ _ (Moves-modify p.composes _ λ w. p.raw_messages_put x w same)
        λ u. Moves-pure p.composes x

  raw_messages_save-Moves : (x : RawMessageRecord) → Moves R (RawMessages.save t x)
  unfolding RawMessages.save RawMessages.find_by_hash assert_owned_by_tenant
  raw_messages_save-Moves x = Moves-bind_ensure p.composes _ _ _ λ same.
      Moves-bind p.composes _ _ (Moves-gets p.composes _)
        λ kept. keep_or_put-Moves x kept ((eq_iff x.tenant_id t).0 same)

  devices_touch-Moves :
      (id at : String) (state : DeviceConnectionState) → Moves R (Devices.touch t id at state)
  unfolding Devices.touch
  devices_touch-Moves id at state = Moves-modify p.composes _ λ w.
      elim (Option-cases (get (scoped_key t id) w.store.devices)) [
        | inl missing ↦ rw missing (p.composes.stay w)
        | inr (d, found) ↦ rw found (p.devices_put_at id at state d w found)
      ]

  assignments_end-Moves : (id at : String) → Moves R (Assignments.end_at t id at)
  unfolding Assignments.end_at Assignments.find_by_id ◌>>=◌
  assignments_end-Moves id at = record {
    at = λ w. elim (Option-cases (get (scoped_key t id) w.store.assignments)) [
      | inl missing ↦ rw missing (p.composes.stay w)
      | inr (d, found) ↦ rw found (p.assignments_put_at id at d w found)
    ];
  }

  pub Puts-Admits : Admits rt t R
  Puts-Admits = record {
    composes = p.composes;
    now_moves = now-Moves;
    new_id_moves = new_id-Moves;
    stations_save = stations_save-Moves;
    tanks_save = tanks_save-Moves;
    readings_append = readings_append-Moves;
    alerts_save = alerts_save-Moves;
    alerts_update = alerts_update-Moves;
    devices_save = devices_save-Moves;
    devices_touch = devices_touch-Moves;
    assignments_save = assignments_save-Moves;
    assignments_end = assignments_end-Moves;
    events_save = events_save-Moves;
    events_update = events_update-Moves;
    deliveries_save = deliveries_save-Moves;
    raw_messages_save = raw_messages_save-Moves;
  }
