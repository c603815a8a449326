-- ===== src/Services/Calls/Keyed.antt =====
-- packages/core/src/adapters/memory/memory-store.ts: the keys of the store under any calls.
use mafuta.Base.{String, none, some, List, [], ◌∷◌, ◌≡◌, refl, sym, ap, subst, eq_refl, arith}
use mafuta.Base.Dict.{Dict, get, set, get-set, Entries, set-Entries, get-Entries, Entries-map}
use mafuta.Runtime.{Runtime}
use mafuta.Domain.Station.{Station}
use mafuta.Domain.Tank.{Tank}
use mafuta.Domain.Reading.{TankReading}
use mafuta.Domain.Alert.{Alert}
use mafuta.Domain.Device.{Device, DeviceAssignment}
use mafuta.Domain.Event.{FuelEvent}
use mafuta.Domain.Delivery.{Delivery}
use mafuta.Memory.{World, MemoryStore, RawMessageRecord, scoped_key}
use mafuta.Memory.Stations
use mafuta.Memory.Tanks
use mafuta.Memory.Readings
use mafuta.Memory.Alerts
use mafuta.Memory.Devices
use mafuta.Memory.Assignments
use mafuta.Memory.Events
use mafuta.Memory.Deliveries
use mafuta.Memory.RawMessages
use mafuta.Services.Writes.Puts.{Puts, Puts-Admits}
use mafuta.Services.Rules.{IngestConfig}
use mafuta.Services.Ledger.{get-set_some}
use mafuta.Services.Calls.{Call, perform, run}
use mafuta.Services.Calls.Moves.{perform-Moves}

-- Each key is that of the tenant and the id of what stands under it.
abbrev pub Keyed : {E : Type 0} → (E → String) → (E → String) → Dict E → Type 0
Keyed tenant_of id_of m = Entries (λ k e. k ≡ scoped_key (tenant_of e) (id_of e)) m

-- Each idempotency key leads to a stored reading.
abbrev pub Stored : Dict TankReading → Dict String → Type 0
Stored readings index = Entries (λ k id. ¬ (get id readings ≡ none)) index

unfoldable pub IsKeyed : MemoryStore → Type 0
IsKeyed s =
    Keyed {E = Station} (λ x. x.tenant_id) (λ x. x.id) s.stations
    × Keyed {E = Tank} (λ x. x.tenant_id) (λ x. x.id) s.tanks
    × Keyed {E = TankReading} (λ x. x.tenant_id) (λ x. x.id) s.readings
    × Keyed {E = Alert} (λ x. x.tenant_id) (λ x. x.id) s.alerts
    × Keyed {E = Device} (λ x. x.tenant_id) (λ x. x.id) s.devices
    × Keyed {E = DeviceAssignment} (λ x. x.tenant_id) (λ x. x.id) s.assignments
    × Keyed {E = FuelEvent} (λ x. x.tenant_id) (λ x. x.id) s.events
    × Keyed {E = Delivery} (λ x. x.tenant_id) (λ x. x.id) s.deliveries
    × Keyed {E = RawMessageRecord} (λ x. x.tenant_id) (λ x. x.id) s.raw_messages
    × Stored s.readings s.reading_idempotency

module _ {E : Type 0} (tenant_of id_of : E → String) where
  Keyed-set :
      (t : String) (x : E) (m : Dict E)
      → tenant_of x ≡ t
      → Keyed tenant_of id_of m
      → Keyed tenant_of id_of (set (scoped_key t (id_of x)) x m)
  Keyed-set t x m same h = set-Entries _ _ x m (ap (λ s. scoped_key s (id_of x)) (sym same)) h

  -- A change of an entity found under a key that keeps its tenant and id.
  Keyed-change :
      (k : String) (x y : E) (m : Dict E)
      → tenant_of y ≡ tenant_of x
      → id_of y ≡ id_of x
      → get k m ≡ some x
      → Keyed tenant_of id_of m
      → Keyed tenant_of id_of (set k y m)
  Keyed-change k x y m same_tenant same_id found h =
      let at_x = get-Entries (λ k e. k ≡ scoped_key (tenant_of e) (id_of e)) k x m h found in
      set-Entries _ k y m (rw (same_tenant, same_id) at_x) h

get-set_not_none : {E : Type 0} (k : String) (x : E) (m : Dict E) → ¬ (get k (set k x m) ≡ none)
get-set_not_none k x m missing = ground (arith, get-set k k x m, eq_refl k)

Stored-put :
    (k id : String) (x : TankReading) (readings : Dict TankReading) (index : Dict String)
    → Stored readings index
    → Stored (set id x readings) (set k id index)
Stored-put k id x readings index h =
    set-Entries _ k id index (get-set_not_none id x readings)
      (Entries-map _ _ index (λ j i. get-set_some id i x readings) h)

module _ (rt : Runtime) (t : String) where
  pub IsKeyed-Puts : Puts rt t (λ w v. IsKeyed w.store → IsKeyed v.store)
  unfolding IsKeyed Devices.put_at Assignments.put_at Devices.touch_device
      Assignments.end_assignment Stations.put Tanks.put Readings.put Alerts.put Devices.put
      Assignments.put Events.put Deliveries.put RawMessages.put
  IsKeyed-Puts = record {
    composes = record { stay = λ w h. h; follow = λ w v u f g h. g (f h) };
    counts = λ w v e le h. subst IsKeyed (sym e) h;
    stations_put = λ x w same h. (
      Keyed-set (λ x. x.tenant_id) (λ x. x.id) t x w.store.stations same h.0,
      h.1,
      h.2,
      h.3,
      h.4,
      h.5,
      h.6,
      h.7,
      h.8,
      h.9,
    );
    tanks_put = λ x w same h. (
      h.0,
      Keyed-set (λ x. x.tenant_id) (λ x. x.id) t x w.store.tanks same h.1,
      h.2,
      h.3,
      h.4,
      h.5,
      h.6,
      h.7,
      h.8,
      h.9,
    );
    readings_put = λ x w same drawn h. (
      h.0,
      h.1,
      Keyed-set (λ x. x.tenant_id) (λ x. x.id) t x w.store.readings same h.2,
      h.3,
      h.4,
      h.5,
      h.6,
      h.7,
      h.8,
      Stored-put _ _ x w.store.readings w.store.reading_idempotency h.9,
    );
    alerts_put = λ x w same h. (
      h.0,
      h.1,
      h.2,
      Keyed-set (λ x. x.tenant_id) (λ x. x.id) t x w.store.alerts same h.3,
      h.4,
      h.5,
      h.6,
      h.7,
      h.8,
      h.9,
    );
    devices_put = λ x w same h. (
      h.0,
      h.1,
      h.2,
      h.3,
      Keyed-set (λ x. x.tenant_id) (λ x. x.id) t x w.store.devices same h.4,
      h.5,
      h.6,
      h.7,
      h.8,
      h.9,
    );
    assignments_put = λ x w same h. (
      h.0,
      h.1,
      h.2,
      h.3,
      h.4,
      Keyed-set (λ x. x.tenant_id) (λ x. x.id) t x w.store.assignments same h.5,
      h.6,
      h.7,
      h.8,
      h.9,
    );
    events_put = λ x w same h. (
      h.0,
      h.1,
      h.2,
      h.3,
      h.4,
      h.5,
      Keyed-set (λ x. x.tenant_id) (λ x. x.id) t x w.store.events same h.6,
      h.7,
      h.8,
      h.9,
    );
    deliveries_put = λ x w same h. (
      h.0,
      h.1,
      h.2,
      h.3,
      h.4,
      h.5,
      h.6,
      Keyed-set (λ x. x.tenant_id) (λ x. x.id) t x w.store.deliveries same h.7,
      h.8,
      h.9,
    );
    raw_messages_put = λ x w same h. (
      h.0,
      h.1,
      h.2,
      h.3,
      h.4,
      h.5,
      h.6,
      h.7,
      Keyed-set (λ x. x.tenant_id) (λ x. x.id) t x w.store.raw_messages same h.8,
      h.9,
    );
    devices_put_at = λ id at state d w found h. (
      h.0,
      h.1,
      h.2,
      h.3,
      Keyed-change (λ x. x.tenant_id) (λ x. x.id) _ d _ w.store.devices refl refl found h.4,
      h.5,
      h.6,
      h.7,
      h.8,
      h.9,
    );
    assignments_put_at = λ id at d w found h. (
      h.0,
      h.1,
      h.2,
      h.3,
      h.4,
      Keyed-change (λ x. x.tenant_id) (λ x. x.id) _ d _ w.store.assignments refl refl found h.5,
      h.6,
      h.7,
      h.8,
      h.9,
    );
  }

module _ (rt : Runtime) (config : IngestConfig) where
  pub perform-IsKeyed :
      (t : String) (call : Call) (w : World)
      → IsKeyed w.store
      → IsKeyed (perform rt config t call w).store
  perform-IsKeyed t = perform-Moves rt config t _ (Puts-Admits rt t _ (IsKeyed-Puts rt t))

  -- If every entity of the store stands under the key of its own tenant and id, and every
  -- idempotency key leads to a stored reading, then so it is after any sequence of calls by any
  -- tenants.
  pub run-IsKeyed :
      (calls : List (String × Call)) (w : World)
      → IsKeyed w.store
      → IsKeyed (run rt config calls w).store
  unfolding run
  run-IsKeyed [] w h = h
  run-IsKeyed ((t, call) ∷ rest) w h = run-IsKeyed rest _ (perform-IsKeyed t call w h)
