-- ===== src/Services/Calls/Isolated.antt =====
-- packages/core/src/services: what the calls of one tenant may do to another.
use mafuta.Base.{String, List, [], ◌∷◌, refl, sym, subst, All}
use mafuta.Runtime.{Runtime}
use mafuta.Memory.{World, scoped_key}
use mafuta.Memory.Keys.{Apart}
use mafuta.Memory.Stations
use mafuta.Memory.Tanks
use mafuta.Memory.Readings
use mafuta.Memory.Alerts
use mafuta.Memory.Devices
use mafuta.Memory.Assignments
use mafuta.Memory.Events
use mafuta.Memory.Deliveries
use mafuta.Memory.RawMessages
use mafuta.Services.Writes.Puts.{Puts, Puts-Admits}
use mafuta.Services.Rules.{IngestConfig}
use mafuta.Services.Calls.{Call, perform, run}
use mafuta.Services.Calls.Moves.{perform-Moves}
use mafuta.Services.Calls.Keyed.{IsKeyed, IsKeyed-Puts}
use mafuta.Services.Calls.Untouched.{
  Untouched, Untouched-refl, Untouched-trans, get-set_other, Same-put, Same-change,
}

module _ (rt : Runtime) (t u : String) (apart : Apart t u) where
  -- With the invariant, which the next write relies on.
  abbrev Isolates : World → World → Type 0
  Isolates w v = IsKeyed w.store → IsKeyed v.store × Untouched u w.store v.store

  Isolates-Puts : Puts rt t Isolates
  unfolding Untouched IsKeyed Devices.put_at Assignments.put_at Devices.touch_device
      Assignments.end_assignment Stations.put Tanks.put Readings.put Alerts.put Devices.put
      Assignments.put Events.put Deliveries.put RawMessages.put
  Isolates-Puts =
      let keyed = IsKeyed-Puts rt t in
      record {
        composes = record {
          stay = λ w h. (h, Untouched-refl u w.store);
          follow = λ w v z f g h.
              let (k, first) = f h in
              let (l, second) = g k in (l, Untouched-trans u w.store v.store z.store first second);
        };
        counts = λ w v e le h. (
          keyed.counts w v e le h,
          subst (Untouched u w.store) (sym e) (Untouched-refl u w.store),
        );
        stations_put = λ x w same h. (
          keyed.stations_put x w same h,
          (
            Same-put t u apart (λ x. x.tenant_id) (λ x. x.id) x w.store.stations same h.0,
            (refl, λ id. refl),
            (refl, λ id. refl),
            (refl, λ id. refl),
            (refl, λ id. refl),
            (refl, λ id. refl),
            (refl, λ id. refl),
            (refl, λ id. refl),
            (refl, λ id. refl),
            λ key. refl,
          ),
        );
        tanks_put = λ x w same h. (
          keyed.tanks_put x w same h,
          (
            (refl, λ id. refl),
            Same-put t u apart (λ x. x.tenant_id) (λ x. x.id) x w.store.tanks same h.1,
            (refl, λ id. refl),
            (refl, λ id. refl),
            (refl, λ id. refl),
            (refl, λ id. refl),
            (refl, λ id. refl),
            (refl, λ id. refl),
            (refl, λ id. refl),
            λ key. refl,
          ),
        );
        readings_put = λ x w same drawn h. (
          keyed.readings_put x w same drawn h,
          (
            (refl, λ id. refl),
            (refl, λ id. refl),
            Same-put t u apart (λ x. x.tenant_id) (λ x. x.id) x w.store.readings same h.2,
            (refl, λ id. refl),
            (refl, λ id. refl),
            (refl, λ id. refl),
            (refl, λ id. refl),
            (refl, λ id. refl),
            (refl, λ id. refl),
            λ key.
                get-set_other t u apart x.idempotency_key key (scoped_key t x.id)
                  w.store.reading_idempotency,
          ),
        );
        alerts_put = λ x w same h. (
          keyed.alerts_put x w same h,
          (
            (refl, λ id. refl),
            (refl, λ id. refl),
            (refl, λ id. refl),
            Same-put t u apart (λ x. x.tenant_id) (λ x. x.id) x w.store.alerts same h.3,
            (refl, λ id. refl),
            (refl, λ id. refl),
            (refl, λ id. refl),
            (refl, λ id. refl),
            (refl, λ id. refl),
            λ key. refl,
          ),
        );
        devices_put = λ x w same h. (
          keyed.devices_put x w same h,
          (
            (refl, λ id. refl),
            (refl, λ id. refl),
            (refl, λ id. refl),
            (refl, λ id. refl),
            Same-put t u apart (λ x. x.tenant_id) (λ x. x.id) x w.store.devices same h.4,
            (refl, λ id. refl),
            (refl, λ id. refl),
            (refl, λ id. refl),
            (refl, λ id. refl),
            λ key. refl,
          ),
        );
        assignments_put = λ x w same h. (
          keyed.assignments_put x w same h,
          (
            (refl, λ id. refl),
            (refl, λ id. refl),
            (refl, λ id. refl),
            (refl, λ id. refl),
            (refl, λ id. refl),
            Same-put t u apart (λ x. x.tenant_id) (λ x. x.id) x w.store.assignments same h.5,
            (refl, λ id. refl),
            (refl, λ id. refl),
            (refl, λ id. refl),
            λ key. refl,
          ),
        );
        events_put = λ x w same h. (
          keyed.events_put x w same h,
          (
            (refl, λ id. refl),
            (refl, λ id. refl),
            (refl, λ id. refl),
            (refl, λ id. refl),
            (refl, λ id. refl),
            (refl, λ id. refl),
            Same-put t u apart (λ x. x.tenant_id) (λ x. x.id) x w.store.events same h.6,
            (refl, λ id. refl),
            (refl, λ id. refl),
            λ key. refl,
          ),
        );
        deliveries_put = λ x w same h. (
          keyed.deliveries_put x w same h,
          (
            (refl, λ id. refl),
            (refl, λ id. refl),
            (refl, λ id. refl),
            (refl, λ id. refl),
            (refl, λ id. refl),
            (refl, λ id. refl),
            (refl, λ id. refl),
            Same-put t u apart (λ x. x.tenant_id) (λ x. x.id) x w.store.deliveries same h.7,
            (refl, λ id. refl),
            λ key. refl,
          ),
        );
        raw_messages_put = λ x w same h. (
          keyed.raw_messages_put x w same h,
          (
            (refl, λ id. refl),
            (refl, λ id. refl),
            (refl, λ id. refl),
            (refl, λ id. refl),
            (refl, λ id. refl),
            (refl, λ id. refl),
            (refl, λ id. refl),
            (refl, λ id. refl),
            Same-put t u apart (λ x. x.tenant_id) (λ x. x.id) x w.store.raw_messages same h.8,
            λ key. refl,
          ),
        );
        devices_put_at = λ id at state d w found h. (
          keyed.devices_put_at id at state d w found h,
          (
            (refl, λ id. refl),
            (refl, λ id. refl),
            (refl, λ id. refl),
            (refl, λ id. refl),
            Same-change t u apart (λ x. x.tenant_id) (λ x. x.id) id d _ w.store.devices refl found
                h.4,
            (refl, λ id. refl),
            (refl, λ id. refl),
            (refl, λ id. refl),
            (refl, λ id. refl),
            λ key. refl,
          ),
        );
        assignments_put_at = λ id at d w found h. (
          keyed.assignments_put_at id at d w found h,
          (
            (refl, λ id. refl),
            (refl, λ id. refl),
            (refl, λ id. refl),
            (refl, λ id. refl),
            (refl, λ id. refl),
            Same-change t u apart (λ x. x.tenant_id) (λ x. x.id) id d _ w.store.assignments refl
                found h.5,
            (refl, λ id. refl),
            (refl, λ id. refl),
            (refl, λ id. refl),
            λ key. refl,
          ),
        );
      }

module _ (rt : Runtime) (config : IngestConfig) (u : String) where
  pub perform-Untouched :
      (t : String) (call : Call) (w : World)
      → Apart t u
      → IsKeyed w.store
      → IsKeyed (perform rt config t call w).store
        × Untouched u w.store (perform rt config t call w).store
  perform-Untouched t call w apart =
      perform-Moves rt config t _ (Puts-Admits rt t _ (Isolates-Puts rt t u apart)) call w

  -- Whatever sequence of calls is made by tenants whose keys never meet those of tenant `u`, from a
  -- store whose entities stand under their own keys, `u` lists the same stations, tanks, readings,
  -- alerts, devices, assignments, events, deliveries and raw messages as before, finds the same
  -- entity under each id, and has the same idempotency keys.
  pub run-Untouched :
      (calls : List (String × Call)) (w : World)
      → All (λ c. Apart c.0 u) calls
      → IsKeyed w.store
      → Untouched u w.store (run rt config calls w).store
  unfolding run
  run-Untouched [] w apart h = Untouched-refl u w.store
  run-Untouched ((t, call) ∷ rest) w apart h =
      let (keyed, first) = perform-Untouched t call w apart.0 h in
      Untouched-trans u _ _ _ first (run-Untouched rest _ apart.1 keyed)
