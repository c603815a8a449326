-- ===== src/Services/Ledger.antt =====
-- packages/core/src/adapters/memory/memory-reading-repository.ts: the ledger of readings under a single write.
pub mod Fresh
pub mod Fixed
use mafuta.Base.{String, none, ◌≡◌, sym, subst, arith}
use mafuta.Base.Dict.{Dict, get, set, get-set}
use mafuta.Runtime.{Runtime}
use mafuta.Memory.{World, scoped_key}
use mafuta.Memory.Stations
use mafuta.Memory.Tanks
use mafuta.Memory.Readings
use mafuta.Memory.Alerts
use mafuta.Memory.Devices
use mafuta.Memory.Assignments
use mafuta.Memory.Events
use mafuta.Memory.Deliveries
use mafuta.Memory.RawMessages
use mafuta.Services.Writes.Puts.{Puts}

pub get-set_some :
    {E : Type 0} (k j : String) (x : E) (m : Dict E)
    → ¬ (get j m ≡ none)
    → ¬ (get j (set k x m) ≡ none)
get-set_some k j x m present missing = ground (arith, get-set k j x m)

-- Every key of the first dictionary is one of the second.
abbrev Grows : {E : Type 0} → Dict E → Dict E → Type 0
Grows m n = (k : String) → ¬ (get k m ≡ none) → ¬ (get k n ≡ none)

-- No reading and no idempotency key is lost.
abbrev pub Keeps : World → World → Type 0
Keeps w v =
    Grows w.store.readings v.store.readings
    × Grows w.store.reading_idempotency v.store.reading_idempotency

pub Keeps-Puts : (rt : Runtime) (t : String) → Puts rt t Keeps
unfolding Devices.put_at Assignments.put_at Stations.put Tanks.put Readings.put Alerts.put
    Devices.put Assignments.put Events.put Deliveries.put RawMessages.put
Keeps-Puts rt t = record {
  composes = record {
    stay = λ w. (λ k h. h, λ k h. h);
    follow = λ w v u f g. (λ k h. g.0 k (f.0 k h), λ k h. g.1 k (f.1 k h));
  };
  counts = λ w v e le.
      subst
        (λ s.
          Grows w.store.readings s.readings
          × Grows w.store.reading_idempotency s.reading_idempotency)
        (sym e) (λ k h. h, λ k h. h);
  stations_put = λ x w same. (λ k h. h, λ k h. h);
  tanks_put = λ x w same. (λ k h. h, λ k h. h);
  readings_put = λ x w same drawn. (
    λ k h. get-set_some (scoped_key t x.id) k x w.store.readings h,
    λ k h.
        get-set_some (scoped_key t x.idempotency_key) k (scoped_key t x.id)
          w.store.reading_idempotency h,
  );
  alerts_put = λ x w same. (λ k h. h, λ k h. h);
  devices_put = λ x w same. (λ k h. h, λ k h. h);
  assignments_put = λ x w same. (λ k h. h, λ k h. h);
  events_put = λ x w same. (λ k h. h, λ k h. h);
  deliveries_put = λ x w same. (λ k h. h, λ k h. h);
  raw_messages_put = λ x w same. (λ k h. h, λ k h. h);
  devices_put_at = λ id at state d w found. (λ k h. h, λ k h. h);
  assignments_put_at = λ id at d w found. (λ k h. h, λ k h. h);
}
