-- ===== src/Services/Ledger/Fixed.antt =====
-- packages/core/src/adapters/memory/memory-reading-repository.ts: a stored reading under a single write.
use mafuta.Base.{
  ℕ, ◌≤◌, String, Bool-cases, inl, inr, eq_iff, ◌==◌, none, some, true, ◌≡◌, refl, sym, ◌∙◌, ap,
  arith,
}
use mafuta.Base.Dict.{Dict, get, get-set}
use mafuta.Runtime.{Runtime}
use mafuta.Domain.Reading.{TankReading}
use mafuta.Memory.{World, scoped_key}
use mafuta.Memory.Keys.{has_no_colon}
use mafuta.Memory.Stations
use mafuta.Memory.Tanks
use mafuta.Memory.Readings
use mafuta.Memory.Alerts
use mafuta.Memory.Devices
use mafuta.Memory.Assignments
use mafuta.Memory.Events
use mafuta.Memory.Deliveries
use mafuta.Memory.RawMessages
use mafuta.Services.Writes.Puts.{Puts, reading_id, draw}
use mafuta.Services.Ledger.Fresh.{same_draw}

-- No tenant has a reading under an id that is still to be drawn.
abbrev pub IsFresh : Runtime → World → Type 0
IsFresh rt w =
    (t : String) (n : ℕ)
    → w.uuid_draws ≤ n
    → get (scoped_key t (reading_id rt n)) w.store.readings ≡ none

-- Every reading that is stored stays as it is.
abbrev pub Retains : Dict TankReading → Dict TankReading → Type 0
Retains m n = (k : String) (r : TankReading) → get k m ≡ some r → get k n ≡ some r

module _ (rt : Runtime) where
  -- Each identifier is drawn once, and the stored readings stay as they are.
  abbrev pub Fixes : World → World → Type 0
  Fixes w v =
      (w.uuid_draws ≤ v.uuid_draws)
      × (IsFresh rt w → IsFresh rt v × Retains w.store.readings v.store.readings)

  same_readings :
      (w v : World) → v.store.readings ≡ w.store.readings → w.uuid_draws ≤ v.uuid_draws → Fixes w v
  same_readings w v same le = (
    le,
    λ fresh. (
      λ t n drawn. ap (get (scoped_key t (reading_id rt n))) same ∙ fresh t n (omega arith),
      λ k r h. ap (get k) same ∙ h,
    ),
  )

  module _ (distinct : (m n : ℕ) → rt.uuid m ≡ rt.uuid n → m ≡ n)
      (no_colon : (n : ℕ) → has_no_colon (rt.uuid n) ≡ true) (t : String) where
    pub put-Fixes :
        (x : TankReading) (w : World)
        → x.id ≡ reading_id rt w.uuid_draws
        → Fixes w (Readings.put t x (draw w))
    unfolding Readings.put
    put-Fixes x w drawn = (
      omega arith,
      λ fresh.
          let new = scoped_key t x.id in
          let unused : get new w.store.readings ≡ none =
            ap (λ i. get (scoped_key t i) w.store.readings) drawn
            ∙ fresh t w.uuid_draws (omega arith) in
          (
            λ u n later.
                let key = scoped_key u (reading_id rt n) in
                elim (Bool-cases (new == key)) [
                  | inl same ↦
                      let met = ap (λ i. scoped_key t i) (sym drawn) ∙ (eq_iff new key).0 same in
                      let once = same_draw rt distinct no_colon t u w.uuid_draws n met in
                      absurd (omega (arith, later, once))
                  | inr other ↦
                      get-set new key x w.store.readings ∙ rw other (fresh u n (omega arith))
                ],
            λ k r h. elim (Bool-cases (new == k)) [
              | inl same ↦ cc (rw ((eq_iff new k).0 same, h) at unused)
              | inr other ↦ get-set new k x w.store.readings ∙ rw other h
            ],
          ),
    )

    pub Fixes-Puts : Puts rt t Fixes
    unfolding Devices.put_at Assignments.put_at Stations.put Tanks.put Alerts.put Devices.put
        Assignments.put Events.put Deliveries.put RawMessages.put
    Fixes-Puts = record {
      composes = record {
        stay = λ w. same_readings w w refl (omega arith);
        follow = λ w v u f g. (
          omega (arith, f.0, g.0),
          λ fresh.
              let (between, first) = f.1 fresh in
              let (after, second) = g.1 between in (after, λ k r h. second k r (first k r h)),
        );
      };
      counts = λ w v e le. same_readings w v (ap (λ s. s.readings) e) le;
      stations_put = λ x w same. same_readings w (Stations.put t x w) refl (omega arith);
      tanks_put = λ x w same. same_readings w (Tanks.put t x w) refl (omega arith);
      readings_put = λ x w same drawn. put-Fixes x w drawn;
      alerts_put = λ x w same. same_readings w (Alerts.put t x w) refl (omega arith);
      devices_put = λ x w same. same_readings w (Devices.put t x w) refl (omega arith);
      assignments_put = λ x w same. same_readings w (Assignments.put t x w) refl (omega arith);
      events_put = λ x w same. same_readings w (Events.put t x w) refl (omega arith);
      deliveries_put = λ x w same. same_readings w (Deliveries.put t x w) refl (omega arith);
      raw_messages_put = λ x w same. same_readings w (RawMessages.put t x w) refl (omega arith);
      devices_put_at = λ id at state d w found.
          same_readings w (Devices.put_at t id (Devices.touch_device d at state) w) refl
            (omega arith);
      assignments_put_at = λ id at d w found.
          same_readings w (Assignments.put_at t id (Assignments.end_assignment d at) w) refl
            (omega arith);
    }
