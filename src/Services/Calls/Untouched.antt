-- ===== src/Services/Calls/Untouched.antt =====
-- packages/core/src/services: what a write of one tenant leaves to another.
use mafuta.Base.{
  String, some, List, [], ◌∷◌, ◌≡◌, refl, sym, ap, ◌∙◌, ◌==◌, eq_iff, inl, inr, false, Bool-cases,
  filter,
}
use mafuta.Base.Dict.{Dict, get, set, values, get-set, get-Entries}
use mafuta.Domain.Station.{Station}
use mafuta.Domain.Tank.{Tank}
use mafuta.Domain.Reading.{TankReading}
use mafuta.Domain.Alert.{Alert}
use mafuta.Domain.Device.{Device, DeviceAssignment}
use mafuta.Domain.Event.{FuelEvent}
use mafuta.Domain.Delivery.{Delivery}
use mafuta.Memory.{MemoryStore, RawMessageRecord, scoped_key}
use mafuta.Memory.Keys.{Apart}
use mafuta.Services.Calls.Keyed.{Keyed}

module _ {E : Type 0} (tenant_of : E → String) (u : String) where
  -- What the repository's `list` starts from.
  abbrev pub owned : Dict E → List E
  owned m = filter (λ e. tenant_of e == u) (values m)

  -- The tenant lists the same entities, and finds the same one under each id.
  abbrev pub Same : Dict E → Dict E → Type 0
  Same m n =
      (owned n ≡ owned m) × ((id : String) → get (scoped_key u id) n ≡ get (scoped_key u id) m)

unfoldable pub Untouched : String → MemoryStore → MemoryStore → Type 0
Untouched u s s' =
    Same {E = Station} (λ x. x.tenant_id) u s.stations s'.stations
    × Same {E = Tank} (λ x. x.tenant_id) u s.tanks s'.tanks
    × Same {E = TankReading} (λ x. x.tenant_id) u s.readings s'.readings
    × Same {E = Alert} (λ x. x.tenant_id) u s.alerts s'.alerts
    × Same {E = Device} (λ x. x.tenant_id) u s.devices s'.devices
    × Same {E = DeviceAssignment} (λ x. x.tenant_id) u s.assignments s'.assignments
    × Same {E = FuelEvent} (λ x. x.tenant_id) u s.events s'.events
    × Same {E = Delivery} (λ x. x.tenant_id) u s.deliveries s'.deliveries
    × Same {E = RawMessageRecord} (λ x. x.tenant_id) u s.raw_messages s'.raw_messages
    × ((key : String)
        → get (scoped_key u key) s'.reading_idempotency
          ≡ get (scoped_key u key) s.reading_idempotency)

pub Untouched-refl : (u : String) (s : MemoryStore) → Untouched u s s
unfolding Untouched
Untouched-refl u s = (
  (refl, λ id. refl),
  (refl, λ id. refl),
  (refl, λ id. refl),
  (refl, λ id. refl),
  (refl, λ id. refl),
  (refl, λ id. refl),
  (refl, λ id. refl),
  (refl, λ id. refl),
  (refl, λ id. refl),
  λ key. refl,
)

pub Untouched-trans :
    (u : String) (s s' s'' : MemoryStore)
    → Untouched u s s'
    → Untouched u s' s''
    → Untouched u s s''
unfolding Untouched
Untouched-trans u s s' s'' h k = (
  (k.0.0 ∙ h.0.0, λ id. k.0.1 id ∙ h.0.1 id),
  (k.1.0 ∙ h.1.0, λ id. k.1.1 id ∙ h.1.1 id),
  (k.2.0 ∙ h.2.0, λ id. k.2.1 id ∙ h.2.1 id),
  (k.3.0 ∙ h.3.0, λ id. k.3.1 id ∙ h.3.1 id),
  (k.4.0 ∙ h.4.0, λ id. k.4.1 id ∙ h.4.1 id),
  (k.5.0 ∙ h.5.0, λ id. k.5.1 id ∙ h.5.1 id),
  (k.6.0 ∙ h.6.0, λ id. k.6.1 id ∙ h.6.1 id),
  (k.7.0 ∙ h.7.0, λ id. k.7.1 id ∙ h.7.1 id),
  (k.8.0 ∙ h.8.0, λ id. k.8.1 id ∙ h.8.1 id),
  λ key. k.9 key ∙ h.9 key,
)

module _ (t u : String) (apart : Apart t u) where
  Apart_different : ¬ (t ≡ u)
  unfolding Apart
  Apart_different same = apart "" "" (ap (λ s. scoped_key s "") same)

  other_key : (i j : String) → (scoped_key t i == scoped_key u j) ≡ false
  unfolding Apart
  other_key i j = elim (Bool-cases (scoped_key t i == scoped_key u j)) [
    | inl same ↦ absurd (apart i j ((eq_iff _ _).0 same))
    | inr other ↦ other
  ]

  pub get-set_other :
      {E : Type 0} (i j : String) (x : E) (m : Dict E)
      → get (scoped_key u j) (set (scoped_key t i) x m) ≡ get (scoped_key u j) m
  get-set_other i j x m = rw (get-set (scoped_key t i) (scoped_key u j) x m, other_key i j) refl

  module _ {E : Type 0} (tenant_of id_of : E → String) where
    -- The tenant of what stands under a key of `t`.
    other_tenant :
        (i : String) (x : E)
        → scoped_key t i ≡ scoped_key (tenant_of x) (id_of x)
        → ¬ (tenant_of x ≡ u)
    unfolding Apart
    other_tenant i x at_x same = apart i (id_of x) (at_x ∙ ap (λ s. scoped_key s (id_of x)) same)

    not_owned : (x : E) → ¬ (tenant_of x ≡ u) → (tenant_of x == u) ≡ false
    not_owned x other = elim (Bool-cases (tenant_of x == u)) [
      | inl same ↦ absurd (other ((eq_iff _ _).0 same))
      | inr different ↦ different
    ]

    owned-set :
        (i : String) (x : E) (m : Dict E)
        → ¬ (tenant_of x ≡ u)
        → Keyed tenant_of id_of m
        → owned tenant_of u (set (scoped_key t i) x m) ≡ owned tenant_of u m
    unfolding set values
    owned-set i x [] other h = rw (not_owned x other) refl
    owned-set i x ((k, y) ∷ m) other h = elim (Bool-cases (k == scoped_key t i)) [
      | inl same ↦
          let at_y = sym ((eq_iff _ _).0 same) ∙ h.0 in
          rw (same, not_owned x other, not_owned y (other_tenant i y at_y)) refl
      | inr different ↦ rw (different, owned-set i x m other h.1) refl
    ]

    Same-set :
        (i : String) (x : E) (m : Dict E)
        → ¬ (tenant_of x ≡ u)
        → Keyed tenant_of id_of m
        → Same tenant_of u m (set (scoped_key t i) x m)
    Same-set i x m other h = (owned-set i x m other h, λ j. get-set_other i j x m)

    pub Same-put :
        (x : E) (m : Dict E)
        → tenant_of x ≡ t
        → Keyed tenant_of id_of m
        → Same tenant_of u m (set (scoped_key t (id_of x)) x m)
    Same-put x m mine h = Same-set (id_of x) x m (λ same. Apart_different (sym mine ∙ same)) h

    -- A change of what stands under a key of `t`, which keeps its tenant.
    pub Same-change :
        (i : String) (x y : E) (m : Dict E)
        → tenant_of y ≡ tenant_of x
        → get (scoped_key t i) m ≡ some x
        → Keyed tenant_of id_of m
        → Same tenant_of u m (set (scoped_key t i) y m)
    Same-change i x y m kept found h =
        let at_x = get-Entries (λ k e. k ≡ scoped_key (tenant_of e) (id_of e)) _ x m h found in
        Same-set i y m (λ same. other_tenant i x at_x (sym kept ∙ same)) h
