-- ===== src/Services/Events/Decisions.antt =====
-- packages/core/src/services/event-service.ts: `confirm` and `reject` on each state of an event.
use mafuta.Base.{
  String, Bool, true, false, not, some, ◌≡◌, refl, sym, ◌∙◌, ap, inl, inr, Bool-cases, ◌==◌,
  eq_refl, eq_iff,
}
use mathlib.Core.Path.{Path, subst₂}
use mafuta.Base.Dict.{get}
use mafuta.Base.Int.{pos, leb_ℤ, ◌-ℤ◌}
use mafuta.Runtime.{Runtime}
use mafuta.Effect.{Result, ok, err, ◌>>=◌}
use mafuta.Effect.Ok.{bind-ok, ensure-ok, require-ok, gets-ok}
use mafuta.Tenancy.Guard.{assert_owned_by_tenant}
use mafuta.Domain.Event.{
  FuelEvent, FuelEventStatus, candidate, confirmed, rejected, same_event_status, candidate_delivery,
  candidate_unexplained_decrease, same_event_type, FuelEventType,
}
use mafuta.Memory.{World, scoped_key}
use mafuta.Memory.Saved.{get-set_itself}
use mafuta.Memory.Events
use mafuta.Memory.Deliveries
use mafuta.Services.Events.{
  check_confirmable, write_confirmation, ConfirmEventInput, ConfirmEventResult, require_event,
  already_decided, confirm, reject, recorded_ml, measured_ml, confirmed_event, confirmed_delivery,
  or_null,
}

ok_injective : {S A : Type 0} {a b : A} {s u : S} → Path (Result A × S) (ok a, s) (ok b, u) → a ≡ b
ok_injective e = cc

is_candidate : (s : FuelEventStatus) → same_event_status s candidate ≡ true → s ≡ candidate
is_candidate candidate e = refl
is_candidate confirmed e = cc
is_candidate rejected e = cc

not_candidate : (s : FuelEventStatus) → ¬ (s ≡ candidate) → same_event_status s candidate ≡ false
not_candidate candidate other = absurd (other refl)
not_candidate confirmed other = refl
not_candidate rejected other = refl

not-true : {b : Bool} → not b ≡ true → b ≡ false
not-true {b = true} e = cc
not-true {b = false} e = refl

is_delivery :
    (s : FuelEventType) → same_event_type s candidate_delivery ≡ true → s ≡ candidate_delivery
is_delivery candidate_delivery e = refl
is_delivery candidate_unexplained_decrease e = cc

module _ (rt : Runtime) (t id : String) where
  pub decided_refused :
      (event : FuelEvent) (w : World) (input : ConfirmEventInput) (actor remark : String)
      → get (scoped_key t id) w.store.events ≡ some event
      → ¬ (event.status ≡ candidate)
      → (confirm rt t id input actor w ≡ (err (already_decided id event), w))
        × (reject rt t id remark actor w ≡ (err (already_decided id event), w))
  unfolding confirm reject require_event Events.find_by_id ◌>>=◌ check_confirmable
  decided_refused event w input actor remark found decided =
      let closed = not_candidate event.status decided in
      (rw (found, closed) refl, rw (found, closed) refl)

  require_event-ok :
      (w v : World) (event : FuelEvent)
      → require_event t id w ≡ (ok event, v)
      → (get (scoped_key t id) w.store.events ≡ some event) × (v ≡ w)
  unfolding require_event Events.find_by_id
  require_event-ok w v event e =
      let (found, u, read, rest) = bind-ok _ _ w v event e in
      let (here, same) = gets-ok _ found w u read in
      let (present, last) = require-ok found _ u v event rest in (here ∙ present, sym (same ∙ last))

  module _ (input : ConfirmEventInput) (actor : String) where
    check_confirmable-ok :
        (event : FuelEvent) (w v : World) (u : Unit {0})
        → check_confirmable rt id event input w ≡ (ok u, v)
        → (event.status ≡ candidate)
          × (event.type ≡ candidate_delivery)
          × (leb_ℤ (measured_ml event) (pos 0) ≡ false)
          × (leb_ℤ (recorded_ml event input) (pos 0) ≡ false)
    unfolding check_confirmable
    check_confirmable-ok event w v u e =
        let (u₂, w₂, e₂, f₂) = bind-ok _ _ w v u e in
        let (u₃, w₃, e₃, f₃) = bind-ok _ _ w₂ v u f₂ in
        let (u₄, w₄, e₄, f₄) = bind-ok _ _ w₃ v u f₃ in
        (
          is_candidate event.status (ensure-ok _ _ w w₂ u₂ e₂).0,
          is_delivery event.type (ensure-ok _ _ w₂ w₃ u₃ e₃).0,
          not-true (ensure-ok _ _ w₃ w₄ u₄ e₄).0,
          not-true (ensure-ok _ _ w₄ v u f₄).0,
        )

    -- What the writes of a confirmation that returned `r` have left.
    abbrev pub Written : World → ConfirmEventResult → FuelEvent → String → Type 0
    Written v r event at =
        (event.tenant_id ≡ t)
        × (r.event ≡ record event {
          status = confirmed;
          decided_by = some actor;
          decided_at = some at;
          notes = or_null input.note event.notes;
          updated_at = at;
        })
        × (r.delivery ≡ record {
          id = r.delivery.id;
          tenant_id = t;
          tank_id = event.tank_id;
          fuel_event_id = some event.id;
          measured_volume_ml = measured_ml event;
          recorded_volume_ml = recorded_ml event input;
          reference = input.reference;
          supplier = input.supplier;
          confirmed_by = actor;
          confirmed_at = at;
          created_at = at;
        })
        × (r.variance_ml ≡ r.delivery.recorded_volume_ml -ℤ r.delivery.measured_volume_ml)
        × (get (scoped_key t event.id) v.store.events ≡ some r.event)
        × (get (scoped_key t r.delivery.id) v.store.deliveries ≡ some r.delivery)

    -- The result and the state of the writes, when the event belongs to the tenant.
    confirmation : FuelEvent → String → String → ConfirmEventResult
    confirmation event at i = record {
      event = confirmed_event rt event input actor at;
      delivery = confirmed_delivery rt t event input actor at i;
      variance_ml = recorded_ml event input -ℤ measured_ml event;
    }

    after_writes : FuelEvent → String → String → World → World
    after_writes event at i w =
        Events.put t (confirmed_event rt event input actor at)
          (Deliveries.put t (confirmed_delivery rt t event input actor at i) w)

    write_confirmation-owned :
        (event : FuelEvent) (at i : String) (w : World)
        → (event.tenant_id == t) ≡ true
        → write_confirmation rt t event input actor at i w
          ≡ (ok (confirmation event at i), after_writes event at i w)
    unfolding write_confirmation Deliveries.save Events.update ◌>>=◌ assert_owned_by_tenant
        confirmation after_writes confirmed_event confirmed_delivery
    write_confirmation-owned event at i w mine = rw (eq_refl t, mine) refl

    write_confirmation-foreign :
        (event : FuelEvent) (at i : String) (w v : World) (r : ConfirmEventResult)
        → (event.tenant_id == t) ≡ false
        → write_confirmation rt t event input actor at i w ≡ (ok r, v)
        → ⊥
    unfolding write_confirmation Deliveries.save Events.update ◌>>=◌ assert_owned_by_tenant
        confirmed_event confirmed_delivery
    write_confirmation-foreign event at i w v r foreign e = cc (rw (eq_refl t, foreign) at e)

    Written-confirmation :
        (event : FuelEvent) (at i : String) (w : World)
        → event.tenant_id ≡ t
        → Written (after_writes event at i w) (confirmation event at i) event at
    unfolding confirmation after_writes Events.put Deliveries.put confirmed_event confirmed_delivery
    Written-confirmation event at i w mine = (
      mine,
      refl,
      refl,
      refl,
      get-set_itself _ _ w.store.events,
      get-set_itself _ _ w.store.deliveries,
    )

    write_confirmation-ok :
        (event : FuelEvent) (at i : String) (w v : World) (r : ConfirmEventResult)
        → write_confirmation rt t event input actor at i w ≡ (ok r, v)
        → Written v r event at
    write_confirmation-ok event at i w v r e = elim (Bool-cases (event.tenant_id == t)) [
      | inr foreign ↦ absurd (write_confirmation-foreign event at i w v r foreign e)
      | inl mine ↦
          let whole = sym (write_confirmation-owned event at i w mine) ∙ e in
          subst₂ (λ x y. Written x y event at) (ap (λ p. p.1) whole) (ok_injective whole)
            (Written-confirmation event at i w ((eq_iff _ _).0 mine))
    ]

    -- A confirmation that returns found a candidate delivery of the tenant with a positive
    -- measured and a positive recorded volume; the event it gives is the one found, now confirmed,
    -- with the actor, the time and the input's note, if there is one, and is stored under its id;
    -- the delivery it gives has the event's tank, id and measured volume, the recorded volume, the
    -- reference and the supplier of the input, the tenant, the actor and the time, and is stored
    -- under its id; the variance is the recorded volume less the measured one.
    pub confirm-ok :
        (w v : World) (r : ConfirmEventResult)
        → confirm rt t id input actor w ≡ (ok r, v)
        → (event : FuelEvent) × (at : String) × (get (scoped_key t id) w.store.events ≡ some event)
          × (event.status ≡ candidate)
          × (event.type ≡ candidate_delivery)
          × (leb_ℤ (measured_ml event) (pos 0) ≡ false)
          × (leb_ℤ (recorded_ml event input) (pos 0) ≡ false)
          × Written v r event at
    unfolding confirm
    confirm-ok w v r e =
        let (event, w₁, e₁, f₁) = bind-ok _ _ w v r e in
        let (u₂, w₂, e₂, f₂) = bind-ok _ _ w₁ v r f₁ in
        let (at, w₃, e₃, f₃) = bind-ok _ _ w₂ v r f₂ in
        let (existing, w₄, e₄, f₄) = bind-ok _ _ w₃ v r f₃ in
        let (u₅, w₅, e₅, f₅) = bind-ok _ _ w₄ v r f₄ in
        let (i, w₆, e₆, f₆) = bind-ok _ _ w₅ v r f₅ in
        let (is, kind, measured, recorded) = check_confirmable-ok event w₁ w₂ u₂ e₂ in
        (
          event,
          rt.to_iso at,
          (require_event-ok w w₁ event e₁).0,
          is,
          kind,
          measured,
          recorded,
          write_confirmation-ok event (rt.to_iso at) i w₆ v r f₆,
        )
