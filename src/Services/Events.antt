-- ===== src/Services/Events.antt =====
-- packages/core/src/services/event-service.ts
pub mod Moves
pub mod Decisions
use mafuta.Base.{
  ℕ, ◌*◌, String, Option, some, none, Bool, true, false, not, List, [], ◌∷◌, template,
}
use mafuta.Base.Int.{ℤ, pos, ◌+ℤ◌, ◌-ℤ◌, abs, leb_ℤ}
use mafuta.Base.Ratio.{Ratio}
use mafuta.Runtime.{Runtime}
use mafuta.Errors.{Error, not_found, conflict, validation}
use mafuta.Effect.{Action, pure, ensure, require, for_each, ◌>>=◌, ◌>>◌}
use mafuta.Domain.Quantity.{litres_to_ml}
use mafuta.Domain.Tank.{Tank}
use mafuta.Domain.Reading.{TankReading}
use mafuta.Domain.Event.{
  FuelEvent, candidate_delivery, candidate, confirmed, rejected, same_event_status, same_event_type,
  event_status_text, event_type_text,
}
use mafuta.Domain.Delivery.{Delivery}
use mafuta.Events.Detection.{FuelEventDraft, detect_tank_events}
use mafuta.Memory.{World, now, new_id}
use mafuta.Memory.Events
use mafuta.Memory.Deliveries

pub record ConfirmEventInput : Type 0 where
  pub recorded_volume_litres : Option Ratio
  pub reference : Option String
  pub supplier : Option String
  pub note : Option String

pub record ConfirmEventResult : Type 0 where
  pub event : FuelEvent
  pub delivery : Delivery
  pub variance_ml : ℤ

abbrev default_duplicate_lookback_hours : ℕ
default_duplicate_lookback_hours = 72

abbrev recent_event_lookback_limit : ℕ
recent_event_lookback_limit = 50

-- `input.note ?? event.notes`
abbrev pub or_null : Option String → Option String → Option String
or_null none other = other
or_null (some a) other = some a

abbrev pub is_empty : {A : Type 0} → List A → Bool
is_empty [] = true
is_empty (x ∷ xs) = false

unfoldable pub require_event : String → String → Action World FuelEvent
require_event tenant_id event_id = do
  found ← Events.find_by_id tenant_id event_id
  require found (not_found "Fuel event" event_id)

-- The refusal of an event that has been decided already.
unfoldable pub already_decided : String → FuelEvent → Error
already_decided event_id event =
    conflict
      (template ("Event " ∷ event_id ∷ " has already been " ∷ event_status_text event.status ∷ []))

abbrev pub measured_ml : FuelEvent → ℤ
measured_ml event = abs event.volume_change_ml

abbrev pub recorded_ml : FuelEvent → ConfirmEventInput → ℤ
recorded_ml event input = elim input.recorded_volume_litres [
  | none ↦ measured_ml event
  | some litres ↦ litres_to_ml litres
]

module _ (rt : Runtime) where
  unfoldable pub record_draft : String → FuelEventDraft → Action World FuelEvent
  record_draft tenant_id draft = do
    at ← now rt
    id ← new_id rt "evt"
    Events.save tenant_id (record {
      id = id;
      tenant_id = tenant_id;
      tank_id = draft.tank_id;
      type = draft.type;
      status = candidate;
      confidence = draft.confidence;
      volume_change_ml = draft.volume_change_ml;
      window_start = draft.window_start;
      window_end = draft.window_end;
      evidence = draft.evidence;
      notes = none;
      decided_by = none;
      decided_at = none;
      created_at = rt.to_iso at;
      updated_at = rt.to_iso at;
    })

  unfoldable pub detect_and_record :
      String → Tank → List TankReading → Action World (List FuelEvent)
  detect_and_record tenant_id tank readings_ascending = do
    at ← now rt
    existing ←
        Events.list_recent_by_tank rt tenant_id tank.id recent_event_lookback_limit
          (rt.to_iso (at -ℤ pos (default_duplicate_lookback_hours * 3600000)))
    for_each (record_draft tenant_id) (detect_tank_events rt tank readings_ascending existing)

  unfoldable pub confirmed_delivery :
      String → FuelEvent → ConfirmEventInput → String → String → String → Delivery
  confirmed_delivery tenant_id event input actor_reference at id = record {
    id = id;
    tenant_id = tenant_id;
    tank_id = event.tank_id;
    fuel_event_id = some event.id;
    measured_volume_ml = measured_ml event;
    recorded_volume_ml = recorded_ml event input;
    reference = input.reference;
    supplier = input.supplier;
    confirmed_by = actor_reference;
    confirmed_at = at;
    created_at = at;
  }

  unfoldable pub confirmed_event : FuelEvent → ConfirmEventInput → String → String → FuelEvent
  confirmed_event event input actor_reference at = record event {
    status = confirmed;
    decided_by = some actor_reference;
    decided_at = some at;
    notes = or_null input.note event.notes;
    updated_at = at;
  }

  -- The guards of `confirm` on the event and on what was recorded, in the source's order.
  unfoldable pub check_confirmable :
      String → FuelEvent → ConfirmEventInput → Action World (Unit {0})
  check_confirmable event_id event input = do
    ensure (same_event_status event.status candidate) (already_decided event_id event)
    ensure (same_event_type event.type candidate_delivery) (
        validation "Only a candidate delivery can be confirmed as a delivery"
          (("eventId", template ("event type is " ∷ event_type_text event.type ∷ [])) ∷ []))
    ensure (not (leb_ℤ (measured_ml event) (pos 0))) (
        validation "The candidate has no measurable volume change"
          (("eventId", "volumeChangeMl is zero") ∷ []))
    ensure (not (leb_ℤ (recorded_ml event input) (pos 0))) (
        validation "Recorded volume must be greater than zero"
          (("recordedVolumeLitres", "must be greater than zero") ∷ []))

  -- The writes of `confirm`: the delivery, and then the event.
  unfoldable pub write_confirmation :
      String
      → FuelEvent
      → ConfirmEventInput
      → String
      → String
      → String
      → Action World ConfirmEventResult
  write_confirmation tenant_id event input actor_reference at id = do
    delivery ←
        Deliveries.save tenant_id (confirmed_delivery tenant_id event input actor_reference at id)
    updated ← Events.update tenant_id (confirmed_event event input actor_reference at)
    pure (record {
      event = updated;
      delivery = delivery;
      variance_ml = recorded_ml event input -ℤ measured_ml event;
    })

  unfoldable pub confirm :
      String → String → ConfirmEventInput → String → Action World ConfirmEventResult
  confirm tenant_id event_id input actor_reference = do
    event ← require_event tenant_id event_id
    check_confirmable event_id event input
    at ← now rt
    existing ← Deliveries.list_by_event rt tenant_id event_id
    ensure (is_empty existing)
        (conflict (template ("Event " ∷ event_id ∷ " already has a delivery record" ∷ [])))
    id ← new_id rt "dlv"
    write_confirmation tenant_id event input actor_reference (rt.to_iso at) id

  unfoldable pub rejected_event : FuelEvent → String → String → String → FuelEvent
  rejected_event event note actor_reference at = record event {
    status = rejected;
    notes = some note;
    decided_by = some actor_reference;
    decided_at = some at;
    updated_at = at;
  }

  unfoldable pub reject : String → String → String → String → Action World FuelEvent
  reject tenant_id event_id note actor_reference = do
    event ← require_event tenant_id event_id
    ensure (same_event_status event.status candidate) (already_decided event_id event)
    at ← now rt
    Events.update tenant_id (rejected_event event note actor_reference (rt.to_iso at))

  unfoldable pub total_recorded : ℤ → List Delivery → ℤ
  total_recorded total [] = total
  total_recorded total (delivery ∷ rest) =
      total_recorded (total +ℤ delivery.recorded_volume_ml) rest

  unfoldable pub delivered_volume_ml : String → String → String → String → Action World ℤ
  delivered_volume_ml tenant_id tank_id from to = do
    deliveries ←
        Deliveries.list rt tenant_id
          (record { tank_id = some tank_id; from = some from; to = some to; limit = some 500 })
    pure (total_recorded (pos 0) deliveries)

  unfoldable pub candidate_events : String → String → Action World (List FuelEvent)
  candidate_events tenant_id tank_id = Events.list rt tenant_id (record {
    tank_id = some tank_id;
    status = some candidate;
    type = none;
    from = none;
    to = none;
    limit = some 20;
  })
