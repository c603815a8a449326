-- ===== src/Memory.antt =====
-- packages/core/src/adapters/memory: the in-memory repositories, over one store and the runtime's
-- clock and identifiers. Entities are values here, so `cloneEntity` has nothing to do.
pub mod Stations
pub mod Tanks
pub mod Readings
pub mod Alerts
pub mod Devices
pub mod Assignments
pub mod Events
pub mod Deliveries
pub mod RawMessages
pub mod AuditLogs
pub mod Tenants
pub mod ApiKeys
pub mod Keys
pub mod Saved
use mafuta.Base.{
  ℕ, suc, String, Option, none, some, Bool, true, false, not, [], ◌∷◌, if◌then◌else◌, ltb, template,
  ◌==◌,
}
use mafuta.Base.Dict.{Dict}
use mafuta.Base.Int.{ℤ, ltb_ℤ, eqb_ℤ}
use mafuta.Runtime.{Runtime}
use mafuta.Effect.{Action, ok}
use mafuta.Domain.Station.{Station}
use mafuta.Domain.Tank.{Tank}
use mafuta.Domain.Reading.{TankReading, SourceProtocol}
use mafuta.Domain.Audit.{AuditLogEntry}
use mafuta.Domain.Alert.{Alert}
use mafuta.Domain.Device.{Device, DeviceAssignment}
use mafuta.Domain.Event.{FuelEvent}
use mafuta.Domain.Delivery.{Delivery}

-- The submitted payload is the text that `canonicalJson` makes of it.
pub record RawMessageRecord : Type 0 where
  pub id : String
  pub tenant_id : String
  pub device_id : Option String
  pub protocol : SourceProtocol
  pub payload : String
  pub message_hash : String
  pub received_at : String

pub record MemoryStore : Type 0 where
  pub stations : Dict Station
  pub tanks : Dict Tank
  pub readings : Dict TankReading
  pub reading_idempotency : Dict String
  pub alerts : Dict Alert
  pub devices : Dict Device
  pub assignments : Dict DeviceAssignment
  pub events : Dict FuelEvent
  pub deliveries : Dict Delivery
  pub raw_messages : Dict RawMessageRecord
  pub audit_logs : Dict AuditLogEntry

abbrev pub create_memory_store : MemoryStore
create_memory_store = record {
  stations = [];
  tanks = [];
  readings = [];
  reading_idempotency = [];
  alerts = [];
  devices = [];
  assignments = [];
  events = [];
  deliveries = [];
  raw_messages = [];
  audit_logs = [];
}

-- The store, with how often the clock was read and how many identifiers were drawn.
pub record World : Type 0 where
  pub store : MemoryStore
  pub clock_reads : ℕ
  pub uuid_draws : ℕ

unfoldable pub scoped_key : String → String → String
scoped_key tenant_id id = template (tenant_id ∷ ":" ∷ id ∷ [])

abbrev max_page_size : ℕ
max_page_size = 500

abbrev default_page_size : ℕ
default_page_size = 100

-- Limits are whole and not negative.
unfoldable pub clamp_limit : Option ℕ → ℕ → ℕ
clamp_limit none fallback = fallback
clamp_limit (some limit) fallback =
    let most : ℕ = if ltb limit max_page_size then limit else max_page_size in
    if ltb most 1 then 1 else most

-- `Date.parse(a) < Date.parse(b)`; false if one of them is NaN.
abbrev pub parsed_before : Option ℤ → Option ℤ → Bool
parsed_before (some a) (some b) = ltb_ℤ a b
parsed_before _ _ = false

module _ (rt : Runtime) where
  -- `clock.now()`
  unfoldable pub now : Action World ℤ
  now w = (ok (rt.clock w.clock_reads), record w { clock_reads = suc w.clock_reads })

  unfoldable pub new_id : String → Action World String
  new_id prefix w = (
    ok (template (prefix ∷ "-" ∷ rt.uuid w.uuid_draws ∷ [])),
    record w { uuid_draws = suc w.uuid_draws },
  )

  -- A comparator of `Date.parse(at(right)) - Date.parse(at(left))`: newest first.
  abbrev pub newest_first : {A : Type 0} → (A → String) → A → A → Bool
  newest_first at left right = parsed_before (rt.date_parse (at left)) (rt.date_parse (at right))

  -- `from !== null && at < from`, and `to !== null && at > to`.
  abbrev pub before_from : Option String → String → Bool
  before_from none at = false
  before_from (some from) at = parsed_before (rt.date_parse at) (rt.date_parse from)

  abbrev pub after_to : Option String → String → Bool
  after_to none at = false
  after_to (some to) at = parsed_before (rt.date_parse to) (rt.date_parse at)

  abbrev pub in_window : Option String → Option String → String → Bool
  in_window from to at = if before_from from at then false else not (after_to to at)

-- `wanted === undefined || value === wanted`
abbrev pub matches {ℓ} : {A : Type ℓ} → (A → A → Bool) → Option A → A → Bool
matches same none value = true
matches same (some wanted) value = same value wanted

abbrev pub is_none {ℓ} : {A : Type ℓ} → Option A → Bool
is_none none = true
is_none (some a) = false

-- `Date.parse(a) === Date.parse(b)`, never true of NaN.
abbrev pub same_instant : Option ℤ → Option ℤ → Bool
same_instant (some a) (some b) = eqb_ℤ a b
same_instant _ _ = false

-- `value === wanted` where `value` may be null.
abbrev pub is_text : Option String → String → Bool
is_text none wanted = false
is_text (some value) wanted = value == wanted
