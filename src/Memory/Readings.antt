-- ===== src/Memory/Readings.antt =====
-- packages/core/src/adapters/memory/memory-reading-repository.ts and `compareAscending`.
pub mod Pages
use mafuta.Base.{
  ℕ, String, Option, some, none, Bool, List, ◌==◌, filter, take, reverse, get_last?, if◌then◌else◌,
}
use mafuta.Base.Dict.{get, set, values}
use mafuta.Base.Sort.{sort}
use mafuta.Runtime.{Runtime}
use mafuta.Effect.{Action, pure, gets, modify, ◌>>=◌, ◌>>◌}
use mafuta.Tenancy.Guard.{assert_owned_by_tenant}
use mafuta.Memory.{
  World, scoped_key, clamp_limit, default_page_size, in_window, parsed_before, same_instant,
}
use mafuta.Domain.Reading.{TankReading}

pub record ReadingQuery : Type 0 where
  pub tank_id : String
  pub from : Option String
  pub to : Option String
  pub limit : Option ℕ
  pub ascending : Bool

-- `compareAscending(left, right) > 0`: later, or at the same time with a greater id.
unfoldable pub comes_after : Runtime → TankReading → TankReading → Bool
comes_after rt left right =
    let l = rt.date_parse left.recorded_at in
    let r = rt.date_parse right.recorded_at in
    if same_instant l r then rt.string_before right.id left.id else parsed_before r l

unfoldable pub put : String → TankReading → World → World
put tenant_id entity w = record w {
  store = record (w.store) {
    readings = set (scoped_key tenant_id entity.id) entity w.store.readings;
    reading_idempotency =
        set (scoped_key tenant_id entity.idempotency_key) (scoped_key tenant_id entity.id)
          w.store.reading_idempotency;
  };
}

unfoldable pub append : String → TankReading → Action World TankReading
append tenant_id entity = do
  assert_owned_by_tenant tenant_id entity.tenant_id "readings.append"
  modify (put tenant_id entity)
  pure entity

unfoldable pub find_by_id : String → String → Action World (Option TankReading)
find_by_id tenant_id id = gets (λ w. get (scoped_key tenant_id id) w.store.readings)

-- `idempotencyKey(tenantId, key)` is `scopedKey(tenantId, key)`.
unfoldable pub find_by_idempotency_key : String → String → Action World (Option TankReading)
find_by_idempotency_key tenant_id key = gets (λ w.
    elim (get (scoped_key tenant_id key) w.store.reading_idempotency) [
      | none ↦ none
      | some id ↦ get id w.store.readings
    ])

-- Oldest first.
unfoldable pub tenant_readings : Runtime → String → World → List TankReading
tenant_readings rt tenant_id w =
    sort (comes_after rt) (filter (λ r. r.tenant_id == tenant_id) (values w.store.readings))

unfoldable pub list : Runtime → String → ReadingQuery → Action World (List TankReading)
list rt tenant_id query = gets (λ w.
    let matching =
      filter (λ r. in_window rt query.from query.to r.recorded_at)
        (filter (λ r. r.tank_id == query.tank_id) (tenant_readings rt tenant_id w)) in
    take (clamp_limit query.limit default_page_size)
      (if query.ascending then matching else reverse matching))

unfoldable pub latest : Runtime → String → String → Action World (Option TankReading)
latest rt tenant_id tank_id =
    gets (λ w. get_last? (filter (λ r. r.tank_id == tank_id) (tenant_readings rt tenant_id w)))
