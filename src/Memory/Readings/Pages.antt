-- ===== src/Memory/Readings/Pages.antt =====
-- packages/core/src/adapters/memory/memory-reading-repository.ts: the pages that `list` gives.
use mafuta.Base.{
  ℕ, ◌≤◌, String, Option, some, none, true, false, List, filter, take, reverse, All-both, All-map,
  All-reverse, length, All, All-take, All-filter, filter-All, length-take-le, arith, ◌≡◌, refl,
  ◌==◌, eq_iff, if◌then◌else◌,
}
use mafuta.Base.Sort.{sort-All}
use mafuta.Base.Dict.{values}
use mafuta.Runtime.{Runtime}
use mafuta.Effect.{ok, gets}
use mafuta.Memory.{World, clamp_limit, in_window}
use mafuta.Memory.Readings.{ReadingQuery, list, tenant_readings, comes_after}
use mafuta.Domain.Reading.{TankReading}

clamp_limit_bounds :
    (limit : Option ℕ) → (1 ≤ clamp_limit limit 100) × (clamp_limit limit 100 ≤ 500)
unfolding clamp_limit
clamp_limit_bounds none = ground arith
clamp_limit_bounds (some n) = ground arith

module _ (rt : Runtime) (t : String) (query : ReadingQuery) where
  -- What belongs on the page.
  abbrev pub IsWanted : TankReading → Type 0
  IsWanted r =
      (r.tenant_id ≡ t)
      × (r.tank_id ≡ query.tank_id)
      × (in_window rt query.from query.to r.recorded_at ≡ true)

  abbrev matching : World → List TankReading
  matching w =
      filter (λ r. in_window rt query.from query.to r.recorded_at)
        (filter (λ r. r.tank_id == query.tank_id) (tenant_readings rt t w))

  tenant_readings_owned :
      (w : World) → All (λ r. (r.tenant_id == t) ≡ true) (tenant_readings rt t w)
  unfolding tenant_readings
  tenant_readings_owned w =
      sort-All (comes_after rt) _ _ (filter-All (λ r. r.tenant_id == t) (values w.store.readings))

  matching-IsWanted : (w : World) → All IsWanted (matching w)
  matching-IsWanted w =
      let mine = tenant_readings_owned w in
      let of_tank = filter-All (λ r. r.tank_id == query.tank_id) (tenant_readings rt t w) in
      let kept = All-filter (λ r. r.tank_id == query.tank_id) _ (tenant_readings rt t w) mine in
      let inside =
        filter-All (λ r. in_window rt query.from query.to r.recorded_at)
          (filter (λ r. r.tank_id == query.tank_id) (tenant_readings rt t w)) in
      let both =
        All-filter (λ r. in_window rt query.from query.to r.recorded_at) _ _
          (All-both _ _ _ kept of_tank) in
      All-map _ _ (matching w) (λ r h. ((eq_iff _ _).0 h.0.0, (eq_iff _ _).0 h.0.1, h.1))
        (All-both _ _ (matching w) both inside)

  page-IsWanted :
      (w : World) → All IsWanted (if query.ascending then matching w else reverse (matching w))
  page-IsWanted w =
      elim query.ascending as (λ b. All IsWanted (if b then matching w else reverse (matching w))) [
        | true ↦ matching-IsWanted w
        | false ↦ All-reverse IsWanted (matching w) (matching-IsWanted w)
      ]

  -- A page of readings holds only readings of the tenant and the tank that are within the window
  -- asked for, at most 500 of them, and reading it changes nothing.
  pub list_page :
      (w : World)
      → (page : List TankReading) × (list rt t query w ≡ (ok page, w))
        × All IsWanted page
        × (length page ≤ 500)
  unfolding list gets
  list_page w =
      let n = clamp_limit query.limit 100 in
      let all_matching = if query.ascending then matching w else reverse (matching w) in
      (
        take n all_matching,
        refl,
        All-take IsWanted n all_matching (page-IsWanted w),
        omega (arith, length-take-le n all_matching, clamp_limit_bounds query.limit),
      )
