-- ===== src/Services/Calls/Kept.antt =====
-- packages/core/src/adapters/memory/memory-reading-repository.ts: the ledger of readings under any calls.
use mafuta.Base.{ℕ, String, true, List, [], ◌∷◌, ◌≡◌}
use mafuta.Runtime.{Runtime}
use mafuta.Memory.{World}
use mafuta.Memory.Keys.{has_no_colon}
use mafuta.Services.Writes.Puts.{Puts-Admits}
use mafuta.Services.Rules.{IngestConfig}
use mafuta.Services.Ledger.{Keeps, Keeps-Puts}
use mafuta.Services.Ledger.Fixed.{IsFresh, Retains, Fixes, Fixes-Puts}
use mafuta.Services.Calls.{Call, perform, run}
use mafuta.Services.Calls.Moves.{perform-Moves}

module _ (rt : Runtime) (config : IngestConfig) where
  pub run-Keeps : (calls : List (String × Call)) (w : World) → Keeps w (run rt config calls w)
  unfolding run
  run-Keeps [] w = (λ k h. h, λ k h. h)
  run-Keeps ((t, call) ∷ rest) w =
      let first =
        perform-Moves rt config t Keeps (Puts-Admits rt t Keeps (Keeps-Puts rt t)) call w in
      let others = run-Keeps rest (perform rt config t call w) in
      (λ k h. others.0 k (first.0 k h), λ k h. others.1 k (first.1 k h))

  module _ (distinct : (m n : ℕ) → rt.uuid m ≡ rt.uuid n → m ≡ n)
      (no_colon : (n : ℕ) → has_no_colon (rt.uuid n) ≡ true) where
    run-Fixes : (calls : List (String × Call)) (w : World) → Fixes rt w (run rt config calls w)
    unfolding run
    run-Fixes [] w = (Fixes-Puts rt distinct no_colon "").composes.stay w
    run-Fixes ((t, call) ∷ rest) w =
        let puts = Fixes-Puts rt distinct no_colon t in
        puts.composes.follow w (perform rt config t call w)
          (run rt config rest (perform rt config t call w))
          (perform-Moves rt config t (Fixes rt) (Puts-Admits rt t (Fixes rt) puts) call w)
          (run-Fixes rest (perform rt config t call w))

    -- When the random identifiers are all different and hold no colon, and no tenant has a reading
    -- under an id that is still to be drawn, a reading that is stored stays as it is under its key,
    -- whatever sequence of calls is made by any tenants, and still no tenant has a reading under an
    -- id to be drawn.
    pub run_kept :
        (calls : List (String × Call)) (w : World)
        → IsFresh rt w
        → Retains w.store.readings (run rt config calls w).store.readings
          × IsFresh rt (run rt config calls w)
    run_kept calls w fresh = let (after, kept) = (run-Fixes calls w).1 fresh in (kept, after)
