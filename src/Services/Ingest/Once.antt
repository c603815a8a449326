-- ===== src/Services/Ingest/Once.antt =====
-- packages/core/src/services/ingest-service.ts: the idempotency key of a recorded reading.
use mafuta.Base.{String, Option, none, some, ◌≡◌, refl, sym, ap, ◌∙◌, subst}
use mathlib.Core.Path.{Path}
use mafuta.Services.Writes.{Admits}
use mafuta.Base.Dict.{get}
use mafuta.Runtime.{Runtime}
use mafuta.Effect.{ok}
use mafuta.Effect.Ok.{bind-ok}
use mafuta.Effect.Moves.{Moves-result}
use mafuta.Domain.Tank.{Tank}
use mafuta.Domain.Reading.{TankReading}
use mafuta.Domain.Normalize.{ProbeSample, normalize_probe_sample}
use mafuta.Memory.{World, RawMessageRecord, scoped_key}
use mafuta.Memory.Saved.{owned-ok, get-set_itself}
use mafuta.Memory.Readings
use mafuta.Services.Writes.Puts.{Puts-Admits}
use mafuta.Services.Rules.{IngestConfig}
use mafuta.Services.Ingest.{IngestResult, record_reading, normalized}
use mafuta.Services.Ingest.Moves.{evaluate_recorded-Moves}
use mafuta.Services.Ledger.{Keeps, Keeps-Puts}

-- The tenant has a reading with this idempotency key.
abbrev pub IsKnown : String → String → World → Type 0
IsKnown t key w = ¬ (get (scoped_key t key) w.store.reading_idempotency ≡ none)

some_not_none : {A : Type 0} {a : A} → ¬ (Path (Option A) (some a) none)
some_not_none e = cc

module _ (rt : Runtime) (config : IngestConfig) (t : String) where
  admits : Admits rt t Keeps
  admits = Puts-Admits rt t Keeps (Keeps-Puts rt t)

  pub append-IsKnown :
      (x y : TankReading) (w v : World)
      → Readings.append t x w ≡ (ok y, v)
      → IsKnown t x.idempotency_key v
  unfolding Readings.append Readings.put
  append-IsKnown x y w v e missing =
      let (mine, same, state) = owned-ok x.tenant_id t _ _ x y w v e in
      let index = w.store.reading_idempotency in
      let here = get-set_itself (scoped_key t x.idempotency_key) (scoped_key t x.id) index in
      absurd (
        some_not_none (
          sym here
          ∙ ap (λ z. get (scoped_key t x.idempotency_key) z.store.reading_idempotency) (sym state)
          ∙ missing))

  normalized_key :
      (tank : Tank) (sample : ProbeSample) (device_id : Option String) (key at : String)
      (kept : Option RawMessageRecord) (id : String)
      → (normalized rt config t tank sample device_id key at kept id).idempotency_key ≡ key
  unfolding normalized normalize_probe_sample
  normalized_key tank sample device_id key at kept id = refl

  pub record_reading-IsKnown :
      (tank : Tank) (sample : ProbeSample) (device_id : Option String) (key : String)
      (payload : Option String) (w v : World) (r : IngestResult)
      → record_reading rt config t tank sample device_id key payload w ≡ (ok r, v)
      → IsKnown t key v
  unfolding record_reading
  record_reading-IsKnown tank sample device_id key payload w v r e =
      let (at, w₁, e₁, f₁) = bind-ok _ _ w v r e in
      let (kept, w₂, e₂, f₂) = bind-ok _ _ w₁ v r f₁ in
      let (id, w₃, e₃, f₃) = bind-ok _ _ w₂ v r f₂ in
      let (stored, w₄, e₄, f₄) = bind-ok _ _ w₃ v r f₃ in
      let known =
        subst (λ k. IsKnown t k w₄) (normalized_key tank sample device_id key _ kept id)
          (append-IsKnown _ stored w₃ w₄ e₄) in
      let kept_on =
        Moves-result Keeps _ w₄ v _
          (evaluate_recorded-Moves rt t Keeps admits config tank device_id _ _) f₄ in
      kept_on.1 (scoped_key t key) known
