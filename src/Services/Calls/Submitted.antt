-- ===== src/Services/Calls/Submitted.antt =====
-- packages/core/src/services/ingest-service.ts: a submission that is sent again.
use mafuta.Base.{
  String, Option, none, some, true, List, [], ◌≡◌, refl, sym, subst, inl, inr, Option-cases,
}
use mathlib.Core.Path.{Path}
use mafuta.Base.Dict.{get, get-Entries}
use mafuta.Runtime.{Runtime}
use mafuta.Effect.{ok}
use mafuta.Effect.Ok.{bind-ok, gets-ok, pure-ok}
use mafuta.Effect.Moves.{Moves-result}
use mafuta.Domain.Tank.{Tank}
use mafuta.Domain.Reading.{TankReading}
use mafuta.Domain.Normalize.{ProbeSample}
use mafuta.Memory.{World, scoped_key}
use mafuta.Memory.Readings
use mafuta.Services.Writes.Puts.{Puts-Admits}
use mafuta.Services.Ledger.{Keeps, Keeps-Puts}
use mafuta.Services.Rules.{IngestConfig}
use mafuta.Services.Ingest.{IngestResult, record_once, submission_key, ingest}
use mafuta.Services.Ingest.Moves.{accept_sample-Moves, ingest-Moves}
use mafuta.Services.Ingest.Once.{IsKnown, record_reading-IsKnown}
use mafuta.Services.Calls.{Call, run}
use mafuta.Services.Calls.Keyed.{IsKeyed, IsKeyed-Puts, run-IsKeyed}
use mafuta.Services.Calls.Kept.{run-Keeps}

none_not_some : {A : Type 0} {a : A} → ¬ (Path (Option A) none (some a))
none_not_some e = cc

module _ (rt : Runtime) (config : IngestConfig) (t key : String) where
  -- The submission is recognised: its reading comes back and nothing is raised or resolved.
  abbrev pub IsDuplicate : IngestResult → World → Type 0
  IsDuplicate r v =
      (r.duplicate ≡ true)
      × (r.raised_alerts ≡ [])
      × (r.resolved_alerts ≡ [])
      × (r.raised_events ≡ [])
      × (Readings.find_by_idempotency_key t key v ≡ (ok (some r.reading), v))

  known_found :
      (w u : World) (existing : Option TankReading)
      → IsKeyed w.store
      → IsKnown t key w
      → Readings.find_by_idempotency_key t key w ≡ (ok existing, u)
      → (reading : TankReading) × (existing ≡ some reading) × (w ≡ u)
  unfolding IsKeyed Readings.find_by_idempotency_key
  known_found w u existing keyed known e =
      let (value, same) = gets-ok _ existing w u e in
      elim (Option-cases (get (scoped_key t key) w.store.reading_idempotency)) [
        | inl missing ↦ absurd (known missing)
        | inr (id, found) ↦ elim (Option-cases (get id w.store.readings)) [
          | inl lost ↦ absurd (get-Entries _ _ id w.store.reading_idempotency keyed.9 found lost)
          | inr (reading, stored) ↦ (reading, sym (rw (found, stored) at value), same)
        ]
      ]

  find-IsKnown :
      (reading : TankReading) (w : World)
      → (elim (get (scoped_key t key) w.store.reading_idempotency) [
        | none ↦ none
        | some id ↦ get id w.store.readings
      ])
        ≡ some reading
      → IsKnown t key w
  find-IsKnown reading w found missing = none_not_some (rw missing at found)

  module _ (sample : ProbeSample) (payload : Option String)
      (given : sample.idempotency_key ≡ some key) where
    submission_key_given :
        (tank : Tank) (device_id : Option String)
        → submission_key rt config t tank sample device_id ≡ key
    unfolding submission_key
    submission_key_given tank device_id = rw given refl

    record_once-IsKnown :
        (tank : Tank) (device_id : Option String) (existing : Option TankReading) (w v : World)
        (r : IngestResult)
        → Readings.find_by_idempotency_key t key w ≡ (ok existing, w)
        → record_once rt config t tank sample device_id key payload existing w ≡ (ok r, v)
        → IsKnown t key v
    unfolding record_once Readings.find_by_idempotency_key
    record_once-IsKnown tank device_id none w v r found e =
        record_reading-IsKnown rt config t tank sample device_id key payload w v r e
    record_once-IsKnown tank device_id (some existing) w v r found e =
        subst (IsKnown t key) (pure-ok _ r w v e).1
          (find-IsKnown existing w (gets-ok _ (some existing) w w found).0)

    record_once-IsDuplicate :
        (tank : Tank) (device_id : Option String) (reading : TankReading) (w v : World)
        (r : IngestResult)
        → Readings.find_by_idempotency_key t key w ≡ (ok (some reading), w)
        → record_once rt config t tank sample device_id key payload (some reading) w ≡ (ok r, v)
        → IsDuplicate r v
    unfolding record_once
    record_once-IsDuplicate tank device_id reading w v r found e =
        let (result, same) = pure-ok _ r w v e in
        let there =
          subst (λ z. Readings.find_by_idempotency_key t key z ≡ (ok (some reading), z)) same
            found in
        subst (λ x. IsDuplicate x v) result (refl, refl, refl, refl, there)

    -- The last two steps of `ingest`, with what was accepted.
    rest-IsKnown :
        (tank : Tank) (device_id : Option String) (existing : Option TankReading) (w u v : World)
        (r : IngestResult)
        → Readings.find_by_idempotency_key t (submission_key rt config t tank sample device_id) w
          ≡ (ok existing, u)
        → record_once rt config t tank sample device_id
            (submission_key rt config t tank sample device_id)
            payload
            existing
            u
          ≡ (ok r, v)
        → IsKnown t key v
    unfolding Readings.find_by_idempotency_key
    rest-IsKnown tank device_id existing w u v r e f =
        let keyed = submission_key_given tank device_id in
        let found = rw keyed at e in
        let same = (gets-ok _ existing w u found).1 in
        record_once-IsKnown tank device_id existing u v r
          (subst (λ z. Readings.find_by_idempotency_key t key z ≡ (ok existing, u)) same found)
          (rw keyed at f)

    rest-IsDuplicate :
        (tank : Tank) (device_id : Option String) (existing : Option TankReading) (w u v : World)
        (r : IngestResult)
        → IsKeyed w.store
        → IsKnown t key w
        → Readings.find_by_idempotency_key t (submission_key rt config t tank sample device_id) w
          ≡ (ok existing, u)
        → record_once rt config t tank sample device_id
            (submission_key rt config t tank sample device_id)
            payload
            existing
            u
          ≡ (ok r, v)
        → IsDuplicate r v
    rest-IsDuplicate tank device_id existing w u v r keyed known e f =
        let same_key = submission_key_given tank device_id in
        let found = rw same_key at e in
        let (reading, is, same) = known_found w u existing keyed known found in
        let here =
          subst (λ z. Readings.find_by_idempotency_key t key z ≡ (ok existing, u)) same found in
        record_once-IsDuplicate tank device_id reading u v r (rw is at here)
          (rw is at (rw same_key at f))

    ingest-IsKnown :
        (w v : World) (r : IngestResult)
        → ingest rt config t sample payload w ≡ (ok r, v)
        → IsKnown t key v
    unfolding ingest
    ingest-IsKnown w v r e =
        let (accepted, w₁, e₁, f₁) = bind-ok _ _ w v r e in
        let (existing, w₂, e₂, f₂) = bind-ok _ _ w₁ v r f₁ in
        rest-IsKnown accepted.0 accepted.1 existing w₁ w₂ v r e₂ f₂

    ingest-IsDuplicate :
        (w v : World) (r : IngestResult)
        → IsKeyed w.store
        → IsKnown t key w
        → ingest rt config t sample payload w ≡ (ok r, v)
        → IsDuplicate r v
    unfolding ingest
    ingest-IsDuplicate w v r keyed known e =
        let (accepted, w₁, e₁, f₁) = bind-ok _ _ w v r e in
        let (existing, w₂, e₂, f₂) = bind-ok _ _ w₁ v r f₁ in
        let keeps =
          Moves-result _ _ w w₁ _
            (accept_sample-Moves rt t Keeps (Puts-Admits rt t Keeps (Keeps-Puts rt t)) config
              sample)
            e₁ in
        let stays =
          Moves-result _ _ w w₁ _
            (accept_sample-Moves rt t _ (Puts-Admits rt t _ (IsKeyed-Puts rt t)) config sample)
            e₁ in
        rest-IsDuplicate accepted.0 accepted.1 existing w₁ w₂ v r (stays keyed)
          (keeps.1 (scoped_key t key) known) e₂ f₂

ingest-IsKeyed :
    (rt : Runtime) (config : IngestConfig) (t : String) (sample : ProbeSample)
    (payload : Option String) (w v : World) (r : IngestResult)
    → IsKeyed w.store
    → ingest rt config t sample payload w ≡ (ok r, v)
    → IsKeyed v.store
ingest-IsKeyed rt config t sample payload w v r keyed e =
    Moves-result _ _ w v _
      (ingest-Moves rt t _ (Puts-Admits rt t _ (IsKeyed-Puts rt t)) config sample payload) e keyed

-- After a sample with the idempotency key `key` has been ingested, from a store whose entities stand
-- under their own keys, and after any further calls by any tenants, ingesting a sample with that key
-- that returns gives a duplicate: nothing is raised or resolved, and the reading given is the one
-- the tenant finds under the key.
pub ingest_once :
    (rt : Runtime) (config : IngestConfig) (t key : String) (first again : ProbeSample)
    (payload other : Option String) (calls : List (String × Call)) (w u v : World)
    (r s : IngestResult)
    → first.idempotency_key ≡ some key
    → again.idempotency_key ≡ some key
    → IsKeyed w.store
    → ingest rt config t first payload w ≡ (ok r, u)
    → ingest rt config t again other (run rt config calls u) ≡ (ok s, v)
    → IsDuplicate rt config t key s v
ingest_once rt config t key first again payload other calls w u v r s given same keyed e f =
    let keyed' =
      run-IsKeyed rt config calls u (ingest-IsKeyed rt config t first payload w u r keyed e) in
    let known = ingest-IsKnown rt config t key first payload given w u r e in
    ingest-IsDuplicate rt config t key again other same (run rt config calls u) v s keyed'
      ((run-Keeps rt config calls u).1 (scoped_key t key) known) f
