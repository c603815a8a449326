-- ===== src/Tenancy/CredentialHealth/Cached.antt =====
-- packages/core/src/tenancy/credential-health.ts: sequences of calls on the cached reader.
use mafuta.Base.{
  ℕ, suc, ◌+◌, ◌≤◌, ◌<◌, Option, some, none, Bool, true, false, if◌then◌else◌, ltb, List, [], ◌∷◌,
  ◌≡◌, All, arith, inl, inr, Bool-cases, refl,
}
use mafuta.Tenancy.CredentialHealth.{
  CredentialStoreStatus, CachedStatus, StatusCache, StatusAnswer, CacheEvent, answered, joined,
  started, called, arrived, finished, read_status, answers, new_status_cache,
}

-- How many of the answers start a reader.
unfoldable pub starts : List StatusAnswer → ℕ
starts [] = 0
starts (started ∷ rest) = suc (starts rest)
starts (joined ∷ rest) = starts rest
starts (answered status ∷ rest) = starts rest

-- How many readers finish.
unfoldable pub finishes : List CacheEvent → ℕ
finishes [] = 0
finishes (finished ∷ rest) = suc (finishes rest)
finishes (called current ∷ rest) = finishes rest
finishes (arrived at status ∷ rest) = finishes rest

abbrev room : Bool → ℕ
room in_flight = if in_flight then 0 else 1

starts-answers :
    (ttl_ms : ℕ) (events : List CacheEvent) (cached : Option CachedStatus) (in_flight : Bool)
    → starts (answers ttl_ms events (record { cached = cached; in_flight = in_flight }))
      ≤ room in_flight + finishes events
unfolding starts answers read_status finishes
starts-answers ttl_ms [] cached in_flight = ground arith
starts-answers ttl_ms (finished ∷ events) cached in_flight =
    let rest = starts-answers ttl_ms events cached false in ground (arith, rest)
starts-answers ttl_ms (arrived at status ∷ events) cached in_flight =
    starts-answers ttl_ms events (some (record { at = at; status = status })) in_flight
starts-answers ttl_ms (called current ∷ events) none true = starts-answers ttl_ms events none true
starts-answers ttl_ms (called current ∷ events) none false =
    let rest = starts-answers ttl_ms events none true in ground (arith, rest)
starts-answers ttl_ms (called current ∷ events) (some known) true =
    let rest = starts-answers ttl_ms events (some known) true in
    elim (Bool-cases (ltb current (known.at + ttl_ms))) [
      | inl early ↦ rw early rest
      | inr late ↦ rw late rest
    ]
starts-answers ttl_ms (called current ∷ events) (some known) false =
    let kept = starts-answers ttl_ms events (some known) false in
    let busy = starts-answers ttl_ms events (some known) true in
    elim (Bool-cases (ltb current (known.at + ttl_ms))) [
      | inl early ↦ rw early kept
      | inr late ↦ rw late (ground (arith, busy))
    ]

-- Whatever happens to a new status cache, its calls start at most one reader more than have
-- finished, so that one reader is at work at a time.
pub single_flight :
    (ttl_ms : ℕ) (events : List CacheEvent)
    → starts (answers ttl_ms events new_status_cache) ≤ suc (finishes events)
single_flight ttl_ms events =
    let bound = starts-answers ttl_ms events none false in ground (arith, bound)

-- A call before `end`, or the end of a reader.
unfoldable pub IsBefore : ℕ → CacheEvent → Type 0
IsBefore end (called current) = current < end
IsBefore end finished = Unit
IsBefore end (arrived at status) = ⊥

kept_answers :
    (ttl_ms : ℕ) (events : List CacheEvent) (known : CachedStatus) (in_flight : Bool)
    → All (IsBefore (known.at + ttl_ms)) events
    → All
        (λ answer. answer ≡ answered known.status)
        (answers ttl_ms events (record { cached = some known; in_flight = in_flight }))
unfolding answers read_status IsBefore
kept_answers ttl_ms [] known in_flight before = tt
kept_answers ttl_ms (called current ∷ events) known in_flight before =
    let early : ltb current (known.at + ttl_ms) ≡ true = ground (arith, before.0) in
    rw early (refl, kept_answers ttl_ms events known in_flight before.1)
kept_answers ttl_ms (finished ∷ events) known in_flight before =
    kept_answers ttl_ms events known false before.1
kept_answers ttl_ms (arrived at status ∷ events) known in_flight before = absurd before.0

-- After a status has arrived, every call within the time to live is answered with it and none
-- starts a reader, as long as no other status arrives.
pub fresh_answers :
    (ttl_ms at : ℕ) (status : CredentialStoreStatus) (events : List CacheEvent)
    (cache : StatusCache)
    → All (IsBefore (at + ttl_ms)) events
    → All (λ answer. answer ≡ answered status) (answers ttl_ms (arrived at status ∷ events) cache)
unfolding answers
fresh_answers ttl_ms at status events cache before =
    kept_answers ttl_ms events (record { at = at; status = status }) cache.in_flight before
