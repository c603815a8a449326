-- ===== src/Tenancy/CredentialHealth.antt =====
-- packages/core/src/tenancy/credential-health.ts: the state of the key store, and its short cache.
-- Times and the time to live are whole milliseconds.
pub mod Cached
use mafuta.Base.{
  ℕ, ◌+◌, String, Option, some, none, Bool, true, false, if◌then◌else◌, ltb, List, [], ◌∷◌, get_or,
}

pub data CredentialStoreState : Type 0 where
  ready : CredentialStoreState
  empty : CredentialStoreState
  unavailable : CredentialStoreState

pub record CredentialStoreStatus : Type 0 where
  pub state : CredentialStoreState
  pub usable_credentials : Option ℕ
  pub reason : Option String
  pub code : Option String

-- What the registry's `countUsable` gives: a count, or what it throws, as the name of the error if
-- it is an `Error` and its code if that is a string.
pub data UsableCount : Type 0 where
  counted : (usable : ℕ) → UsableCount
  thrown : (error_name error_code : Option String) → UsableCount

unfoldable pub inspect_credential_store : UsableCount → CredentialStoreStatus
inspect_credential_store (counted usable) =
    if ltb 0 usable
    then record { state = ready; usable_credentials = some usable; reason = none; code = none }
    else record { state = empty; usable_credentials = some 0; reason = none; code = none }
inspect_credential_store (thrown error_name error_code) = record {
  state = unavailable;
  usable_credentials = none;
  reason = some (get_or error_name "UnknownError");
  code = error_code;
}

pub record CachedStatus : Type 0 where
  pub at : ℕ
  pub status : CredentialStoreStatus

pub record StatusCache : Type 0 where
  pub cached : Option CachedStatus
  pub in_flight : Bool

abbrev pub new_status_cache : StatusCache
new_status_cache = record { cached = none; in_flight = false }

-- What a call returns: a status, the promise that is in flight, or that of a reader it starts.
pub data StatusAnswer : Type 0 where
  answered : (status : CredentialStoreStatus) → StatusAnswer
  joined : StatusAnswer
  started : StatusAnswer

abbrev join_or_start : StatusCache → StatusAnswer × StatusCache
join_or_start cache =
    if cache.in_flight then (joined, cache) else (started, record cache { in_flight = true })

-- The reader that is returned. `current - cached.at < ttlMs` is written without the difference.
unfoldable pub read_status : ℕ → ℕ → StatusCache → StatusAnswer × StatusCache
read_status ttl_ms current cache = elim (cache.cached) [
  | none ↦ join_or_start cache
  | some cached ↦
      if ltb current (cached.at + ttl_ms)
      then (answered cached.status, cache)
      else join_or_start cache
]

-- What happens to the cache: a call, the `then` of the reader, and its `finally`.
pub data CacheEvent : Type 0 where
  called : (current : ℕ) → CacheEvent
  arrived : (at : ℕ) (status : CredentialStoreStatus) → CacheEvent
  finished : CacheEvent

-- The answers to the calls among the events, in order.
unfoldable pub answers : ℕ → List CacheEvent → StatusCache → List StatusAnswer
unfolding read_status
answers ttl_ms [] cache = []
answers ttl_ms (called current ∷ events) cache =
    let (answer, cache') = read_status ttl_ms current cache in answer ∷ answers ttl_ms events cache'
answers ttl_ms (arrived at status ∷ events) cache =
    answers ttl_ms events (record cache { cached = some (record { at = at; status = status }) })
answers ttl_ms (finished ∷ events) cache =
    answers ttl_ms events (record cache { in_flight = false })
