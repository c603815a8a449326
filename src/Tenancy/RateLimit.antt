-- ===== src/Tenancy/RateLimit.antt =====
-- packages/core/src/tenancy/rate-limit.ts: a fixed window counter for each key. Times and lengths
-- are whole numbers, of milliseconds and of seconds.
pub mod Window
use mafuta.Base.{
  ℕ, ◌+◌, ◌-◌, ◌*◌, ◌/◌, String, Option, some, none, Bool, true, false, if◌then◌else◌, ltb, leb,
  template, [], ◌∷◌,
}
use mafuta.Base.Dict.{Dict, get, set}
use mafuta.Errors.{too_many_requests}
use mafuta.Effect.{Action, ok, err}

pub record RateLimitDecision : Type 0 where
  pub allowed : Bool
  pub remaining : ℕ
  pub retry_after_seconds : ℕ

pub record RateLimitOptions : Type 0 where
  pub limit : ℕ
  pub window_seconds : ℕ

pub record WindowState : Type 0 where
  pub window_start_ms : ℕ
  pub count : ℕ

abbrev pub at_least_one : ℕ → ℕ
at_least_one n = if ltb n 1 then 1 else n

abbrev pub window_ms : RateLimitOptions → ℕ
window_ms options = at_least_one options.window_seconds * 1000

abbrev pub allowance : RateLimitOptions → ℕ
allowance options = at_least_one options.limit

-- `Math.ceil(ms / 1000)`
abbrev ceil_seconds : ℕ → ℕ
ceil_seconds ms = (ms + 999) / 1000

-- `nowMs - windowStartMs >= windowMs` is written without the difference.
unfoldable pub check_window :
    RateLimitOptions → ℕ → Option WindowState → RateLimitDecision × WindowState
check_window options now_ms none = (
  record { allowed = true; remaining = allowance options - 1; retry_after_seconds = 0 },
  record { window_start_ms = now_ms; count = 1 },
)
check_window options now_ms (some existing) =
    if leb (existing.window_start_ms + window_ms options) now_ms
    then (
      record { allowed = true; remaining = allowance options - 1; retry_after_seconds = 0 },
      record { window_start_ms = now_ms; count = 1 },
    )
    else if leb (allowance options) existing.count
    then (
      record {
        allowed = false;
        remaining = 0;
        retry_after_seconds =
            at_least_one (ceil_seconds (existing.window_start_ms + window_ms options - now_ms));
      },
      existing,
    )
    else (
      record {
        allowed = true;
        remaining = allowance options - (existing.count + 1);
        retry_after_seconds = 0;
      },
      record existing { count = existing.count + 1 },
    )

unfoldable pub check :
    RateLimitOptions → String → ℕ → Dict WindowState → RateLimitDecision × Dict WindowState
unfolding check_window
check options key now_ms windows =
    let (decision, window) = check_window options now_ms (get key windows) in
    (decision, set key window windows)

unfoldable pub enforce_rate_limit :
    (ℕ → String) → RateLimitOptions → String → ℕ → Action (Dict WindowState) (Unit {0})
unfolding check template
enforce_rate_limit number_text options key now_ms windows =
    let (decision, windows') = check options key now_ms windows in
    (
      (if decision.allowed
          then ok tt
          else err (
              too_many_requests
                (template (
                  "Rate limit exceeded. Retry in "
                  ∷ number_text decision.retry_after_seconds
                  ∷ " seconds"
                  ∷ []))
                decision.retry_after_seconds)),
      windows',
    )
