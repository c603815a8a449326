-- ===== src/Tenancy/RateLimit/Window.antt =====
-- packages/core/src/tenancy/rate-limit.ts: a sequence of requests under one key.
use mafuta.Base.{
  ℕ, ◌+◌, ◌*◌, ◌-◌, ◌≤◌, ◌<◌, suc, String, Option, some, none, true, false, if◌then◌else◌, leb,
  List, [], ◌∷◌, ◌≡◌, All, arith, eq_refl, inl, inr, Bool-cases, subst, sym,
}
use mafuta.Base.Dict.{Dict, get, set, get-set}
use mafuta.Tenancy.RateLimit.{
  RateLimitDecision, RateLimitOptions, WindowState, window_ms, allowance, check_window, check,
}

-- How many of the requests of `key`, made at these times in this order, are allowed.
unfoldable pub grants : RateLimitOptions → String → List ℕ → Dict WindowState → ℕ
grants options key [] windows = 0
grants options key (now_ms ∷ times) windows =
    let (decision, windows') = check options key now_ms windows in
    let rest = grants options key times windows' in if decision.allowed then suc rest else rest

get-set_itself : {V : Type 0} (k : String) (v : V) (m : Dict V) → get k (set k v m) ≡ some v
get-set_itself k v m = ground (arith, get-set k k v m, eq_refl k)

not_over : (start length now : ℕ) → now < start + length → leb (start + length) now ≡ false
not_over start length now early = ground arith

grants-in_window :
    (options : RateLimitOptions) (key : String) (times : List ℕ) (windows : Dict WindowState)
    (window : WindowState)
    → get key windows ≡ some window
    → All (λ t. t < window.window_start_ms + window_ms options) times
    → grants options key times windows ≤ allowance options - window.count
unfolding grants check check_window
grants-in_window options key [] windows window found early = omega arith
grants-in_window options key (now ∷ times) windows window found early =
    let open_still = not_over window.window_start_ms (window_ms options) now early.0 in
    elim (Bool-cases (leb (allowance options) window.count)) [
      | inl full ↦
          rw (found, open_still, full)
            (grants-in_window options key times (set key window windows) window
              (get-set_itself key window windows) early.1)
      | inr free ↦
          let next : WindowState = record window { count = window.count + 1 } in
          let rest =
            grants-in_window options key times (set key next windows) next
              (get-set_itself key next windows) early.1 in
          rw (found, open_still, free) (ground (arith, rest, free))
    ]

-- Of the requests under a key that has no window yet, the first at some time and the others before
-- the window that it opens is over, at most the limit is allowed.
pub grants-le-allowance :
    (options : RateLimitOptions) (key : String) (first : ℕ) (times : List ℕ)
    (windows : Dict WindowState)
    → get key windows ≡ none
    → All (λ t. t < first + window_ms options) times
    → grants options key (first ∷ times) windows ≤ allowance options
unfolding grants check check_window
grants-le-allowance options key first times windows fresh early =
    let opened : WindowState = record { window_start_ms = first; count = 1 } in
    let rest =
      grants-in_window options key times (set key opened windows) opened
        (get-set_itself key opened windows) early in
    rw fresh (ground (arith, rest))

retry_is_enough :
    (options : RateLimitOptions) (now : ℕ) (existing : WindowState)
    → (check_window options now (some existing)).0.allowed ≡ false
    → existing.window_start_ms + window_ms options
      ≤ now + (check_window options now (some existing)).0.retry_after_seconds * 1000
unfolding check_window
retry_is_enough options now existing denied = ground (arith, denied)

denied_keeps :
    (options : RateLimitOptions) (now : ℕ) (existing : WindowState)
    → (check_window options now (some existing)).0.allowed ≡ false
    → (check_window options now (some existing)).1 ≡ existing
unfolding check_window
denied_keeps options now existing denied = ground (arith, denied)

over_is_allowed :
    (options : RateLimitOptions) (now : ℕ) (existing : WindowState)
    → existing.window_start_ms + window_ms options ≤ now
    → (check_window options now (some existing)).0.allowed ≡ true
unfolding check_window
over_is_allowed options now existing over = ground (arith, over)

-- The decision and the window on one key, as `check` finds and leaves them.
abbrev decide : RateLimitOptions → String → ℕ → Dict WindowState → RateLimitDecision × WindowState
decide options key now windows = check_window options now (get key windows)

fresh_allowed :
    (options : RateLimitOptions) (now : ℕ) → (check_window options now none).0.allowed ≡ false → ⊥
unfolding check_window
fresh_allowed options now denied = cc

retry_on :
    (options : RateLimitOptions) (now : ℕ) (found : Option WindowState)
    → (check_window options now found).0.allowed ≡ false
    → (check_window options
        (now + (check_window options now found).0.retry_after_seconds * 1000)
        (some (check_window options now found).1)).0.allowed
      ≡ true
retry_on options now none denied = absurd (fresh_allowed options now denied)
retry_on options now (some existing) denied =
    subst
      (λ x.
        (check_window options
          (now + (check_window options now (some existing)).0.retry_after_seconds * 1000)
          (some x)).0.allowed
        ≡ true)
      (sym (denied_keeps options now existing denied))
      (over_is_allowed options _ existing (retry_is_enough options now existing denied))

-- When a request is refused, the next request under its key, made as many seconds later as the
-- refusal says, is allowed.
pub check_retry :
    (options : RateLimitOptions) (key : String) (now : ℕ) (windows : Dict WindowState)
    → (check options key now windows).0.allowed ≡ false
    → (check options key
        (now + (check options key now windows).0.retry_after_seconds * 1000)
        (check options key now windows).1).0.allowed
      ≡ true
unfolding check
check_retry options key now windows denied =
    subst
      (λ o.
        (check_window options (now + (decide options key now windows).0.retry_after_seconds * 1000)
          o).0.allowed
        ≡ true)
      (sym (get-set_itself key (decide options key now windows).1 windows))
      (retry_on options now (get key windows) denied)
