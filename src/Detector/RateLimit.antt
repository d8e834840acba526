-- ===== src/Detector/RateLimit.antt =====
-- internal/detector/ratelimit.go: a fixed window of calls for each key. A method that changes
-- `*RateLimiter` returns the new record; `now` is the reading of the clock that it takes, in
-- nanoseconds. The mutex makes each method one step.
pub mod Laws
pub mod Quota
pub mod Cleanup
use ghost_guard.Prelude.{ℕ, String, Bool, true, false, Option, none, some, [], if◌then◌else◌}
use ghost_guard.Prelude.Int.{ℤ, pos, ◌+ℤ◌, ltb_ℤ, leb_ℤ, add64, sub64}
use ghost_guard.Dict.{Dict, lookup, insert, delete, delete_if}

-- rateBucket
pub record RateBucket : Type 0 where
  pub count : ℤ  -- int
  pub reset_at : ℤ

pub record RateLimiter : Type 0 where
  pub windows : Dict RateBucket
  pub limit : ℤ  -- int
  pub interval : ℤ

-- NewRateLimiter. The ticker of `cleanup` panics at an interval of zero or below, so that the program
-- goes on with a positive one only. The goroutine `cleanup` that it starts is `cleanup_tick` below.
unfoldable pub new_rate_limiter : ℤ → ℤ → RateLimiter
new_rate_limiter limit interval = record { windows = []; limit = limit; interval = interval }

-- `rl.windows[key] = bucket`
abbrev pub store : String → RateBucket → RateLimiter → RateLimiter
store key bucket rl = record rl { windows = insert key bucket rl.windows }

-- The bucket that a first call, or the first one after a window's end, opens.
unfoldable pub fresh_bucket : ℤ → RateLimiter → RateBucket
unfolding ◌+ℤ◌
fresh_bucket now rl = record { count = pos 1; reset_at = now +ℤ rl.interval }

-- `bucket.count++`, through the pointer that the map holds
unfoldable pub bump : RateBucket → RateBucket
unfolding add64
bump b = record b { count = add64 b.count (pos 1) }

unfoldable pub allow : ℤ → String → RateLimiter → RateLimiter × Bool
unfolding fresh_bucket bump
allow now key rl = elim (lookup key rl.windows) [
  | none ↦ (store key (fresh_bucket now rl) rl, true)
  | some b ↦
      if ltb_ℤ b.reset_at now
      then (store key (fresh_bucket now rl) rl, true)
      else if leb_ℤ rl.limit b.count
      then (rl, false)
      else (store key (bump b) rl, true)
]

unfoldable pub remaining : String → RateLimiter → ℤ
unfolding sub64
remaining key rl = elim (lookup key rl.windows) [
  | none ↦ rl.limit
  | some b ↦ let left = sub64 rl.limit b.count in if ltb_ℤ left (pos 0) then pos 0 else left
]

unfoldable pub reset : String → RateLimiter → RateLimiter
reset key rl = record rl { windows = delete key rl.windows }

abbrev pub is_over : ℤ → RateBucket → Bool
is_over now b = ltb_ℤ b.reset_at now

-- One round of the loop of `cleanup`, at a tick.
unfoldable pub cleanup_tick : ℤ → RateLimiter → RateLimiter
cleanup_tick now rl = record rl { windows = delete_if (is_over now) rl.windows }
