-- ===== src/Tests/RateLimit.antt =====
-- internal/detector/ratelimit.go: a limiter of two calls in sixty ticks.
use Prim.Native.Nat.{min}
use ghost_guard.Prelude.{◌≡◌, refl, arith, some, List, [], ◌∷◌}
use ghost_guard.Prelude.Int.{pos, ◌+ℤ◌, ◌≤ℤ◌, ltb_ℤ}
use ghost_guard.Dict.{lookup, insert}
use ghost_guard.Detector.RateLimit.{
  RateLimiter, new_rate_limiter, allow, fresh_bucket, remaining, cleanup_tick,
}
use ghost_guard.Detector.RateLimit.Laws.{IsValid, quota, new_rate_limiter-IsValid, allow-IsValid}
use ghost_guard.Detector.RateLimit.Quota.{
  Call, IsClosed, Until, admitted, calls, admitted-window, allow-remaining,
}
use ghost_guard.Detector.RateLimit.Cleanup.{answers, answers-cleanup_tick}

abbrev limiter : RateLimiter
limiter = new_rate_limiter (pos 2) (pos 60)

limiter-IsValid : IsValid limiter
limiter-IsValid = new_rate_limiter-IsValid (pos 2) (pos 60) (omega arith, omega arith)

abbrev later_calls : List Call
later_calls = (pos 11, "a") ∷ (pos 12, "b") ∷ (pos 13, "a") ∷ []

limiter-IsClosed : IsClosed (pos 10) (lookup "a" limiter.windows)
unfolding new_rate_limiter lookup
limiter-IsClosed = tt

later_calls-Until : Until "a" (pos 10 +ℤ limiter.interval) later_calls
unfolding new_rate_limiter ◌+ℤ◌
later_calls-Until = (λ e. omega arith, (λ e. omega arith, (λ e. omega arith, tt)))

-- Of the three calls of "a" two are let through.
admitted-window_example :
    admitted "a" ((pos 10, "a") ∷ later_calls) limiter
    ≡ min (calls "a" ((pos 10, "a") ∷ later_calls)) (quota limiter.limit)
admitted-window_example =
    admitted-window "a" (pos 10) later_calls limiter limiter-IsValid limiter-IsClosed
      later_calls-Until

abbrev used : RateLimiter
used = (allow (pos 10) "a" limiter).0

used_bucket : lookup "a" used.windows ≡ some (fresh_bucket (pos 10) limiter)
unfolding allow new_rate_limiter lookup insert
used_bucket = refl

used-within : pos 11 ≤ℤ (fresh_bucket (pos 10) limiter).reset_at
unfolding fresh_bucket new_rate_limiter ◌+ℤ◌
used-within = omega arith

used-IsValid : IsValid used
used-IsValid = allow-IsValid (pos 10) "a" limiter limiter-IsValid

used_limit : pos 0 ≤ℤ used.limit
unfolding allow new_rate_limiter lookup
used_limit = omega arith

allow-remaining_example : (allow (pos 11) "a" used).1 ≡ ltb_ℤ (pos 0) (remaining "a" used)
allow-remaining_example =
    allow-remaining (pos 11) "a" used (fresh_bucket (pos 10) limiter) used-IsValid used_limit
      used_bucket used-within

answers-cleanup_tick_example :
    answers ((pos 80, "a") ∷ (pos 81, "b") ∷ []) (cleanup_tick (pos 75) used)
    ≡ answers ((pos 80, "a") ∷ (pos 81, "b") ∷ []) used
answers-cleanup_tick_example =
    answers-cleanup_tick (pos 75) ((pos 80, "a") ∷ (pos 81, "b") ∷ []) used used-IsValid
      (omega arith, (omega arith, tt))
