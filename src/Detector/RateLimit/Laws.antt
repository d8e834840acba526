-- ===== src/Detector/RateLimit/Laws.antt =====
-- What one call of the rate limiter does to a bucket, and the invariant that every method keeps.
use Prim.Native.Nat.{max}
use ghost_guard.Prelude.{
  ℕ, String, Bool, true, false, ◌≡◌, Option, none, some, arith, ◌==◌, eq_iff, if◌then◌else◌, ◌≤◌,
  ◌+◌, Option-cases, Bool-cases, inl, inr,
}
use ghost_guard.Prelude.Int.{
  ℤ, pos, pos_part, neg_part, Is64, ltb_ℤ, leb_ℤ, add64_of_Is64, +ℤ_parts,
}
use ghost_guard.Dict.{lookup}
use ghost_guard.Dict.Laws.{
  IsDistinct, lookup-insert, lookup-delete, lookup-delete_if, insert-IsDistinct, delete-IsDistinct,
  delete_if-IsDistinct, unless,
}
use ghost_guard.Detector.RateLimit.{
  RateBucket, RateLimiter, new_rate_limiter, fresh_bucket, bump, allow, reset, is_over,
  cleanup_tick,
}

-- The most calls that one window lets through: a limit below 1 still lets the first call through.
abbrev pub quota : ℤ → ℕ
quota limit = max 1 (pos_part limit)

abbrev pub InQuota : ℤ → Option RateBucket → Type 0
InQuota limit none = Unit
InQuota limit (some b) =
    (neg_part b.count ≡ 0) × (1 ≤ pos_part b.count) × (pos_part b.count ≤ quota limit)

pub record IsValid (rl : RateLimiter) : Type 0 where
  pub fits : Is64 rl.limit
  pub distinct : IsDistinct rl.windows
  pub in_quota : (key : String) → InQuota rl.limit (lookup key rl.windows)

-- Below the limit the counter does not wrap.
pub bump_lem :
    (limit : ℤ) (b : RateBucket)
    → Is64 limit
    → neg_part b.count ≡ 0
    → leb_ℤ limit b.count ≡ false
    → (neg_part (bump b).count ≡ 0) × (pos_part (bump b).count ≡ pos_part b.count + 1)
unfolding bump
bump_lem limit b f q h = ground (arith, add64_of_Is64 b.count (pos 1), +ℤ_parts b.count (pos 1))

-- One step of `allow` on the bucket of its key.
abbrev pub step : ℤ → RateLimiter → Option RateBucket → RateBucket × Bool
step now rl none = (fresh_bucket now rl, true)
step now rl (some b) =
    if ltb_ℤ b.reset_at now
    then (fresh_bucket now rl, true)
    else if leb_ℤ rl.limit b.count
    then (b, false)
    else (bump b, true)

-- `allow` answers and updates as `step` does, and leaves the other keys' buckets as they are.
pub allow-step :
    (now : ℤ) (key : String) (rl : RateLimiter)
    → (allow now key rl).1 ≡ (step now rl (lookup key rl.windows)).1
unfolding allow
allow-step now key rl = ground arith

pub lookup-allow :
    (now : ℤ) (key j : String) (rl : RateLimiter)
    → lookup j (allow now key rl).0.windows
      ≡ (if key == j then some (step now rl (lookup key rl.windows)).0 else lookup j rl.windows)
unfolding allow
lookup-allow now key j rl = elim (Option-cases (lookup key rl.windows)) [
  | inl missing ↦ rw (missing, allow) (lookup-insert key j (fresh_bucket now rl) rl.windows)
  | inr (b, found) ↦ ground (
    arith,
    eq_iff key j,
    lookup-insert key j (fresh_bucket now rl) rl.windows,
    lookup-insert key j (bump b) rl.windows,
  )
]

pub limit-allow :
    (now : ℤ) (key : String) (rl : RateLimiter) → (allow now key rl).0.limit ≡ rl.limit
unfolding allow
limit-allow now key rl = ground arith

pub interval-allow :
    (now : ℤ) (key : String) (rl : RateLimiter) → (allow now key rl).0.interval ≡ rl.interval
unfolding allow
interval-allow now key rl = ground arith

step-InQuota :
    (now : ℤ) (rl : RateLimiter) (o : Option RateBucket)
    → Is64 rl.limit
    → InQuota rl.limit o
    → InQuota rl.limit (some (step now rl o).0)
unfolding fresh_bucket
step-InQuota now rl none f q = omega arith
step-InQuota now rl (some b) f q = ground (arith, bump_lem rl.limit b f)

allow-IsDistinct :
    (now : ℤ) (key : String) (rl : RateLimiter)
    → IsDistinct rl.windows
    → IsDistinct (allow now key rl).0.windows
unfolding allow
allow-IsDistinct now key rl d = elim (Option-cases (lookup key rl.windows)) [
  | inl missing ↦ rw (missing, allow) (insert-IsDistinct key _ rl.windows d)
  | inr (b, found) ↦ ground (
    arith,
    insert-IsDistinct key (fresh_bucket now rl) rl.windows d,
    insert-IsDistinct key (bump b) rl.windows d,
  )
]

pub allow-IsValid :
    (now : ℤ) (key : String) (rl : RateLimiter) → IsValid rl → IsValid (allow now key rl).0
allow-IsValid now key rl v = record {
  fits = rw (limit-allow now key rl) v.fits;
  distinct = allow-IsDistinct now key rl v.distinct;
  in_quota = λ j.
      rw (limit-allow now key rl, lookup-allow now key j rl)
        (elim (Bool-cases (key == j)) [
          | inl same ↦ rw same (step-InQuota now rl _ v.fits (v.in_quota key))
          | inr other ↦ rw other (v.in_quota j)
        ]);
}

pub reset-IsValid : (key : String) (rl : RateLimiter) → IsValid rl → IsValid (reset key rl)
unfolding reset
reset-IsValid key rl v = record {
  fits = v.fits;
  distinct = delete-IsDistinct key rl.windows v.distinct;
  in_quota = λ j. rw (lookup-delete key j rl.windows) (elim (Bool-cases (key == j)) [
    | inl same ↦ rw same tt
    | inr other ↦ rw other (v.in_quota j)
  ]);
}

InQuota-unless :
    (limit : ℤ) (p : RateBucket → Bool) (o : Option RateBucket)
    → InQuota limit o
    → InQuota limit (unless p o)
InQuota-unless limit p none q = tt
InQuota-unless limit p (some b) q = ground arith

pub cleanup_tick-IsValid : (now : ℤ) (rl : RateLimiter) → IsValid rl → IsValid (cleanup_tick now rl)
unfolding cleanup_tick
cleanup_tick-IsValid now rl v = record {
  fits = v.fits;
  distinct = delete_if-IsDistinct (is_over now) rl.windows v.distinct;
  in_quota = λ j.
      rw (lookup-delete_if (is_over now) j rl.windows v.distinct)
        (InQuota-unless rl.limit (is_over now) _ (v.in_quota j));
}

pub new_rate_limiter-IsValid :
    (limit interval : ℤ) → Is64 limit → IsValid (new_rate_limiter limit interval)
unfolding new_rate_limiter lookup
new_rate_limiter-IsValid limit interval f = record { fits = f; distinct = tt; in_quota = λ j. tt }
