-- ===== src/Detector/RateLimit/Quota.antt =====
-- How many calls a window lets through, over any sequence of calls of any keys.
use Prim.Native.Nat.{min}
use ghost_guard.Prelude.{
  ℕ, String, true, false, ◌≡◌, Option, none, some, List, [], ◌∷◌, arith, ◌==◌, eq_iff, eq_refl,
  if◌then◌else◌, ◌&&◌, ◌+◌, ◌-◌, All, Bool-cases, inl, inr,
}
use ghost_guard.Prelude.Int.{
  ℤ, pos, pos_part, ◌≤ℤ◌, ◌<ℤ◌, ◌+ℤ◌, ltb_ℤ, leb_ℤ, sub64_of_Is64, -ℤ_parts,
}
use ghost_guard.Dict.{lookup}
use ghost_guard.Detector.RateLimit.{RateBucket, RateLimiter, fresh_bucket, bump, allow, remaining}
use ghost_guard.Detector.RateLimit.Laws.{
  quota, InQuota, IsValid, bump_lem, allow-step, lookup-allow, limit-allow, allow-IsValid,
}

-- A call of `allow`: the reading of the clock, and the key.
abbrev pub Call : Type 0
Call = ℤ × String

-- How many calls of `key` there are, and how many of them are let through.
abbrev pub calls : String → List Call → ℕ
calls key [] = 0
calls key ((now, k) ∷ cs) = (if k == key then 1 else 0) + calls key cs

unfoldable pub admitted : String → List Call → RateLimiter → ℕ
admitted key [] rl = 0
admitted key ((now, k) ∷ cs) rl =
    (if k == key && (allow now k rl).1 then 1 else 0) + admitted key cs (allow now k rl).0

-- Every call of `key` comes at `end` or before.
abbrev pub Until : String → ℤ → List Call → Type 0
Until key end = All (λ c. (c.1 == key) ≡ true → c.0 ≤ℤ end)

-- No window of `key` is open at `now`.
abbrev pub IsClosed : ℤ → Option RateBucket → Type 0
IsClosed now none = Unit
IsClosed now (some b) = b.reset_at <ℤ now

-- A window that is open answers by the counter, and goes on from the bucket or the bumped one.
open_step :
    (now : ℤ) (key : String) (rl : RateLimiter) (b : RateBucket)
    → lookup key rl.windows ≡ some b
    → now ≤ℤ b.reset_at
    → ((allow now key rl).1 ≡ (if leb_ℤ rl.limit b.count then false else true))
      × (lookup key (allow now key rl).0.windows
          ≡ some (if leb_ℤ rl.limit b.count then b else bump b))
unfolding allow
open_step now key rl b found u =
    ground (arith, lookup-allow now key key rl, eq_refl key, allow-step now key rl)

other_step :
    (now : ℤ) (key k : String) (rl : RateLimiter)
    → (k == key) ≡ false
    → lookup key (allow now k rl).0.windows ≡ lookup key rl.windows
other_step now key k rl other = rw (lookup-allow now k key rl, other)

module _ (key : String) where
  admitted_open :
      (cs : List Call) (rl : RateLimiter) (b : RateBucket)
      → IsValid rl
      → lookup key rl.windows ≡ some b
      → Until key b.reset_at cs
      → admitted key cs rl ≡ min (calls key cs) (quota rl.limit - pos_part b.count)
  unfolding admitted bump
  admitted_open [] rl b v found u = omega arith
  admitted_open ((now, k) ∷ cs) rl b v found (u, us) = elim (Bool-cases (k == key)) [
    | inl same ↦
        let e = (eq_iff k key).0 same in
        let here : lookup k rl.windows ≡ some b = rw e found in
        let inside : InQuota rl.limit (some b) = rw here at (v.in_quota k) in
        let (answer, next) = open_step now k rl b here (u same) in
        let v' = allow-IsValid now k rl v in
        let next' : lookup key (allow now k rl).0.windows
            ≡ some (if leb_ℤ rl.limit b.count then b else bump b) =
          rw (← e) next in
        elim (Bool-cases (leb_ℤ rl.limit b.count)) [
          | inl full ↦ ground (
            arith,
            limit-allow now k rl,
            admitted_open cs (allow now k rl).0 b v' (rw full at next') us,
          )
          | inr room ↦ ground (
            arith,
            limit-allow now k rl,
            bump_lem rl.limit b v.fits,
            admitted_open cs (allow now k rl).0 (bump b) v' (rw room at next') us,
          )
        ]
    | inr other ↦
        let next : lookup key (allow now k rl).0.windows ≡ some b =
          rw (other_step now key k rl other) found in
        ground (
          arith,
          limit-allow now k rl,
          admitted_open cs (allow now k rl).0 b (allow-IsValid now k rl v) next us,
        )
  ]

closed_step :
    (now : ℤ) (key : String) (rl : RateLimiter)
    → IsClosed now (lookup key rl.windows)
    → ((allow now key rl).1 ≡ true)
      × (lookup key (allow now key rl).0.windows ≡ some (fresh_bucket now rl))
closed_step now key rl closed =
    ground (arith, lookup-allow now key key rl, eq_refl key, allow-step now key rl)

-- In a valid limiter a call that finds no open window for its key opens one; of it and the calls up to
-- the window's end, those of other keys among them, as many calls of the key are let through as there
-- are, up to the limit, or one where the limit is below one.
pub admitted-window :
    (key : String) (now : ℤ) (cs : List Call) (rl : RateLimiter)
    → IsValid rl
    → IsClosed now (lookup key rl.windows)
    → Until key (now +ℤ rl.interval) cs
    → admitted key ((now, key) ∷ cs) rl ≡ min (calls key ((now, key) ∷ cs)) (quota rl.limit)
unfolding admitted fresh_bucket
admitted-window key now cs rl v closed u =
    let (answer, next) = closed_step now key rl closed in
    ground (
      arith,
      eq_refl key,
      limit-allow now key rl,
      admitted_open key cs (allow now key rl).0 (fresh_bucket now rl) (allow-IsValid now key rl v)
          next u,
    )

-- Inside an open window of a valid limiter whose limit is not negative, `allow` says yes exactly
-- when `remaining` is positive.
pub allow-remaining :
    (now : ℤ) (key : String) (rl : RateLimiter) (b : RateBucket)
    → IsValid rl
    → pos 0 ≤ℤ rl.limit
    → lookup key rl.windows ≡ some b
    → now ≤ℤ b.reset_at
    → (allow now key rl).1 ≡ ltb_ℤ (pos 0) (remaining key rl)
unfolding remaining
allow-remaining now key rl b v nonneg found u =
    let inside : InQuota rl.limit (some b) = rw found at (v.in_quota key) in
    let (answer, next) = open_step now key rl b found u in
    ground (arith, sub64_of_Is64 rl.limit b.count, -ℤ_parts rl.limit b.count)
