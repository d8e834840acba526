-- ===== src/Detector/RateLimit/Cleanup.antt =====
-- The rounds of `cleanup` cannot be seen by `allow`.
use ghost_guard.Prelude.{
  String, Bool, ◌≡◌, refl, sym, ◌∙◌, Option, none, some, List, [], ◌∷◌, arith, ◌==◌, All,
  Bool-cases, inl, inr, ap,
}
use mathlib.Core.Path.{ap₂}
use ghost_guard.Prelude.Int.{ℤ, ◌≤ℤ◌}
use ghost_guard.Dict.{lookup}
use ghost_guard.Dict.Laws.{unless, lookup-delete_if}
use ghost_guard.Detector.RateLimit.{
  RateBucket, RateLimiter, fresh_bucket, allow, is_over, cleanup_tick,
}
use ghost_guard.Detector.RateLimit.Laws.{
  IsValid, step, allow-step, lookup-allow, limit-allow, interval-allow,
}
use ghost_guard.Detector.RateLimit.Quota.{Call}

-- The answers to a sequence of calls.
unfoldable pub answers : List Call → RateLimiter → List Bool
answers [] rl = []
answers ((now, k) ∷ cs) rl = (allow now k rl).1 ∷ answers cs (allow now k rl).0

-- The bucket of `key`, unless its window is over at `t`.
abbrev live : ℤ → String → RateLimiter → Option RateBucket
live t key rl = unless (is_over t) (lookup key rl.windows)

-- From `t` on, two limiters look the same.
record Agree (t : ℤ) (a b : RateLimiter) : Type 0 where
  same_limit : a.limit ≡ b.limit
  same_interval : a.interval ≡ b.interval
  same_live : (key : String) → live t key a ≡ live t key b

-- What a call at `t` or later does depends on the live bucket alone.
step-live :
    (t now : ℤ) (rl : RateLimiter) (o : Option RateBucket)
    → t ≤ℤ now
    → step now rl o ≡ step now rl (unless (is_over t) o)
step-live t now rl none h = refl
step-live t now rl (some b) h = ground arith

step-same :
    (now : ℤ) (a b : RateLimiter) (o : Option RateBucket)
    → a.limit ≡ b.limit
    → a.interval ≡ b.interval
    → step now a o ≡ step now b o
unfolding fresh_bucket
step-same now a b none p q = ground arith
step-same now a b (some x) p q = ground arith

step-Agree :
    (t now : ℤ) (k : String) (a b : RateLimiter)
    → t ≤ℤ now
    → Agree t a b
    → step now a (lookup k a.windows) ≡ step now b (lookup k b.windows)
step-Agree t now k a b h g =
    step-live t now a (lookup k a.windows) h
    ∙ ap (step now a) (g.same_live k)
    ∙ step-same now a b (live t k b) g.same_limit g.same_interval
    ∙ sym (step-live t now b (lookup k b.windows) h)

allow-Agree :
    (t now : ℤ) (k : String) (a b : RateLimiter)
    → t ≤ℤ now
    → Agree t a b
    → Agree t (allow now k a).0 (allow now k b).0
allow-Agree t now k a b h g = record {
  same_limit = limit-allow now k a ∙ g.same_limit ∙ sym (limit-allow now k b);
  same_interval = interval-allow now k a ∙ g.same_interval ∙ sym (interval-allow now k b);
  same_live = λ j.
      rw (lookup-allow now k j a, lookup-allow now k j b)
        (elim (Bool-cases (k == j)) [
          | inl same ↦
              rw same (ap (λ r. unless (is_over t) (some r.0)) (step-Agree t now k a b h g))
          | inr other ↦ rw other (g.same_live j)
        ]);
}

answers-Agree :
    (t : ℤ) (cs : List Call) (a b : RateLimiter)
    → All (λ c. t ≤ℤ c.0) cs
    → Agree t a b
    → answers cs a ≡ answers cs b
unfolding answers
answers-Agree t [] a b h g = refl
answers-Agree t ((now, k) ∷ cs) a b (h, hs) g =
    ap₂ ◌∷◌
      (allow-step now k a ∙ ap (λ r. r.1) (step-Agree t now k a b h g) ∙ sym (allow-step now k b))
      (answers-Agree t cs (allow now k a).0 (allow now k b).0 hs (allow-Agree t now k a b h g))

unless_twice : (p : RateBucket → Bool) (o : Option RateBucket) → unless p (unless p o) ≡ unless p o
unless_twice p none = refl
unless_twice p (some b) = ground arith

cleanup_tick-Agree : (t : ℤ) (rl : RateLimiter) → IsValid rl → Agree t (cleanup_tick t rl) rl
unfolding cleanup_tick
cleanup_tick-Agree t rl v = record {
  same_limit = refl;
  same_interval = refl;
  same_live = λ key.
      rw (lookup-delete_if (is_over t) key rl.windows v.distinct)
        (unless_twice (is_over t) (lookup key rl.windows));
}

-- A round of `cleanup` at `t` changes no answer of a valid limiter to any sequence of calls at `t` or
-- later.
pub answers-cleanup_tick :
    (t : ℤ) (cs : List Call) (rl : RateLimiter)
    → IsValid rl
    → All (λ c. t ≤ℤ c.0) cs
    → answers cs (cleanup_tick t rl) ≡ answers cs rl
answers-cleanup_tick t cs rl v h =
    answers-Agree t cs (cleanup_tick t rl) rl h (cleanup_tick-Agree t rl v)
