-- ===== src/Detector/Window.antt =====
-- internal/detector/window.go: calls counted by tool and interval. A method that changes
-- `*SlidingWindow` returns the new record; `now` is the reading of the clock that it takes.
pub mod Laws
use ghost_guard.Prelude.{
  ℕ, zero, suc, ◌+◌, ◌-◌, ◌%◌, String, Bool, ◌&&◌, Option, none, some, List, [], ◌∷◌, if◌then◌else◌,
  ltb, ◌&◌, len, starts_with,
}
use ghost_guard.Prelude.Int.{ℤ, pos, negsuc, ◌-ℤ◌, ltb_ℤ, add64}
use ghost_guard.Dict.{Dict, lookup, insert, delete_if}

pub record WindowBucket : Type 0 where
  pub count : ℤ  -- int64
  pub first_seen : ℤ
  pub last_seen : ℤ

pub record SlidingWindow : Type 0 where
  pub windows : Dict WindowBucket
  pub interval : ℤ
  pub max_age : ℤ

-- NewSlidingWindow; the goroutine `cleanup` that it starts is `cleanup_tick` below. Its ticker panics at an
-- interval of zero or below, so that the program goes on with a positive one only.
unfoldable pub new_sliding_window : ℤ → ℤ → SlidingWindow
new_sliding_window interval max_age = record {
  windows = [];
  interval = interval;
  max_age = max_age;
}

-- t.Truncate(d): down to a multiple of `d` since the zero time; `t` itself if `d` is not positive.
unfoldable pub truncate : ℤ → ℤ → ℤ
truncate t (pos zero) = t
truncate (pos n) (pos (suc d)) = pos (n - n % suc d)
truncate (negsuc n) (pos (suc d)) = negsuc (n + (d - n % suc d))
truncate t (negsuc d) = t

-- The zero bucket with its first reading, or the one that is there.
abbrev pub found_or_new : ℤ → Option WindowBucket → WindowBucket
found_or_new now none = record { count = pos 0; first_seen = now; last_seen = pos 0 }
found_or_new now (some b) = b

-- `bucket.Count++; bucket.LastSeen = now`
unfoldable pub touch : ℤ → WindowBucket → WindowBucket
unfolding add64
touch now b = record b { count = add64 b.count (pos 1); last_seen = now }

module _ (rfc3339 : ℤ → String) where
  -- `key + ":" + bucketKey`
  unfoldable pub full_key : ℤ → String → SlidingWindow → String
  unfolding truncate
  full_key now key sw = key & ":" & rfc3339 (truncate now sw.interval)

  -- Record: the new window, and the bucket's count.
  unfoldable pub record_call : ℤ → String → SlidingWindow → SlidingWindow × ℤ
  unfolding full_key touch lookup
  record_call now key sw =
      let k = full_key now key sw in
      let bucket = touch now (found_or_new now (lookup k sw.windows)) in
      (record sw { windows = insert k bucket sw.windows }, bucket.count)

-- `len(fullKey) > len(prefix) && fullKey[:len(prefix)] == prefix`
unfoldable pub is_of : String → String → Bool
is_of key k = let prefix = key & ":" in ltb (len prefix) (len k) && starts_with k prefix

-- The loop of `Count`, over the entries in the order in which it visits them.
unfoldable pub count_from : ℤ → String → Dict WindowBucket → ℤ → ℤ
unfolding is_of add64
count_from cutoff key [] total = total
count_from cutoff key ((k, b) ∷ m) total =
    count_from cutoff key m (
      if ltb_ℤ b.last_seen cutoff
      then total
      else if is_of key k
      then add64 total b.count
      else total)

unfoldable pub count : ℤ → String → SlidingWindow → ℤ
unfolding count_from ◌-ℤ◌
count now key sw = count_from (now -ℤ sw.max_age) key sw.windows (pos 0)

-- One round of the loop of `cleanup`, at a tick.
unfoldable pub cleanup_tick : ℤ → SlidingWindow → SlidingWindow
unfolding ◌-ℤ◌
cleanup_tick now sw =
    let cutoff = now -ℤ sw.max_age in
    record sw { windows = delete_if (λ b. ltb_ℤ b.last_seen cutoff) sw.windows }
