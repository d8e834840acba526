-- ===== src/Detector/Window/Laws.antt =====
-- What `Record` counts over any sequence of calls, and the keys of the map.
use ghost_guard.Prelude.{
  ℕ, ◌+◌, ◌-◌, ◌<◌, ◌≤◌, ◌^◌, String, ◌≡◌, refl, ◌∙◌, ap, Option, none, some, List, [], ◌∷◌, arith,
  ◌==◌, eq_iff, ◌&◌, if◌then◌else◌, length,
}
use ghost_guard.Prelude.Int.{ℤ, pos, pos_part, neg_part, add64, add64-suc, eq_of_parts}
use ghost_guard.Dict.{lookup}
use ghost_guard.Dict.Laws.{lookup-insert}
use ghost_guard.Detector.Window.{
  WindowBucket, SlidingWindow, new_sliding_window, found_or_new, touch, full_key, record_call,
  truncate,
}

-- The count of the bucket at a full key; 0 where there is none.
abbrev pub counted : Option WindowBucket → ℤ
counted none = pos 0
counted (some b) = b.count

count-found_or_new : (now : ℤ) (o : Option WindowBucket) → (found_or_new now o).count ≡ counted o
count-found_or_new now none = refl
count-found_or_new now (some b) = refl

module _ (rfc3339 : ℤ → String) where
  record_call-count :
      (now : ℤ) (key : String) (sw : SlidingWindow)
      → (record_call rfc3339 now key sw).1
        ≡ add64 (counted (lookup (full_key rfc3339 now key sw) sw.windows)) (pos 1)
  unfolding record_call touch
  record_call-count now key sw =
      ap (λ n. add64 n (pos 1))
        (count-found_or_new now (lookup (full_key rfc3339 now key sw) sw.windows))

  lookup-record_call :
      (now : ℤ) (key k : String) (sw : SlidingWindow)
      → counted (lookup k (record_call rfc3339 now key sw).0.windows) ≡ (
          if full_key rfc3339 now key sw == k
          then (record_call rfc3339 now key sw).1
          else counted (lookup k sw.windows))
  unfolding record_call
  lookup-record_call now key k sw =
      let fk = full_key rfc3339 now key sw in
      let b = touch now (found_or_new now (lookup fk sw.windows)) in
      rw (lookup-insert fk k b sw.windows) (ground arith)

  interval-record_call :
      (now : ℤ) (key : String) (sw : SlidingWindow)
      → (record_call rfc3339 now key sw).0.interval ≡ sw.interval
  unfolding record_call
  interval-record_call now key sw = refl

  -- A call: the clock, and the tool. The calls are recorded one after the other.
  unfoldable pub record_all : List (ℤ × String) → SlidingWindow → SlidingWindow
  record_all [] sw = sw
  record_all ((now, key) ∷ cs) sw = record_all cs (record_call rfc3339 now key sw).0

  -- How many of the calls have the full key `k` in a window of this interval.
  abbrev pub occurrences : ℤ → String → List (ℤ × String) → ℕ
  occurrences interval k [] = 0
  occurrences interval k ((now, key) ∷ cs) =
      (if key & ":" & rfc3339 (truncate now interval) == k then 1 else 0)
      + occurrences interval k cs

  -- A count that `n` calls can have brought about.
  abbrev pub IsBelow : ℕ → ℤ → Type 0
  IsBelow n c = (neg_part c ≡ 0) × (pos_part c ≤ n)

  record_call_suc :
      (now : ℤ) (key : String) (sw : SlidingWindow) (n : ℕ)
      → ((j : String) → IsBelow n (counted (lookup j sw.windows)))
      → n + 1 < 2 ^ 63
      → (record_call rfc3339 now key sw).1
        ≡ pos (pos_part (counted (lookup (full_key rfc3339 now key sw) sw.windows)) + 1)
  record_call_suc now key sw n inv h =
      let m = counted (lookup (full_key rfc3339 now key sw) sw.windows) in
      let below = inv (full_key rfc3339 now key sw) in
      let whole : m ≡ pos (pos_part m) = eq_of_parts m (pos (pos_part m)) (omega arith) in
      record_call-count now key sw
      ∙ ap (λ z. add64 z (pos 1)) whole
      ∙ add64-suc (pos_part m) (omega arith)

  counted-record_all :
      (k : String) (cs : List (ℤ × String)) (sw : SlidingWindow) (n : ℕ)
      → ((j : String) → IsBelow n (counted (lookup j sw.windows)))
      → n + length cs < 2 ^ 63
      → counted (lookup k (record_all cs sw).windows)
        ≡ pos (occurrences sw.interval k cs + pos_part (counted (lookup k sw.windows)))
  unfolding record_all full_key
  counted-record_all k [] sw n inv h =
      eq_of_parts (counted (lookup k sw.windows))
        (pos (0 + pos_part (counted (lookup k sw.windows)))) (omega (arith, inv k))
  counted-record_all k ((now, key) ∷ cs) sw n inv h =
      let sw' = (record_call rfc3339 now key sw).0 in
      let one_more = record_call_suc now key sw n inv (omega arith) in
      let fk = full_key rfc3339 now key sw in
      let inv' : (j : String) → IsBelow (n + 1) (counted (lookup j sw'.windows)) =
        λ j. ground (arith, lookup-record_call now key j sw, one_more, inv j, inv fk) in
      counted-record_all k cs sw' (n + 1) inv' (omega arith)
      ∙ rw (lookup-record_call now key k sw, interval-record_call now key sw, one_more)
          (ground (arith, eq_iff fk k))

  interval-record_all :
      (cs : List (ℤ × String)) (sw : SlidingWindow) → (record_all cs sw).interval ≡ sw.interval
  unfolding record_all
  interval-record_all [] sw = refl
  interval-record_all ((now, key) ∷ cs) sw =
      interval-record_all cs (record_call rfc3339 now key sw).0 ∙ interval-record_call now key sw

  occurrences-le :
      (interval : ℤ) (k : String) (cs : List (ℤ × String)) → occurrences interval k cs ≤ length cs
  occurrences-le interval k [] = omega arith
  occurrences-le interval k ((now, key) ∷ cs) = ground (arith, occurrences-le interval k cs)

  -- In a window that began empty and that no round of `cleanup` has visited, a call's recorded
  -- count is the number of calls, it included, that have had its full key, if there were fewer than
  -- 2 ^ 63 of them.
  pub record_call-record_all :
      (interval max_age now : ℤ) (key : String) (cs : List (ℤ × String))
      → length cs < 2 ^ 63 - 1
      → (record_call rfc3339 now key (record_all cs (new_sliding_window interval max_age))).1
        ≡ pos (occurrences interval (key & ":" & rfc3339 (truncate now interval)) cs + 1)
  unfolding new_sliding_window full_key lookup
  record_call-record_all interval max_age now key cs h =
      let empty = new_sliding_window interval max_age in
      let after = record_all cs empty in
      let k = key & ":" & rfc3339 (truncate now interval) in
      let n = occurrences interval k cs in
      let fits : n + 0 < 2 ^ 63 - 1 = omega (arith, occurrences-le interval k cs) in
      let shorter : pos (n + 0 + 1) ≡ pos (n + 1) = ground arith in
      record_call-count now key after
      ∙ ap
          (λ i.
            add64 (counted (lookup (key & ":" & rfc3339 (truncate now i)) after.windows)) (pos 1))
          (interval-record_all cs empty)
      ∙ ap (λ z. add64 z (pos 1)) (counted-record_all k cs empty 0 (λ j. omega arith) (omega arith))
      ∙ add64-suc (n + 0) fits
      ∙ shorter
