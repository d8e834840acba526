-- ===== src/Detector/Entropy/Counts.antt =====
-- The counts that the entropy is computed from.
use ghost_guard.Prelude.{
  ℕ, ◌+◌, ◌-◌, ◌≤◌, ◌<◌, ◌^◌, ◌≡◌, List, [], ◌∷◌, arith, eqb, length, All, if◌then◌else◌,
}
use ghost_guard.Prelude.Int.{ℤ, pos, pos_part, neg_part, add64, add64_of_Is64, +ℤ_parts}
use ghost_guard.Detector.Entropy.{tally, tally_all}

-- The sum of the counts.
abbrev pub total : List (ℕ × ℤ) → ℕ
total [] = 0
total ((c, n) ∷ freq) = pos_part n + total freq

abbrev pub IsPositive : ℕ × ℤ → Type 0
IsPositive e = (neg_part e.1 ≡ 0) × (1 ≤ pos_part e.1)

-- How often `c` occurs.
abbrev pub occurrences : ℕ → List ℕ → ℕ
occurrences c [] = 0
occurrences c (d ∷ cs) = (if eqb d c then 1 else 0) + occurrences c cs

-- The count of `c`, 0 where it has none.
abbrev pub count_of : ℕ → List (ℕ × ℤ) → ℕ
count_of c [] = 0
count_of c ((d, n) ∷ freq) = if eqb d c then pos_part n else count_of c freq

bump_lem :
    (n : ℤ)
    → neg_part n ≡ 0
    → pos_part n < 2 ^ 63 - 1
    → (neg_part (add64 n (pos 1)) ≡ 0) × (pos_part (add64 n (pos 1)) ≡ pos_part n + 1)
bump_lem n z h = ground (arith, add64_of_Is64 n (pos 1), +ℤ_parts n (pos 1))

tally-total :
    (c : ℕ) (freq : List (ℕ × ℤ))
    → All IsPositive freq
    → total freq + 1 < 2 ^ 63
    → (total (tally c freq) ≡ total freq + 1) × All IsPositive (tally c freq)
unfolding tally
tally-total c [] h r = ground arith
tally-total c ((d, n) ∷ freq) h r = ground (arith, tally-total c freq h.1, bump_lem n)

tally-count_of :
    (c d : ℕ) (freq : List (ℕ × ℤ))
    → All IsPositive freq
    → total freq + 1 < 2 ^ 63
    → count_of c (tally d freq) ≡ (if eqb d c then 1 else 0) + count_of c freq
unfolding tally
tally-count_of c d [] h r = ground arith
tally-count_of c d ((e, n) ∷ freq) h r = ground (arith, tally-count_of c d freq h.1, bump_lem n)

tally_all-sums :
    (cs : List ℕ) (freq : List (ℕ × ℤ))
    → All IsPositive freq
    → total freq + length cs < 2 ^ 63
    → (total (tally_all cs freq) ≡ total freq + length cs) × All IsPositive (tally_all cs freq)
unfolding tally_all
tally_all-sums [] freq h r = (omega arith, h)
tally_all-sums (c ∷ cs) freq h r =
    let (sum, pos') = tally-total c freq h (omega arith) in
    let (sum', h') = tally_all-sums cs (tally c freq) pos' (omega arith) in (omega arith, h')

tally_all-count_of :
    (c : ℕ) (cs : List ℕ) (freq : List (ℕ × ℤ))
    → All IsPositive freq
    → total freq + length cs < 2 ^ 63
    → count_of c (tally_all cs freq) ≡ occurrences c cs + count_of c freq
unfolding tally_all
tally_all-count_of c [] freq h r = omega arith
tally_all-count_of c (d ∷ cs) freq h r =
    let (sum, pos') = tally-total d freq h (omega arith) in
    omega (
      arith,
      tally_all-count_of c cs (tally d freq) pos' (omega arith),
      tally-count_of c d freq h (omega arith),
    )

-- For a text of less than 2 ^ 63 characters the map has for each character the number of its
-- occurrences, all counts that it holds are positive, and their sum is the number of characters.
pub tally_all-counts :
    (c : ℕ) (cs : List ℕ)
    → length cs < 2 ^ 63
    → (count_of c (tally_all cs []) ≡ occurrences c cs)
      × (total (tally_all cs []) ≡ length cs)
      × All IsPositive (tally_all cs [])
tally_all-counts c cs h =
    let (sum, positive) = tally_all-sums cs [] tt (omega arith) in
    (omega (arith, tally_all-count_of c cs [] tt (omega arith)), omega arith, positive)
