-- ===== src/Detector/Entropy.antt =====
-- internal/detector/entropy.go: the Shannon entropy of a text's characters. `order` is the order in
-- which one `range` over the map visits the counts.
pub mod Counts
use ghost_guard.Prelude.{
  ℕ, String, Bool, true, false, List, [], ◌∷◌, map, if◌then◌else◌, eqb, len, runes, length,
}
use ghost_guard.Prelude.Int.{ℤ, pos, eqb_ℤ, add64}
use ghost_guard.Runtime.{Runtime}

-- `freq[c]++`
unfoldable pub tally : ℕ → List (ℕ × ℤ) → List (ℕ × ℤ)
unfolding add64
tally c [] = (c, pos 1) ∷ []
tally c ((d, n) ∷ freq) = if eqb d c then (d, add64 n (pos 1)) ∷ freq else (d, n) ∷ tally c freq

-- `for _, c := range s { freq[c]++ }`
unfoldable pub tally_all : List ℕ → List (ℕ × ℤ) → List (ℕ × ℤ)
unfolding tally
tally_all [] freq = freq
tally_all (c ∷ cs) freq = tally_all cs (tally c freq)

module _ {F : Type 0} (rt : Runtime F) (order : List ℤ → List ℤ) where
  open rt use {of_int, tenths, sub, mul, div, log2, lt}

  -- The loop over the counts.
  unfoldable pub entropy_from : F → F → List ℤ → F
  entropy_from length entropy [] = entropy
  entropy_from length entropy (count ∷ counts) =
      let p = div (of_int count) length in
      entropy_from length (if eqb_ℤ count (pos 0) then entropy else sub entropy (mul p (log2 p)))
        counts

  unfoldable pub shannon_entropy : String → F
  unfolding tally_all entropy_from
  shannon_entropy s =
      if eqb (len s) 0
      then of_int (pos 0)
      else entropy_from (of_int (pos (length (runes s)))) (tenths (pos 0))
          (order (map (λ e. e.1) (tally_all (runes s) [])))

  unfoldable pub is_high_entropy : String → F → Bool
  unfolding shannon_entropy
  is_high_entropy s threshold = lt threshold (shannon_entropy s)

  unfoldable pub suspicious_entropy_level : String → String
  unfolding shannon_entropy
  suspicious_entropy_level s =
      let e = shannon_entropy s in
      if lt (tenths (pos 45)) e
      then "very_high"
      else if lt (tenths (pos 35)) e
      then "high"
      else if lt (tenths (pos 25)) e
      then "medium"
      else "low"
