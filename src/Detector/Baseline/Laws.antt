-- ===== src/Detector/Baseline/Laws.antt =====
-- The extremes that the baseline keeps.
use ghost_guard.Prelude.{
  Bool, true, false, ◌≡◌, refl, List, [], ◌∷◌, arith, if◌then◌else◌, All, ◌⊎◌, inl, inr,
}
use mathlib.Core.List.{Memᴰ}
use ghost_guard.Prelude.Int.{ℤ}
use ghost_guard.Runtime.{Runtime}
use ghost_guard.Detector.Baseline.{Baseline, new_baseline, update}

-- What IEEE 754 says of `<`, not-a-numbers included.
pub record IsOrder {F : Type 0} (rt : Runtime F) : Type 0 where
  pub irrefl : (a : F) → rt.lt a a ≡ false
  pub trans : (a b c : F) → rt.lt a b ≡ true → rt.lt b c ≡ true → rt.lt a c ≡ true

module _ {F : Type 0} (rt : Runtime F) (law : IsOrder rt) where
  -- The updates by a list of readings and values.
  unfoldable pub update_all : List (ℤ × F) → Baseline F → Baseline F
  update_all [] b = b
  update_all ((now, v) ∷ vs) b = update_all vs (update rt now v b)

  -- No value is below the least one kept, nor above the greatest.
  abbrev pub Within : Baseline F → ℤ × F → Type 0
  Within b v = (rt.lt v.1 b.min ≡ false) × (rt.lt b.max v.1 ≡ false)

  update-Within :
      (now : ℤ) (v : F) (b : Baseline F) (w : ℤ × F) → Within b w → Within (update rt now v b) w
  unfolding update
  update-Within now v b w h = ground (arith, law.trans w.1 v b.min, law.trans b.max v w.1)

  update-Within_self : (now : ℤ) (v : F) (b : Baseline F) → Within (update rt now v b) (now, v)
  unfolding update
  update-Within_self now v b = ground (arith, law.irrefl v)

  update_all-Within :
      (vs : List (ℤ × F)) (b : Baseline F) (w : ℤ × F) → Within b w → Within (update_all vs b) w
  unfolding update_all
  update_all-Within [] b w h = h
  update_all-Within ((now, v) ∷ vs) b w h =
      update_all-Within vs (update rt now v b) w (update-Within now v b w h)

  All-Within : (vs : List (ℤ × F)) (b : Baseline F) → All (Within (update_all vs b)) vs
  unfolding update_all
  All-Within [] b = tt
  All-Within ((now, v) ∷ vs) b = (
    update_all-Within vs (update rt now v b) (now, v) (update-Within_self now v b),
    All-Within vs (update rt now v b),
  )

  -- One of the values, or what was there before.
  abbrev pub IsFrom : F → List (ℤ × F) → F → Type 0
  IsFrom old vs x = (x ≡ old) ⊎ ((now : ℤ) × Memᴰ (now, x) vs)

  IsFrom-weaken :
      (old x : F) (v : ℤ × F) (vs : List (ℤ × F)) → IsFrom old vs x → IsFrom old (v ∷ vs) x
  IsFrom-weaken old x v vs (inl e) = inl e
  IsFrom-weaken old x v vs (inr (now, m)) = inr (now, Memᴰ.tail m)

  -- A new extreme is the first value or the old extreme, so what is from it is from those.
  IsFrom-step :
      (old x : F) (test : Bool) (now : ℤ) (v : F) (vs : List (ℤ × F))
      → IsFrom (if test then v else old) vs x
      → IsFrom old ((now, v) ∷ vs) x
  IsFrom-step old x true now v vs (inl e) = inr (now, rw e (Memᴰ.head refl))
  IsFrom-step old x true now v vs (inr (t, m)) = inr (t, Memᴰ.tail m)
  IsFrom-step old x false now v vs h = IsFrom-weaken old x (now, v) vs h

  update_all-IsFrom :
      (vs : List (ℤ × F)) (b : Baseline F)
      → IsFrom b.min vs (update_all vs b).min × IsFrom b.max vs (update_all vs b).max
  unfolding update_all update
  update_all-IsFrom [] b = (inl refl, inl refl)
  update_all-IsFrom ((now, v) ∷ vs) b =
      let b' = update rt now v b in
      let (least, greatest) = update_all-IsFrom vs b' in
      (
        IsFrom-step b.min (update_all vs b').min (rt.lt v b.min) now v vs least,
        IsFrom-step b.max (update_all vs b').max (rt.lt b.max v) now v vs greatest,
      )

  -- If `<` is irreflexive and transitive: after a new baseline was updated by the values, no value is
  -- below its `min` or above its `max`, and each of these is one of the values or what a new baseline
  -- has.
  pub update_all-new_baseline :
      (vs : List (ℤ × F))
      → All (Within (update_all vs (new_baseline rt))) vs
        × IsFrom rt.max_float vs (update_all vs (new_baseline rt)).min
        × IsFrom (rt.neg rt.max_float) vs (update_all vs (new_baseline rt)).max
  unfolding new_baseline
  update_all-new_baseline vs =
      let (least, greatest) = update_all-IsFrom vs (new_baseline rt) in
      (All-Within vs (new_baseline rt), least, greatest)
