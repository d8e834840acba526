-- ===== src/Prelude/Int.antt =====
-- Signed integers over the native numbers, and Go's `int` and `int64`: integers of 64 bits whose
-- sums wrap.
use ghost_guard.Prelude.Tests.{ltb, leb, if◌then◌else◌}
use Prim.Native.Nat.{ℕ, suc, ◌+◌, ◌-◌, ◌%◌, ◌^◌, ◌≤◌, ◌<◌}
use mathlib.Core.Path.{◌≡◌, refl}
use mathlib.Core.Bool.{Bool, ◌&&◌}
use native.Mathlib.Omega.{arith}

-- `negsuc n` is -(n + 1).
pub data ℤ : Type 0 where
  pos : ℕ → ℤ
  negsuc : ℕ → ℤ

abbrev pub pos_part : ℤ → ℕ
pos_part (pos n) = n
pos_part (negsuc n) = 0

abbrev pub neg_part : ℤ → ℕ
neg_part (pos n) = 0
neg_part (negsuc n) = suc n

-- a - b, as an integer.
abbrev pub sub_ℕ : ℕ → ℕ → ℤ
sub_ℕ a b = if leb b a then pos (a - b) else negsuc (b - a - 1)

infixl 65 ◌+ℤ◌ ◌-ℤ◌
infix 50 ◌≤ℤ◌ ◌<ℤ◌
unfoldable pub ◌+ℤ◌ : ℤ → ℤ → ℤ
a +ℤ b = sub_ℕ (pos_part a + pos_part b) (neg_part a + neg_part b)

unfoldable pub ◌-ℤ◌ : ℤ → ℤ → ℤ
a -ℤ b = sub_ℕ (pos_part a + neg_part b) (neg_part a + pos_part b)

abbrev pub ◌≤ℤ◌ : ℤ → ℤ → Type 0
a ≤ℤ b = pos_part a + neg_part b ≤ pos_part b + neg_part a

abbrev pub ◌<ℤ◌ : ℤ → ℤ → Type 0
a <ℤ b = pos_part a + neg_part b < pos_part b + neg_part a

abbrev pub ltb_ℤ : ℤ → ℤ → Bool
ltb_ℤ a b = ltb (pos_part a + neg_part b) (pos_part b + neg_part a)

abbrev pub leb_ℤ : ℤ → ℤ → Bool
leb_ℤ a b = leb (pos_part a + neg_part b) (pos_part b + neg_part a)

abbrev pub eqb_ℤ : ℤ → ℤ → Bool
eqb_ℤ a b = leb_ℤ a b && leb_ℤ b a

-- The value of 64 bits in two's complement that `a` is reduced to.
unfoldable pub wrap64 : ℤ → ℤ
wrap64 (pos n) =
    if ltb (n % 2 ^ 64) (2 ^ 63) then pos (n % 2 ^ 64) else negsuc (2 ^ 64 - 1 - n % 2 ^ 64)
wrap64 (negsuc n) =
    if ltb (n % 2 ^ 64) (2 ^ 63) then negsuc (n % 2 ^ 64) else pos (2 ^ 64 - 1 - n % 2 ^ 64)

abbrev pub Is64 : ℤ → Type 0
Is64 a = (pos_part a < 2 ^ 63) × (neg_part a ≤ 2 ^ 63)

-- `a + b` on Go's `int64`
unfoldable pub add64 : ℤ → ℤ → ℤ
unfolding wrap64 ◌+ℤ◌
add64 a b = wrap64 (a +ℤ b)

-- `a - b` on Go's `int64`
unfoldable pub sub64 : ℤ → ℤ → ℤ
unfolding wrap64 ◌-ℤ◌
sub64 a b = wrap64 (a -ℤ b)

pub +ℤ_parts :
    (a b : ℤ)
    → pos_part (a +ℤ b) + neg_part a + neg_part b ≡ neg_part (a +ℤ b) + pos_part a + pos_part b
unfolding ◌+ℤ◌
+ℤ_parts a b = ground arith

pub -ℤ_parts :
    (a b : ℤ)
    → pos_part (a -ℤ b) + neg_part a + pos_part b ≡ neg_part (a -ℤ b) + pos_part a + neg_part b
unfolding ◌-ℤ◌
-ℤ_parts a b = ground arith

pub eq_of_parts : (a b : ℤ) → pos_part a + neg_part b ≡ pos_part b + neg_part a → a ≡ b
eq_of_parts a b h = ground arith

pub ruleset int_laws = (arith, +ℤ_parts, -ℤ_parts, eq_of_parts)

pub wrap64-Is64 : (a : ℤ) → Is64 (wrap64 a)
unfolding wrap64
wrap64-Is64 (pos n) = ground arith
wrap64-Is64 (negsuc n) = ground arith

-- A value that fits is not changed.
pub wrap64_of_Is64 : (a : ℤ) → Is64 a → wrap64 a ≡ a
unfolding wrap64
wrap64_of_Is64 (pos n) h = ground arith
wrap64_of_Is64 (negsuc n) h = ground arith

pub add64_of_Is64 : (a b : ℤ) → Is64 (a +ℤ b) → add64 a b ≡ a +ℤ b
unfolding add64
add64_of_Is64 a b h = wrap64_of_Is64 (a +ℤ b) h

pub sub64_of_Is64 : (a b : ℤ) → Is64 (a -ℤ b) → sub64 a b ≡ a -ℤ b
unfolding sub64
sub64_of_Is64 a b h = wrap64_of_Is64 (a -ℤ b) h

pub add64-suc : (n : ℕ) → n < 2 ^ 63 - 1 → add64 (pos n) (pos 1) ≡ pos (n + 1)
unfolding add64 wrap64 ◌+ℤ◌
add64-suc n h = ground arith

-- A counter of 64 bits, as a function of what it has counted: it starts at `wrap64 (pos 0)`.
pub add64-wrap64 : (n k : ℕ) → add64 (wrap64 (pos n)) (wrap64 (pos k)) ≡ wrap64 (pos (n + k))
unfolding add64 wrap64 ◌+ℤ◌
add64-wrap64 n k = ground arith

pub add64-wrap64_one : (n : ℕ) → add64 (wrap64 (pos n)) (pos 1) ≡ wrap64 (pos (n + 1))
unfolding add64 wrap64 ◌+ℤ◌
add64-wrap64_one n = ground arith

wrap64_tests :
    (wrap64 (pos (2 ^ 63)) ≡ negsuc (2 ^ 63 - 1)) × (wrap64 (negsuc (2 ^ 63)) ≡ pos (2 ^ 63 - 1))
unfolding wrap64
wrap64_tests = (refl, refl)
