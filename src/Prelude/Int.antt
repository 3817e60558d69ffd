-- ===== src/Prelude/Int.antt =====
-- Go's signed integers: ℤ over the native numbers, and the wrap-around of a 64-bit `int`.
use Prim.Native.Nat.{ℕ, suc, ◌+◌, ◌-◌, ◌%◌, ◌^◌, ◌≤◌, ◌<◌}
use mathlib.Core.Path.{◌≡◌, refl}
use mathlib.Core.Bool.{Bool}
use native.Mathlib.Omega.{arith}
use wego.Prelude.Tests.{ltb, leb, if◌then◌else◌}

-- `negsuc n` is -(n + 1).
pub data ℤ : Type 0 where
  pos : ℕ → ℤ
  negsuc : ℕ → ℤ

abbrev pub pos_part : ℤ → ℕ
pos_part (pos n) = n
pos_part (negsuc n) = 0

abbrev pub neg_part : ℤ → ℕ
neg_part (pos n) = 0
neg_part (negsuc n) = suc n

-- a - b, as an integer.
abbrev pub sub_ℕ : ℕ → ℕ → ℤ
sub_ℕ a b = if leb b a then pos (a - b) else negsuc (b - a - 1)

infix 50 ◌≤ℤ◌ ◌<ℤ◌
abbrev pub ◌≤ℤ◌ : ℤ → ℤ → Type 0
a ≤ℤ b = pos_part a + neg_part b ≤ pos_part b + neg_part a

abbrev pub ◌<ℤ◌ : ℤ → ℤ → Type 0
a <ℤ b = pos_part a + neg_part b < pos_part b + neg_part a

abbrev pub ltb_ℤ : ℤ → ℤ → Bool
ltb_ℤ a b = ltb (pos_part a + neg_part b) (pos_part b + neg_part a)

abbrev pub leb_ℤ : ℤ → ℤ → Bool
leb_ℤ a b = leb (pos_part a + neg_part b) (pos_part b + neg_part a)

-- `x > 0`
abbrev pub is_pos : ℤ → Bool
is_pos a = ltb 0 (pos_part a)

-- `x < 0`
abbrev pub is_neg : ℤ → Bool
is_neg a = ltb 0 (neg_part a)

-- The value that a 64-bit word stands for.
abbrev pub from_word : ℕ → ℤ
from_word u = if ltb u (2 ^ 63) then pos u else negsuc (2 ^ 64 - u - 1)

-- `a + b` of two 64-bit integers, which wraps around.
unfoldable pub add_int : ℤ → ℤ → ℤ
add_int a b =
    from_word ((pos_part a + (2 ^ 64 - neg_part a) + pos_part b + (2 ^ 64 - neg_part b)) % 2 ^ 64)

-- The range of a 64-bit integer.
abbrev pub InInt64 : ℤ → Type 0
InInt64 a = (pos_part a < 2 ^ 63) × (neg_part a ≤ 2 ^ 63)

-- Below the largest integer, one more does not wrap.
pub add_int-one : (n : ℕ) → n + 1 < 2 ^ 63 → add_int (pos n) (pos 1) ≡ pos (n + 1)
unfolding add_int
add_int-one n h = ground arith

-- At the largest integer, one more is the smallest.
pub add_int_wraps : add_int (pos (2 ^ 63 - 1)) (pos 1) ≡ negsuc (2 ^ 63 - 1)
unfolding add_int
add_int_wraps = refl

pub add_int-InInt64 : (a b : ℤ) → InInt64 (add_int a b)
unfolding add_int
add_int-InInt64 a b = ground arith
