-- ===== src/Prelude/Int.antt =====
-- Go's signed `int` and `int64`: the integers over the native numbers, and the sum that wraps.
use Prim.Native.Nat.{ℕ, suc, ◌+◌, ◌-◌, ◌≤◌, ◌<◌}
use mathlib.Core.Path.{◌≡◌, refl}
use mathlib.Core.Bool.{Bool, false}
use native.Mathlib.Omega.{arith}
use llmgateway.Prelude.Tests.{ltb, leb, ◌==◌, if◌then◌else◌}

-- `negsuc n` is -(n + 1).
pub data ℤ : Type 0 where
  pos : ℕ → ℤ
  negsuc : ℕ → ℤ

abbrev pub pos_part : ℤ → ℕ
pos_part (pos n) = n
pos_part (negsuc n) = 0

abbrev pub neg_part : ℤ → ℕ
neg_part (pos n) = 0
neg_part (negsuc n) = suc n

-- a - b, as an integer.
abbrev pub sub_ℕ : ℕ → ℕ → ℤ
sub_ℕ a b = if leb b a then pos (a - b) else negsuc (b - a - 1)

infixl 65 ◌+ℤ◌
infixl 65 ◌-ℤ◌
infix 50 ◌≤ℤ◌
infix 50 ◌<ℤ◌
unfoldable pub ◌+ℤ◌ : ℤ → ℤ → ℤ
a +ℤ b = sub_ℕ (pos_part a + pos_part b) (neg_part a + neg_part b)

unfoldable pub ◌-ℤ◌ : ℤ → ℤ → ℤ
a -ℤ b = sub_ℕ (pos_part a + neg_part b) (neg_part a + pos_part b)

abbrev pub ◌≤ℤ◌ : ℤ → ℤ → Type 0
a ≤ℤ b = pos_part a + neg_part b ≤ pos_part b + neg_part a

abbrev pub ◌<ℤ◌ : ℤ → ℤ → Type 0
a <ℤ b = pos_part a + neg_part b < pos_part b + neg_part a

abbrev pub ltb_ℤ : ℤ → ℤ → Bool
ltb_ℤ a b = ltb (pos_part a + neg_part b) (pos_part b + neg_part a)

abbrev pub leb_ℤ : ℤ → ℤ → Bool
leb_ℤ a b = leb (pos_part a + neg_part b) (pos_part b + neg_part a)

-- `x > 0`, the test on every limit of the gateway.
abbrev pub is_pos : ℤ → Bool
is_pos a = ltb 0 (pos_part a)

abbrev pub is_zero : ℤ → Bool
is_zero (pos n) = n == 0
is_zero (negsuc n) = false

abbrev pub int64_half : ℕ
int64_half = 0x8000_0000_0000_0000

-- The value of a machine word, for a sum or difference of two of them.
unfoldable pub wrap_int64 : ℤ → ℤ
wrap_int64 (pos n) = if ltb n int64_half then pos n else sub_ℕ n (int64_half + int64_half)
wrap_int64 (negsuc n) = if ltb n int64_half then negsuc n else pos (int64_half + int64_half - 1 - n)

-- `a + b` on `int64`.
unfoldable pub add_int64 : ℤ → ℤ → ℤ
unfolding wrap_int64 ◌+ℤ◌
add_int64 a b = wrap_int64 (a +ℤ b)

abbrev pub inc : ℤ → ℤ
inc a = add_int64 a (pos 1)

abbrev pub dec : ℤ → ℤ
dec a = add_int64 a (negsuc 0)

-- The value fits a machine word.
abbrev pub IsInt64 : ℤ → Type 0
IsInt64 a = (pos_part a < int64_half) × (neg_part a ≤ int64_half)

pub add_int64-IsInt64 : (a b : ℤ) → IsInt64 a → IsInt64 b → IsInt64 (add_int64 a b)
unfolding add_int64
add_int64-IsInt64 a b ha hb = ground arith

-- Sums that fit are exact.
pub add_int64-pos : (m n : ℕ) → m + n < int64_half → add_int64 (pos m) (pos n) ≡ pos (m + n)
unfolding add_int64
add_int64-pos m n h = ground arith

pub inc-pos : (n : ℕ) → suc n < int64_half → inc (pos n) ≡ pos (suc n)
unfolding add_int64
inc-pos n h = ground arith

pub dec-pos : (n : ℕ) → n < int64_half → dec (pos (suc n)) ≡ pos n
unfolding add_int64
dec-pos n h = ground arith

-- The far end wraps to the other sign.
pub inc_max : inc (pos (int64_half - 1)) ≡ negsuc (int64_half - 1)
unfolding add_int64
inc_max = refl
