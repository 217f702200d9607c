-- ===== src/Common/Int.antt =====
-- Signed integers over the native numbers, under the library's names (its ℤ stands on the unary ℕ).
use Prim.Native.Nat.{ℕ, suc, ◌+◌, ◌-◌, ◌*◌, ◌%◌, ◌^◌, ◌≤◌, ◌<◌}
use mathlib.Core.Path.{◌≡◌}
use native.Mathlib.Omega.{arith}
use mathlib.Core.Bool.{Bool, true, false}
use c_capnproto.Common.Tests.{ltb, leb, if◌then◌else◌}

-- `negsuc n` is -(n + 1).
pub data ℤ : Type 0 where
  pos : ℕ → ℤ
  negsuc : ℕ → ℤ

abbrev pub pos_part : ℤ → ℕ
pos_part (pos n) = n
pos_part (negsuc n) = 0

abbrev pub neg_part : ℤ → ℕ
neg_part (pos n) = 0
neg_part (negsuc n) = suc n

-- a - b, as an integer.
abbrev pub sub_ℕ : ℕ → ℕ → ℤ
sub_ℕ a b = if leb b a then pos (a - b) else negsuc (b - a - 1)

infixl 65 ◌+ℤ◌
abbrev pub ◌+ℤ◌ : ℤ → ℤ → ℤ
a +ℤ b = sub_ℕ (pos_part a + pos_part b) (neg_part a + neg_part b)

-- a * n for a factor that is not negative.
abbrev pub scale : ℤ → ℕ → ℤ
scale a n = sub_ℕ (pos_part a * n) (neg_part a * n)

abbrev pub is_neg : ℤ → Bool
is_neg (pos n) = false
is_neg (negsuc n) = true

-- `(int) n` of a `uint32_t`.
abbrev pub to_int : ℕ → ℤ
to_int n = if ltb n (2 ^ 31) then pos n else negsuc (2 ^ 32 - n - 1)

-- An `int`: its 32 bits wrap around.
unfoldable pub wrap_int : ℤ → ℤ
wrap_int (pos n) = to_int (n % 2 ^ 32)
wrap_int (negsuc n) = to_int (2 ^ 32 - 1 - n % 2 ^ 32)

pub wrap_int-small : (n : ℕ) → n < 2 ^ 31 → wrap_int (pos n) ≡ pos n
unfolding wrap_int
wrap_int-small n h = ground arith

-- A number that has one bit too many is negative.
pub wrap_int-big : (n : ℕ) → 2 ^ 31 ≤ n → n < 2 ^ 32 → wrap_int (pos n) ≡ negsuc (2 ^ 32 - n - 1)
unfolding wrap_int
wrap_int-big n h g = ground arith

pub wrap_int-negative : (n : ℕ) → n < 2 ^ 31 → wrap_int (negsuc n) ≡ negsuc n
unfolding wrap_int
wrap_int-negative n h = ground arith
