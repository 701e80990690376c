-- ===== src/Common/Int.antt =====
-- Go's `int` and `int64` values as integers, with the wrap-around of a product written out.
-- `negsuc n` is -(n + 1).
use Prim.Native.Nat.{ℕ, suc, ◌+◌, ◌-◌, ◌*◌, ◌%◌, ◌^◌, ◌≤◌, ◌<◌}
use mathlib.Core.Path.{◌≡◌, refl}
use mathlib.Core.Bool.{Bool, ◌&&◌}
use native.Mathlib.Omega.{arith}
use bonipam.Common.Tests.{ltb, leb, if◌then◌else◌}

pub data ℤ : Type 0 where
  pos : ℕ → ℤ
  negsuc : ℕ → ℤ

abbrev pub pos_part : ℤ → ℕ
pos_part (pos n) = n
pos_part (negsuc n) = 0

abbrev pub neg_part : ℤ → ℕ
neg_part (pos n) = 0
neg_part (negsuc n) = suc n

-- a - b, as an integer.
abbrev pub sub_ℕ : ℕ → ℕ → ℤ
sub_ℕ a b = if leb b a then pos (a - b) else negsuc (b - a - 1)

infixl 65 ◌+ℤ◌
unfoldable pub ◌+ℤ◌ : ℤ → ℤ → ℤ
a +ℤ b = sub_ℕ (pos_part a + pos_part b) (neg_part a + neg_part b)

-- The order as a Boolean test, and as a type.
abbrev pub ltb_ℤ : ℤ → ℤ → Bool
ltb_ℤ a b = ltb (pos_part a + neg_part b) (pos_part b + neg_part a)

abbrev pub leb_ℤ : ℤ → ℤ → Bool
leb_ℤ a b = leb (pos_part a + neg_part b) (pos_part b + neg_part a)

abbrev pub eq_ℤ : ℤ → ℤ → Bool
eq_ℤ a b = leb_ℤ a b && leb_ℤ b a

infix 50 ◌≤ℤ◌ ◌<ℤ◌
abbrev pub ◌≤ℤ◌ : ℤ → ℤ → Type 0
a ≤ℤ b = pos_part a + neg_part b ≤ pos_part b + neg_part a

abbrev pub ◌<ℤ◌ : ℤ → ℤ → Type 0
a <ℤ b = pos_part a + neg_part b < pos_part b + neg_part a

-- The int64 that a two's complement bit pattern below 2 ^ 64 stands for.
signed_64 : ℕ → ℤ
signed_64 r = if ltb r (2 ^ 63) then pos r else negsuc (2 ^ 64 - r - 1)

wrap_int64 : ℤ → ℤ
unfolding signed_64
wrap_int64 (pos n) = signed_64 (n % 2 ^ 64)
wrap_int64 (negsuc n) = signed_64 (2 ^ 64 - 1 - n % 2 ^ 64)

scale : ℕ → ℤ → ℤ
scale k (pos n) = pos (k * n)
scale k (negsuc n) = negsuc (k * n + (k - 1))

-- `time.Duration(n) * time.Second`: a product of int64 values, in nanoseconds.
unfoldable pub seconds : ℤ → ℤ
unfolding wrap_int64 scale
seconds n = wrap_int64 (scale 1000000000 n)

-- Below 2 ^ 33 seconds nothing wraps.
pub seconds_exact : (n : ℕ) → n < 2 ^ 33 → seconds (pos n) ≡ pos (1000000000 * n)
unfolding seconds
seconds_exact n h = ground arith

seconds_wraps : seconds (pos 9223372037) ≡ negsuc 9223372036709551615
unfolding seconds
seconds_wraps = refl
