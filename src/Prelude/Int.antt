-- ===== src/Prelude/Int.antt =====
-- Signed integers over the native numbers, and int64 arithmetic that wraps.
use Prim.Native.Nat.{ℕ, suc, ◌+◌, ◌-◌, ◌*◌, ◌%◌, ◌<◌, ◌≤◌}
use mathlib.Core.Path.{◌≡◌}
use mathlib.Core.Bool.{Bool}
use native.Mathlib.Omega.{arith}
use synp.Prelude.Tests.{ltb, leb, if◌then◌else◌}

-- `negsuc n` is -(n + 1).
pub data ℤ : Type 0 where
  pos : ℕ → ℤ
  negsuc : ℕ → ℤ

abbrev pub pos_part : ℤ → ℕ
pos_part (pos n) = n
pos_part (negsuc n) = 0

abbrev pub neg_part : ℤ → ℕ
neg_part (pos n) = 0
neg_part (negsuc n) = suc n

-- a - b, as an integer.
abbrev pub sub_ℕ : ℕ → ℕ → ℤ
sub_ℕ a b = if leb b a then pos (a - b) else negsuc (b - a - 1)

infixl 65 ◌+ℤ◌ ◌-ℤ◌
infixl 70 ◌*ℤ◌
unfoldable pub ◌+ℤ◌ : ℤ → ℤ → ℤ
a +ℤ b = sub_ℕ (pos_part a + pos_part b) (neg_part a + neg_part b)

unfoldable pub ◌-ℤ◌ : ℤ → ℤ → ℤ
a -ℤ b = sub_ℕ (pos_part a + neg_part b) (neg_part a + pos_part b)

abbrev pub ltb_ℤ : ℤ → ℤ → Bool
ltb_ℤ a b = ltb (pos_part a + neg_part b) (pos_part b + neg_part a)

abbrev pub leb_ℤ : ℤ → ℤ → Bool
leb_ℤ a b = leb (pos_part a + neg_part b) (pos_part b + neg_part a)

-- 2^63, and the result of an int64 sum or difference, which lies within 2^64 of the range.
abbrev pub int64_half : ℕ
int64_half = 9223372036854775808

unfoldable pub wrap64 : ℤ → ℤ
wrap64 (pos n) = if ltb n int64_half then pos n else sub_ℕ n (int64_half + int64_half)
wrap64 (negsuc n) = if ltb n int64_half then negsuc n else sub_ℕ (int64_half + int64_half) (suc n)

unfoldable pub add64 : ℤ → ℤ → ℤ
unfolding wrap64 ◌+ℤ◌
add64 a b = wrap64 (a +ℤ b)

unfoldable pub sub64 : ℤ → ℤ → ℤ
unfolding wrap64 ◌-ℤ◌
sub64 a b = wrap64 (a -ℤ b)

pub add64-pos : (m n : ℕ) → m + n < int64_half → add64 (pos m) (pos n) ≡ pos (m + n)
unfolding add64
add64-pos m n h = ground arith

pub sub64-pos : (m n : ℕ) → m < int64_half → n ≤ m → sub64 (pos m) (pos n) ≡ pos (m - n)
unfolding sub64
sub64-pos m n h k = ground arith

-- The int64 product, which wraps as often as it takes.
abbrev pub int64_mod : ℕ
int64_mod = 18446744073709551616

abbrev pub residue : ℤ → ℕ
residue (pos n) = n % int64_mod
residue (negsuc n) = int64_mod - 1 - n % int64_mod

abbrev pub signed64 : ℕ → ℤ
signed64 r = if ltb r int64_half then pos r else sub_ℕ r int64_mod

unfoldable pub ◌*ℤ◌ : ℤ → ℤ → ℤ
a *ℤ b =
    sub_ℕ (pos_part a * pos_part b + neg_part a * neg_part b)
      (pos_part a * neg_part b + neg_part a * pos_part b)

unfoldable pub mul64 : ℤ → ℤ → ℤ
unfolding ◌*ℤ◌
mul64 a b = signed64 (residue (a *ℤ b))
