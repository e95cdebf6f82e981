-- ===== src/Base/Int.antt =====
-- Signed integers over the native numbers, and the words of 32 bits that represent them.
use Prim.Native.Nat.{ℕ, suc, ◌+◌, ◌-◌, ◌*◌, ◌/◌, ◌%◌}
use mathlib.Core.Option.{Option, none, some}
use nextnucleus.Base.Tests.{leb, ltb, ◌==◌, if◌then◌else◌}
use nextnucleus.Base.Words.{u32_mod, u64_mod}

-- `negsuc n` is -(n + 1).
pub data ℤ : Type 0 where
  pos : ℕ → ℤ
  negsuc : ℕ → ℤ

abbrev pub pos_part : ℤ → ℕ
pos_part (pos n) = n
pos_part (negsuc n) = 0

abbrev pub neg_part : ℤ → ℕ
neg_part (pos n) = 0
neg_part (negsuc n) = suc n

-- a - b, as an integer.
abbrev pub sub_ℕ : ℕ → ℕ → ℤ
sub_ℕ a b = if leb b a then pos (a - b) else negsuc (b - a - 1)

infixl 65 ◌+ℤ◌ ◌-ℤ◌
infixl 70 ◌*ℤ◌
unfoldable pub ◌+ℤ◌ : ℤ → ℤ → ℤ
a +ℤ b = sub_ℕ (pos_part a + pos_part b) (neg_part a + neg_part b)

unfoldable pub ◌-ℤ◌ : ℤ → ℤ → ℤ
a -ℤ b = sub_ℕ (pos_part a + neg_part b) (neg_part a + pos_part b)

unfoldable pub ◌*ℤ◌ : ℤ → ℤ → ℤ
a *ℤ b =
    sub_ℕ (pos_part a * pos_part b + neg_part a * neg_part b)
      (pos_part a * neg_part b + neg_part a * pos_part b)

-- The quotient rounded towards zero, which `/` is in C; `none` is a division by zero.
unfoldable pub quot : ℤ → ℤ → Option ℤ
quot a (pos n) =
    if n == 0
    then none
    else some (if ltb 0 (neg_part a) then sub_ℕ 0 (neg_part a / n) else pos (pos_part a / n))
quot a (negsuc n) =
    some (if ltb 0 (neg_part a) then pos (neg_part a / suc n) else sub_ℕ 0 (pos_part a / suc n))

-- The integer that a bit pattern of 32 bits stands for in two's complement.
abbrev pub int_of : ℕ → ℤ
int_of w = if ltb w 2147483648 then pos w else negsuc (u32_mod - w - 1)

-- The bit patterns of 32 and of 64 bits of an integer, modulo 2 ^ 32 and 2 ^ 64.
abbrev pub wrap32 : ℤ → ℕ
wrap32 (pos n) = n % u32_mod
wrap32 (negsuc n) = u32_mod - 1 - n % u32_mod

abbrev pub wrap64 : ℤ → ℕ
wrap64 (pos n) = n % u64_mod
wrap64 (negsuc n) = u64_mod - 1 - n % u64_mod

-- The bit pattern of a result of signed arithmetic, which is undefined if it overflows.
abbrev pub word_of : ℤ → Option ℕ
word_of (pos n) = if ltb n 2147483648 then some n else none
word_of (negsuc n) = if ltb n 2147483648 then some (u32_mod - 1 - n) else none
