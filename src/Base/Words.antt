-- ===== src/Base/Words.antt =====
-- Machine words as native numbers below a power of two: the bit pattern of an unsigned or of a
-- two's complement integer.
use Prim.Native.Nat.{ℕ, ◌%◌}

-- 2 ^ 8, 2 ^ 16, 2 ^ 32 and 2 ^ 64
abbrev pub u8_mod : ℕ
u8_mod = 256

abbrev pub u16_mod : ℕ
u16_mod = 65536

abbrev pub u32_mod : ℕ
u32_mod = 4294967296

abbrev pub u64_mod : ℕ
u64_mod = 18446744073709551616

abbrev pub u16 : ℕ → ℕ
u16 n = n % u16_mod

abbrev pub u32 : ℕ → ℕ
u32 n = n % u32_mod
