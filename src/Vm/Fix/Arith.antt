-- ===== src/Vm/Fix/Arith.antt =====
-- nucleus/vm/math.h: the arithmetic on fixed point numbers, whose integer is 2 ^ 16 times their
-- value. A nu_i32_t and a nu_fix_t are their bit pattern, a conversion to a type that is too narrow
-- drops the high bits, and a shift of a negative number shifts its two's complement; `none` is a
-- signed overflow or a division by zero.
use nextnucleus.Base.Int.{pos, ◌+ℤ◌, ◌-ℤ◌, ◌*ℤ◌, quot, int_of, wrap32, wrap64, word_of}
use nextnucleus.Base.{
  none, ℕ, ◌+◌, ◌-◌, ◌*◌, ◌/◌, ◌%◌, ◌^◌, Option, some, ltb, if◌then◌else◌, ◌>>=◌, u32_mod, u64_mod,
  u32,
}

-- nu_fadd and nu_fsub
unfoldable pub fadd : ℕ → ℕ → Option ℕ
unfolding ◌+ℤ◌
fadd a b = word_of (int_of a +ℤ int_of b)

unfoldable pub fsub : ℕ → ℕ → Option ℕ
unfolding ◌-ℤ◌
fsub a b = word_of (int_of a -ℤ int_of b)

-- nu_fmul
unfoldable pub fmul : ℕ → ℕ → ℕ
fmul a b = u32 (wrap64 (int_of a) * wrap64 (int_of b) % u64_mod / 2 ^ 16)

-- nu_fdiv
unfoldable pub fdiv : ℕ → ℕ → Option ℕ
unfolding quot ◌*ℤ◌
fdiv a b = do q ← quot (int_of a *ℤ pos (2 ^ 16)) (int_of b); some (wrap32 q)

-- nu_itof, where the shift of a negative number, or beyond 31 bits, is undefined, and nu_ftoi
unfoldable pub itof : ℕ → Option ℕ
itof a = if ltb a 32768 then some (a * 2 ^ 16) else none

unfoldable pub ftoi : ℕ → ℕ
ftoi a = if ltb a 2147483648 then a / 2 ^ 16 else u32_mod - 2 ^ 16 + a / 2 ^ 16

-- The functions that are not written yet: nu_pow, nu_floor, nu_ceil, nu_exp, nu_log, nu_log10,
-- nu_sqrt, nu_fmod, nu_sin, nu_cos, nu_tan, nu_acos, nu_asin and nu_atan2 answer 0.
