-- ===== src/Vm/Fix.antt =====
-- nucleus/vm/math.h: powers of two, and the reading of integer and of fixed point literals. A
-- nu_i32_t is its bit pattern, a string is the list of the bytes before its NUL, and `none` is a
-- signed overflow or a failed assertion.
pub mod Arith
pub mod Product
pub mod Laws
pub mod Log
mod Tests
use Prim.Native.Nat.{bit_and, bit_or}
use nextnucleus.Base.{
  [], ℕ, zero, suc, ◌+◌, ◌-◌, ◌*◌, ◌/◌, ◌%◌, ◌^◌, Bool, true, false, not, ◌&&◌, Option, none, some,
  ◌∷◌, ltb, leb, ◌==◌, if◌then◌else◌, ◌>>=◌, ◌>>◌, assert, get_elem?, u32_mod, u64_mod, u32,
}
use nextnucleus.Vm.Text.{Bytes}

-- nu_is_power_of_two
unfoldable pub is_power_of_two : ℕ → Bool
is_power_of_two n = bit_and n ((n + u64_mod - 1) % u64_mod) == 0

-- nu_log2, in at most `fuel` rounds
unfoldable pub log2_loop : ℕ → ℕ → ℕ → Option ℕ
log2_loop zero n result = if n == 0 then some result else none
log2_loop (suc fuel) n result =
    let more = log2_loop fuel (n / 2) (result + 1) in if n == 0 then some result else more

unfoldable pub log2 : ℕ → Option ℕ
unfolding log2_loop
log2 n = log2_loop 64 (n / 2) 0

-- nu__fast_pow10
unfoldable pub fast_pow10 : ℕ → Option ℕ
fast_pow10 n = get_elem? (1 ∷ 10 ∷ 100 ∷ 1000 ∷ 10000 ∷ 100000 ∷ 1000000 ∷ 10000000 ∷ []) n

abbrev pub is_digit : ℕ → Bool
is_digit c = leb 48 c && leb c 57

-- The variables of nu_fparse.
pub record FixScan : Type 0 where
  pub sign : Bool
  pub frac_flag : Bool
  pub inte : ℕ
  pub frac : ℕ
  pub dp : ℕ

-- One round of the first loop of nu_fparse; `none` is NU_ERROR_INVALID_STATE.
unfoldable pub fparse_char : ℕ → ℕ → FixScan → Option FixScan
fparse_char i c v =
    if c == 45
    then (if i == 0 then some (record v { sign = true }) else none)
    else if c == 46
    then some (record v { frac_flag = true })
    else if not (is_digit c)
    then none
    else if not v.frac_flag
    then some (record v { inte = u32 (v.inte * 10 + (c - 48)) })
    else if leb 6 v.dp
    then none
    else some (record v { frac = u32 (v.frac * 10 + (c - 48)); dp = v.dp + 1 })

-- `s[i]`: the NUL stands behind the last byte.
abbrev pub char_of : Bytes → ℕ → ℕ
char_of s i = elim (get_elem? s i) [ none ↦ 0 | some c ↦ c ]

-- The first loop of nu_fparse on fuel, whose counter `i` is a nu_u32_t and whose bound `n` has 64 bits;
-- the loop does not go on behind the NUL, which is an error.
unfoldable pub fparse_scan : ℕ → ℕ → Bytes → ℕ → FixScan → Option (Option FixScan)
unfolding fparse_char
fparse_scan zero i s n v = if ltb i n then none else some (some v)
fparse_scan (suc fuel) i s n v =
    let more : Option (Option FixScan) = elim (fparse_char i (char_of s i) v) [
      | none ↦ some none
      | some w ↦ fparse_scan fuel (u32 (i + 1)) s n w
    ] in
    if ltb i n then more else some (some v)

-- The second loop of nu_fparse: one binary digit of the fraction per round, from the highest to the
-- lowest.
unfoldable pub fraction_bits : ℕ → ℕ → ℕ → ℕ → ℕ
fraction_bits zero fixed frac base = fixed
fraction_bits (suc k) fixed frac base =
    let f = u32 (frac * 2) in
    let one = fraction_bits k (bit_or fixed (2 ^ k)) (f - base) base in
    let two = fraction_bits k fixed f base in if leb base f then one else two

-- `!fixed + 1`
abbrev pub negate : ℕ → ℕ
negate fixed = (if fixed == 0 then 1 else 0) + 1

-- nu_fparse: `some none` is NU_ERROR_INVALID_STATE. The second part builds the number.
unfoldable pub fparse_build : Option FixScan → Option (Option ℕ)
unfolding fraction_bits fast_pow10
fparse_build none = some none
fparse_build (some v) = do
  base ← fast_pow10 v.dp
  let fixed = fraction_bits 16 (u32 (v.inte * 2 ^ 16)) v.frac base
  some (some (if v.sign then negate fixed else fixed))

-- More than `n` rounds are only left when the counter has wrapped around.
unfoldable pub fparse : Bytes → ℕ → Option (Option ℕ)
unfolding fparse_scan fparse_build
fparse s n = do
  r ← fparse_scan n 0 s n (record { sign = false; frac_flag = false; inte = 0; frac = 0; dp = 0 })
  fparse_build r

-- `value * 10` on nu_i32_t, where an overflow is undefined
unfoldable pub times_ten : ℕ → Option ℕ
times_ten v =
    if ltb v (2 ^ 31)
    then assert (ltb (v * 10) (2 ^ 31)) >> some (v * 10)
    else assert (leb ((u32_mod - v) * 10) (2 ^ 31)) >> some (u32_mod - (u32_mod - v) * 10)

-- `-value` on nu_i32_t
unfoldable pub minus : ℕ → Option ℕ
minus v = assert (not (v == 2 ^ 31)) >> some ((u32_mod - v) % u32_mod)

-- The loop of nu_iparse, on fuel as that of nu_fparse; `some none` is NU_ERROR_INVALID_STATE.
unfoldable pub iparse_loop : ℕ → ℕ → Bytes → ℕ → Bool → ℕ → Option (Option (Bool × ℕ))
iparse_loop zero i s n sign value = if ltb i n then none else some (some (sign, value))
iparse_loop (suc fuel) i s n sign value =
    let c = char_of s i in
    let more = (do
      v ← times_ten value
      iparse_loop fuel (u32 (i + 1)) s n sign (u32 (v + (c - 48)))) in
    let signed = iparse_loop fuel (u32 (i + 1)) s n true value in
    if not (ltb i n)
    then some (some (sign, value))
    else if c == 45
    then (if i == 0 then signed else some none)
    else if not (is_digit c)
    then some none
    else more

-- nu_iparse
unfoldable pub iparse : Bytes → ℕ → Option (Option ℕ)
unfolding iparse_loop minus
iparse s n = do
  r ← iparse_loop n 0 s n false 0
  elim r [
    | none ↦ some none
    | some (sign, value) ↦
        (if sign then minus value >>= (λ v. some (some v)) else some (some value))
  ]
