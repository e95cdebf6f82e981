-- ===== src/Vm/Fix/Product.antt =====
-- The product of fixed point numbers as a product of integers.
use nextnucleus.Base.Int.{ℤ, pos, negsuc, ◌+ℤ◌, ◌*ℤ◌, int_of, wrap32, wrap64}
use nextnucleus.Vm.Fix.Arith.{fmul, itof, ftoi}
use nextnucleus.Base.{
  some, ℕ, suc, ◌+◌, ◌-◌, ◌*◌, ◌/◌, ◌%◌, ◌^◌, ◌≤◌, ◌<◌, ◌≡◌, ap, ◌∙◌, arith, u32_mod, u64_mod, u32,
}

-- Integers of at most 32 bits.
abbrev IsSmall : ℤ → Type 0
IsSmall (pos n) = n ≤ 2147483648
IsSmall (negsuc n) = suc n ≤ 2147483648

le-mul : (a b : ℕ) → a ≤ 2147483648 → b ≤ 2147483648 → a * b ≤ 4611686018427387904
le-mul a b h k = grind arith

mul-complement : (a b t k : ℕ) → t + b ≡ k → a * t + a * b ≡ a * k
mul-complement a b t k e = rw (← e) (grind arith)

complement-mul : (a b t k : ℕ) → t + b ≡ k → t * a + b * a ≡ k * a
complement-mul a b t k e = rw (← e) (grind arith)

small : (n : ℕ) → n ≤ 2147483648 → n % u64_mod ≡ n
small n h = omega arith

wrap64-mul : (x y : ℤ) → IsSmall x → IsSmall y → wrap64 x * wrap64 y % u64_mod ≡ wrap64 (x *ℤ y)
unfolding ◌*ℤ◌
wrap64-mul (pos m) (pos n) h k = rw (small m h, small n k) (ground (arith, le-mul m n h k))
wrap64-mul (pos m) (negsuc n) h k =
    rw (small m h, small n (omega (arith, k)))
      (ground (
        arith,
        le-mul m (suc n) h k,
        mul-complement m (suc n) (18446744073709551615 - n) u64_mod (omega (arith, k)),
      ))
wrap64-mul (negsuc m) (pos n) h k =
    rw (small m (omega (arith, h)), small n k)
      (ground (
        arith,
        le-mul (suc m) n h k,
        complement-mul n (suc m) (18446744073709551615 - m) u64_mod (omega (arith, h)),
      ))
wrap64-mul (negsuc m) (negsuc n) h k =
    rw (small m (omega (arith, h)), small n (omega (arith, k)))
      (ground (
        arith,
        le-mul (suc m) (suc n) h k,
        complement-mul (18446744073709551615 - n) (suc m) (18446744073709551615 - m) u64_mod
            (omega (arith, h)),
        mul-complement (suc m) (suc n) (18446744073709551615 - n) u64_mod (omega (arith, k)),
      ))

int_of-IsSmall : (a : ℕ) → a < u32_mod → IsSmall (int_of a)
int_of-IsSmall a h = ground arith

wrap32-quotient :
    (q z : ℤ) (r : ℕ)
    → r < 65536
    → z ≡ q *ℤ pos 65536 +ℤ pos r
    → wrap64 z / 2 ^ 16 % u32_mod ≡ wrap32 q
unfolding ◌*ℤ◌ ◌+ℤ◌
wrap32-quotient (pos q) z r h e = rw e (ground arith)
wrap32-quotient (negsuc q) z r h e = rw e (ground arith)

-- On words of 32 bits nu_fmul answers the exact product of the two numbers, rounded down to a fixed
-- point number, modulo 2^32.
pub fmul_lem :
    (a b : ℕ) (q : ℤ) (r : ℕ)
    → a < u32_mod
    → b < u32_mod
    → r < 2 ^ 16
    → int_of a *ℤ int_of b ≡ q *ℤ pos (2 ^ 16) +ℤ pos r
    → fmul a b ≡ wrap32 q
unfolding fmul
fmul_lem a b q r ha hb hr e =
    let m = wrap64-mul (int_of a) (int_of b) (int_of-IsSmall a ha) (int_of-IsSmall b hb) in
    ap (λ (p : ℕ). u32 (p / 2 ^ 16)) m ∙ wrap32-quotient q (int_of a *ℤ int_of b) r hr e

-- A number of 15 bits comes back from a fixed point number.
pub ftoi-itof : (a : ℕ) → a < 2 ^ 15 → (x : ℕ) × (itof a ≡ some x) × (ftoi x ≡ a)
unfolding ftoi itof
ftoi-itof a h = (a * 2 ^ 16, ground arith, ground arith)
