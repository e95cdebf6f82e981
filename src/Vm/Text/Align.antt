-- ===== src/Vm/Text/Align.antt =====
-- nu_memalign of nucleus/vm/memory.h on powers of two.
use native.Mathlib.Nat.{
  pow-suc, div-add-mod', mod-lt, mod-eq_of_lt, pow-le-pow_right, lt_of_mul-lt-mul_right,
}
use nextnucleus.Base.Bits.{bit_and-mask}
use nextnucleus.Base.{
  ℕ, zero, suc, ◌+◌, ◌-◌, ◌*◌, ◌/◌, ◌%◌, ◌^◌, ◌≤◌, ◌<◌, ◌≡◌, refl, true, ◌∙◌, ap, some, arith,
  u64_mod, ltb, ◌>>=◌,
}
use nextnucleus.Vm.Text.{memalign}

pow-mul : (m k : ℕ) → 2 ^ m * 2 ^ k ≡ 2 ^ (m + k)
pow-mul m zero = let z : m + 0 ≡ m = omega arith in rw z (omega arith)
pow-mul m (suc k) =
    let e = pow-mul m k in
    let p = pow-suc 2 (m + k) in
    let n : m + suc k ≡ suc (m + k) = omega arith in
    let assoc : 2 ^ m * 2 ^ suc k ≡ 2 ^ m * 2 ^ k * 2 = rw pow-suc (grind arith) in
    rw n (omega arith)

pred-mul : (a b : ℕ) → (a - 1) * b ≡ a * b - b
pred-mul zero b = omega arith
pred-mul (suc a) b =
    let d : suc a - 1 ≡ a = omega arith in
    let e : suc a * b ≡ a * b + b = grind arith in rw d (omega arith)

-- The complement of the bits below 2 ^ k, in 64 bits.
mask_lem : (m k : ℕ) → m + k ≡ 64 → u64_mod - 1 - (2 ^ k - 1) ≡ (2 ^ m - 1) * 2 ^ k
mask_lem m k e =
    let whole : 2 ^ m * 2 ^ k ≡ u64_mod = pow-mul m k ∙ ap (λ n. 2 ^ n) e in
    let some_bits : 1 ≤ 2 ^ k =
      pow-le-pow_right {n = 2} (omega arith) {i = 0} {j = k} (omega arith) in
    omega (arith, pred-mul (2 ^ m) (2 ^ k))

-- For an address and a power of two up to 2^64 whose sum is at most 2^64, nu_memalign answers a
-- multiple of that power, which is not below the address and less than that power above it.
pub memalign_lem :
    (ptr k : ℕ)
    → k ≤ 64
    → ptr + 2 ^ k ≤ u64_mod
    → (q : ℕ) × (memalign ptr (2 ^ k) ≡ some (q * 2 ^ k))
      × (ptr ≤ q * 2 ^ k)
      × (q * 2 ^ k < ptr + 2 ^ k)
unfolding memalign
memalign_lem ptr k le fits =
    let t = ptr + 2 ^ k - 1 in
    let q = t / 2 ^ k in
    let m = 64 - k in
    let pos : 0 < 2 ^ k = pow-le-pow_right {n = 2} (omega arith) {i = 0} {j = k} (omega arith) in
    let split : q * 2 ^ k + t % 2 ^ k ≡ t = div-add-mod' t (2 ^ k) in
    let small : t % 2 ^ k < 2 ^ k = mod-lt t pos in
    let sum : m + k ≡ 64 = omega arith in
    let whole : 2 ^ m * 2 ^ k ≡ u64_mod = pow-mul m k ∙ ap (λ n. 2 ^ n) sum in
    let few : q < 2 ^ m = lt_of_mul-lt-mul_right (2 ^ k) (omega arith) in
    let word : t % u64_mod ≡ t = mod-eq_of_lt (omega arith) in
    let masked = bit_and-mask k m q (t % 2 ^ k) few small in
    let masked' = rw split at masked in
    let given : ltb 0 (2 ^ k) ≡ true = ground arith in
    (q, rw (given, word, mask_lem m k sum, masked', ◌>>=◌) refl, omega arith, omega arith)
