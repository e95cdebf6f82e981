-- ===== src/Base/Bits.antt =====
-- Bit operations at variables: setting bits that lie above all those of a number adds them, and a mask
-- of the bits from one on rounds down.
use Prim.Native.Nat.{
  ℕ, zero, suc, ◌+◌, ◌*◌, ◌/◌, ◌%◌, ◌^◌, ◌≤◌, ◌<◌, ◌-◌, max, min, bit_or, bit_and, digits, bitwise,
  bit_or-bitwise, bit_and-bitwise,
}
use mathlib.Core.Path.{◌≡◌, refl, sym, ap, ◌∙◌}
use native.Mathlib.Nat.{pow-suc}
use native.Mathlib.Omega.{arith}

-- What an operation on binary digits comes to: `op` on the lowest digits, and `rest` where the first
-- number has run out. Whatever fuel is enough gives the same.
module _ (rest : ℕ → ℕ) (op : ℕ → ℕ → ℕ) where
  digits-zero : (fuel b : ℕ) → digits rest op fuel 0 b ≡ rest b
  digits-zero zero b = refl
  digits-zero (suc fuel) b = refl

  digits-enough : (fuel a b : ℕ) → a ≤ fuel → digits rest op fuel a b ≡ bitwise rest op a b
  digits-enough fuel a b le = same fuel a a b le (omega arith)
    where
      same : (n m a b : ℕ) → a ≤ n → a ≤ m → digits rest op n a b ≡ digits rest op m a b
      same n m zero b le le' = digits-zero n b ∙ sym (digits-zero m b)
      same zero m (suc a) b le le' = absurd (omega arith)
      same (suc n) zero (suc a) b le le' = absurd (omega arith)
      same (suc n) (suc m) (suc a) b le le' =
          ap (λ high. high * 2 + op (suc a % 2) (b % 2))
            (same n m (suc a / 2) (b / 2) (omega arith) (omega arith))

  lowest-digit :
      (a b : ℕ)
      → (a ≡ 0 → rest b ≡ rest (b / 2) * 2 + op 0 (b % 2))
      → bitwise rest op a b ≡ bitwise rest op (a / 2) (b / 2) * 2 + op (a % 2) (b % 2)
  lowest-digit zero b out = out refl
  lowest-digit (suc a) b out =
      ap (λ high. high * 2 + op (suc a % 2) (b % 2))
        (digits-enough a (suc a / 2) (b / 2) (omega arith))

bit_or_step : (a b : ℕ) → bit_or a b ≡ bit_or (a / 2) (b / 2) * 2 + max (a % 2) (b % 2)
bit_or_step a b =
    bit_or-bitwise a b
    ∙ lowest-digit (λ d. d) max a b (λ _. omega arith)
    ∙ ap (λ high. high * 2 + max (a % 2) (b % 2)) (sym (bit_or-bitwise (a / 2) (b / 2)))

bit_and_step : (a b : ℕ) → bit_and a b ≡ bit_and (a / 2) (b / 2) * 2 + min (a % 2) (b % 2)
bit_and_step a b =
    bit_and-bitwise a b
    ∙ lowest-digit (λ _. 0) min a b (λ _. omega arith)
    ∙ ap (λ high. high * 2 + min (a % 2) (b % 2)) (sym (bit_and-bitwise (a / 2) (b / 2)))

bit_or-zero_fuel : (n a : ℕ) → a ≤ n → bit_or a 0 ≡ a
bit_or-zero_fuel n zero h = bit_or-bitwise 0 0
bit_or-zero_fuel zero (suc a) h = absurd (omega arith)
bit_or-zero_fuel (suc n) (suc a) h =
    omega (arith, bit_or_step (suc a) 0, bit_or-zero_fuel n (suc a / 2) (omega arith))

pub bit_or-eq-add : (k a b : ℕ) → b < 2 ^ k → bit_or (a * 2 ^ k) b ≡ a * 2 ^ k + b
bit_or-eq-add zero a b h =
    let e : b ≡ 0 = omega arith in
    rw e (omega (arith, bit_or-zero_fuel (a * 2 ^ 0) (a * 2 ^ 0) (omega arith)))
bit_or-eq-add (suc k) a b h =
    let double : a * 2 ^ suc k ≡ a * 2 ^ k * 2 = rw pow-suc (omega arith) in
    let half : a * 2 ^ suc k / 2 ≡ a * 2 ^ k = omega arith in
    let small : b / 2 < 2 ^ k = omega (arith, pow-suc 2 k) in
    let step = rw half at (bit_or_step (a * 2 ^ suc k) b) in
    omega (arith, step, bit_or-eq-add k a (b / 2) small)

-- All bits below 2 ^ m.
bit_and-ones : (m x : ℕ) → x < 2 ^ m → bit_and x (2 ^ m - 1) ≡ x
bit_and-ones zero x h = let e : x ≡ 0 = omega arith in rw e (bit_and-bitwise 0 (2 ^ 0 - 1))
bit_and-ones (suc m) x h =
    let p = pow-suc 2 m in
    let half : (2 ^ suc m - 1) / 2 ≡ 2 ^ m - 1 = omega arith in
    let step = rw half at (bit_and_step x (2 ^ suc m - 1)) in
    omega (arith, step, bit_and-ones m (x / 2) (omega arith))

-- A mask of the `m` bits from 2 ^ k on clears the bits below them.
pub bit_and-mask :
    (k m q r : ℕ)
    → q < 2 ^ m
    → r < 2 ^ k
    → bit_and (q * 2 ^ k + r) ((2 ^ m - 1) * 2 ^ k) ≡ q * 2 ^ k
bit_and-mask zero m q r h k =
    let e : q * 2 ^ 0 + r ≡ q = omega arith in
    let one : (2 ^ m - 1) * 2 ^ 0 ≡ 2 ^ m - 1 = omega arith in
    rw (e, one) (omega (arith, bit_and-ones m q h))
bit_and-mask (suc k) m q r h lt =
    let p = pow-suc 2 k in
    let double : q * 2 ^ suc k ≡ q * 2 ^ k * 2 = rw pow-suc (omega arith) in
    let double_mask : (2 ^ m - 1) * 2 ^ suc k ≡ (2 ^ m - 1) * 2 ^ k * 2 =
      rw pow-suc (omega arith) in
    let half : (q * 2 ^ suc k + r) / 2 ≡ q * 2 ^ k + r / 2 = omega arith in
    let half_mask : (2 ^ m - 1) * 2 ^ suc k / 2 ≡ (2 ^ m - 1) * 2 ^ k = omega arith in
    let step =
      rw (half, half_mask) at (bit_and_step (q * 2 ^ suc k + r) ((2 ^ m - 1) * 2 ^ suc k)) in
    omega (arith, step, bit_and-mask k m q (r / 2) h (omega arith))
