-- ===== src/Vm/Fix/Log.antt =====
-- nucleus/vm/math.h: the binary logarithm.
use nextnucleus.Base.{
  ℕ, zero, suc, ◌+◌, ◌*◌, ◌/◌, ◌^◌, ◌≤◌, ◌<◌, ◌≡◌, refl, ap, ◌∙◌, ◌⊎◌, inl, inr, some, arith, ◌==◌,
  Bool-cases, u64_mod,
}
use native.Mathlib.Nat.{pow-suc}
use nextnucleus.Vm.Fix.{log2_loop, log2}

log2_loop_lem :
    (fuel n r : ℕ)
    → n < 2 ^ fuel
    → (k : ℕ) × (log2_loop fuel n r ≡ some (r + k))
      × (n < 2 ^ k)
      × (((n ≡ 0) × (k ≡ 0)) ⊎ (2 ^ k ≤ 2 * n))
unfolding log2_loop
log2_loop_lem zero n r h = (0, ground arith, h, inl (omega arith, refl))
log2_loop_lem (suc fuel) n r h =
    let (k, runs, above, below) =
      log2_loop_lem fuel (n / 2) (r + 1) (omega (arith, h, pow-suc 2 fuel)) in
    elim (Bool-cases (n == 0)) [
      | inl z ↦ (0, ground arith, ground arith, inl (ground arith, refl))
      | inr nz ↦
          let pos : 0 < n = ground arith in
          let next : r + 1 + k ≡ r + suc k = omega arith in
          let loops : log2_loop fuel (n / 2) (r + 1) ≡ some (r + suc k) = runs ∙ ap some next in
          (
            suc k,
            ground arith,
            omega (arith, above, pow-suc 2 k),
            inr (elim below [
              | inl (half, none) ↦ omega (arith, half, pos, ap (λ i. 2 ^ suc i) none)
              | inr le ↦ omega (arith, le, pow-suc 2 k)
            ]),
          )
    ]

-- For every number from 1 to the greatest of 64 bits, nu_log2 ends within 64 rounds, and answers
-- the exponent of the greatest power of two that is not above the number.
pub log2_lem :
    (n : ℕ) → 0 < n → n < u64_mod → (k : ℕ) × (log2 n ≡ some k) × (2 ^ k ≤ n) × (n < 2 ^ (k + 1))
unfolding log2
log2_lem n h lt =
    let (k, runs, above, below) = log2_loop_lem 64 (n / 2) 0 (omega arith) in
    (
      k,
      runs ∙ ap some (omega arith),
      elim below [
        | inl (half, none) ↦ omega (arith, h, ap (λ i. 2 ^ i) none)
        | inr le ↦ omega (arith, le)
      ],
      (let same : 2 ^ (k + 1) ≡ 2 ^ suc k = ap (λ i. 2 ^ i) (omega arith) in
          omega (arith, above, pow-suc 2 k, same)),
    )
