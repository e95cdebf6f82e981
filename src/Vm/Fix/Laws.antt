-- ===== src/Vm/Fix/Laws.antt =====
-- nucleus/vm/math.h: the binary logarithm, and the strings on which the readers of literals are
-- defined.
use nextnucleus.Base.{
  ltb, ◌∙◌, [], ℕ, zero, suc, ◌+◌, ◌-◌, ◌*◌, ◌%◌, ◌^◌, ◌≤◌, ◌<◌, ◌≡◌, refl, sym, ap, subst, ◌⊎◌,
  inl, inr, Bool, true, false, ◌&&◌, Option, none, some, ◌∷◌, arith, ◌==◌, if◌then◌else◌,
  Bool-cases, Option-cases, ◌>>=◌, get_elem?_total, u32_mod, u32,
}
use native.Mathlib.Nat.{pow-suc}
use nextnucleus.Vm.Text.{Bytes}
use nextnucleus.Vm.Fix.{
  fast_pow10, is_digit, FixScan, fparse_char, char_of, fparse_scan, fraction_bits, negate,
  fparse_build, fparse, times_ten, minus, iparse_loop, iparse,
}

-- The number of digits of the fraction stays below 7.
fparse_char-dp : (i c : ℕ) (v w : FixScan) → v.dp ≤ 6 → fparse_char i c v ≡ some w → w.dp ≤ 6
unfolding fparse_char
fparse_char-dp i c v w h e = ground arith

-- While the counter does not wrap around, the loop ends, with at most 6 digits behind the point.
fparse_scan_total :
    (fuel i : ℕ) (s : Bytes) (n : ℕ) (v : FixScan)
    → v.dp ≤ 6
    → i + fuel ≡ n
    → n < u32_mod
    → (o : Option FixScan) × (fparse_scan fuel i s n v ≡ some o)
      × ((w : FixScan) → o ≡ some w → w.dp ≤ 6)
unfolding fparse_scan
fparse_scan_total zero i s n v h e lt =
    let stops : ltb i n ≡ false = ground arith in
    (some v, rw stops refl, λ w is. (let same : v ≡ w = cc in subst (λ x. x.dp ≤ 6) same h))
fparse_scan_total (suc fuel) i s n v h e lt =
    let goes : ltb i n ≡ true = ground arith in
    let next : u32 (i + 1) ≡ i + 1 = omega arith in
    elim (Option-cases (fparse_char i (char_of s i) v)) [
      | inl k ↦ (none, ground arith, λ w is. cc)
      | inr (x, k) ↦
          let (o, runs, dp) =
            fparse_scan_total fuel (i + 1) s n x (fparse_char-dp i (char_of s i) v x h k)
              (omega arith) lt in
          let step : fparse_scan (suc fuel) i s n v ≡ fparse_scan fuel (i + 1) s n x =
            ground arith in
          (o, step ∙ runs, dp)
    ]

fast_pow10_total : (n : ℕ) → n < 8 → (b : ℕ) × (fast_pow10 n ≡ some b)
unfolding fast_pow10
fast_pow10_total n h =
    get_elem?_total (1 ∷ 10 ∷ 100 ∷ 1000 ∷ 10000 ∷ 100000 ∷ 1000000 ∷ 10000000 ∷ []) n h

fparse_build_total :
    (o : Option FixScan)
    → ((v : FixScan) → o ≡ some v → v.dp ≤ 6)
    → (r : Option ℕ) × (fparse_build o ≡ some r)
unfolding fparse_build
fparse_build_total none h = (none, refl)
fparse_build_total (some v) h =
    let (b, e) = fast_pow10_total v.dp (omega (arith, h v refl)) in
    (
      _,
      ap
          (λ o. o >>= λ base.
            (let fixed = fraction_bits 16 (u32 (v.inte * 2 ^ 16)) v.frac base in
              some (some (if v.sign then negate fixed else fixed))))
          e,
    )

-- For a count below 2^32, nu_fparse ends on every string with a value or with an error, and its
-- table of powers is never read out of bounds.
pub fparse_total : (s : Bytes) (n : ℕ) → n < u32_mod → (r : Option ℕ) × (fparse s n ≡ some r)
unfolding fparse
fparse_total s n lt =
    let (o, runs, dp) = fparse_scan_total n 0 s n _ (omega arith) (omega arith) lt in
    let (r, e) = fparse_build_total o dp in (r, ap (λ x. x >>= fparse_build) runs ∙ e)

pow10_pos : (n : ℕ) → 0 < 10 ^ n
pow10_pos zero = omega arith
pow10_pos (suc n) = omega (arith, pow-suc 10 n, pow10_pos n)

pow10_le : (k n : ℕ) → k ≤ n → 10 ^ k ≤ 10 ^ n
pow10_le zero n h = omega (arith, pow10_pos n)
pow10_le (suc k) zero h = absurd (omega arith)
pow10_le (suc k) (suc n) h = omega (arith, pow-suc 10 k, pow-suc 10 n, pow10_le k n (omega arith))

pow10_next : (n : ℕ) → 10 ^ (n + 1) ≡ 10 ^ n * 10
pow10_next n = let e : n + 1 ≡ suc n = omega arith in rw e (pow-suc 10 n)

-- The loop ends with an error or with a value below 10 ^ 9.
abbrev Ends : Option (Option (Bool × ℕ)) → Type 0
Ends o = (o ≡ some none) ⊎ ((sign : Bool) × (v : ℕ) × (o ≡ some (some (sign, v))) × (v < 10 ^ 9))

times_ten-small : (v : ℕ) → v < 100000000 → times_ten v ≡ some (v * 10)
unfolding times_ten
times_ten-small v h = ground arith

iparse_loop_total :
    (fuel i : ℕ) (s : Bytes) (n : ℕ) (sign : Bool) (value : ℕ)
    → value < 10 ^ i
    → i + fuel ≡ n
    → n ≤ 9
    → Ends (iparse_loop fuel i s n sign value)
unfolding iparse_loop
iparse_loop_total zero i s n sign value h e le =
    let stops : ltb i n ≡ false = ground arith in
    rw stops (inr (sign, value, refl, omega (arith, pow10_le i 9 (omega arith))))
iparse_loop_total (suc fuel) i s n sign value h e le =
    let c = char_of s i in
    let goes : ltb i n ≡ true = ground arith in
    let next : u32 (i + 1) ≡ i + 1 = omega arith in
    let ten : 10 ^ i ≤ 100000000 = pow10_le i 8 (omega arith) in
    let up = pow10_next i in
    elim (Bool-cases (is_digit c)) [
      | inl w ↦
          let small : u32 (value * 10 + (c - 48)) < 10 ^ (i + 1) = ground (arith, up) in
          let ih =
            iparse_loop_total fuel (i + 1) s n sign (u32 (value * 10 + (c - 48))) small
              (omega arith) le in
          let ten' = times_ten-small value (omega (arith, ten, h)) in
          let step : iparse_loop (suc fuel) i s n sign value
              ≡ iparse_loop fuel (i + 1) s n sign (u32 (value * 10 + (c - 48))) =
            ground arith in
          subst Ends (sym step) ih
      | inr w ↦
          let ih = iparse_loop_total fuel (i + 1) s n true value (omega arith) (omega arith) le in
          elim (Bool-cases (c == 45 && i == 0)) [
            | inl v ↦
                let step : iparse_loop (suc fuel) i s n sign value
                    ≡ iparse_loop fuel (i + 1) s n true value =
                  ground arith in
                subst Ends (sym step) ih
            | inr v ↦ inl (ground arith)
          ]
    ]

-- nu_iparse is defined on at most 9 characters of every string: it ends with a value or with an
-- error, and nothing overflows.
pub iparse_total : (s : Bytes) (n : ℕ) → n ≤ 9 → (r : Option ℕ) × (iparse s n ≡ some r)
unfolding iparse minus
iparse_total s n le = elim (iparse_loop_total n 0 s n false 0 (omega arith) (omega arith) le) [
  | inl h ↦ (none, rw h refl)
  | inr (sign, v, h, lt) ↦ elim (Bool-cases sign) [
    | inl p ↦ (some ((u32_mod - v) % u32_mod), ground arith)
    | inr p ↦ (some v, ground arith)
  ]
]
