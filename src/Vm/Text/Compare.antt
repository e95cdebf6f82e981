-- ===== src/Vm/Text/Compare.antt =====
-- String comparison decides equality of strings, and of their first characters.
use nextnucleus.Base.{[], ℕ, zero, suc, ◌<◌, ◌≡◌, refl, ◌↔◌, ◌∷◌, arith, take, All, u8_mod}
use nextnucleus.Vm.Text.{Bytes, strncmp, strcmp, char_diff}

-- The bytes of a string: none of them is the NUL.
abbrev pub IsText : Bytes → Type 0
IsText = All (λ c. (0 < c) × (c < u8_mod))

char_diff_iff : (a b : ℕ) → a < u8_mod → b < u8_mod → (char_diff a b ≡ 0) ↔ (a ≡ b)
char_diff_iff a b ha hb = ground arith

-- For texts of bytes between 1 and 255, nu_strncmp is 0 exactly if they agree on their first `n`
-- characters.
pub strncmp_iff :
    (s1 s2 : Bytes) (n : ℕ)
    → IsText s1
    → IsText s2
    → (strncmp s1 s2 n ≡ 0) ↔ (take n s1 ≡ take n s2)
unfolding strncmp
strncmp_iff s1 s2 zero h k = (λ _. refl, λ _. refl)
strncmp_iff [] [] (suc n) h k = (λ _. refl, λ _. ground arith)
strncmp_iff [] (d ∷ s2) (suc n) h k = ground (arith, char_diff_iff 0 d)
strncmp_iff (c ∷ s1) [] (suc n) h k = ground (arith, char_diff_iff c 0)
strncmp_iff (c ∷ s1) (d ∷ s2) (suc n) (hc, h) (kd, k) =
    ground (arith, char_diff_iff c d, strncmp_iff s1 s2 n h k)

-- For texts of bytes between 1 and 255, nu_strcmp is 0 exactly if they are equal.
pub strcmp_iff : (s1 s2 : Bytes) → IsText s1 → IsText s2 → (strcmp s1 s2 ≡ 0) ↔ (s1 ≡ s2)
unfolding strcmp
strcmp_iff [] [] h k = (λ _. refl, λ _. ground arith)
strcmp_iff [] (d ∷ s2) h k = ground (arith, char_diff_iff 0 d)
strcmp_iff (c ∷ s1) [] h k = ground (arith, char_diff_iff c 0)
strcmp_iff (c ∷ s1) (d ∷ s2) (hc, h) (kd, k) =
    ground (arith, char_diff_iff c d, strcmp_iff s1 s2 h k)
