-- ===== src/Lang/Lexer/Scan/Laws.antt =====
-- nucleus/lang/lexer.h: the loops over identifiers, spaces and comments end, and where they end.
use nextnucleus.Base.{
  ℕ, zero, suc, ◌+◌, ◌≤◌, ◌<◌, ◌≡◌, ap, subst, ◌∙◌, inl, inr, true, false, some, arith, ◌==◌,
  if◌then◌else◌, Bool-cases, length, drop,
}
use nextnucleus.Vm.Text.Compare.{IsText}
use nextnucleus.Lang.Token.{Location, is_identifier}
use nextnucleus.Lang.Lexer.{Lexer}
use nextnucleus.Lang.Lexer.Laws.{At-bound, At, IsSame, found, empty, look_lem}
use nextnucleus.Lang.Lexer.Scan.{comment_loop, spaces_loop, identifier_loop}
use nextnucleus.Lang.Lexer.Scan.Runs.{run_length, identifier_blank, is_space}

module _ (l₀ : Lexer) (t : IsText l₀.source) where
  pub identifier_loop_lem :
      (fuel : ℕ) (l : Lexer) (p : ℕ) (stop : Location) (n : ℕ)
      → IsSame l₀ l
      → At l p
      → length l₀.source < fuel + p
      → (l' : Lexer) × (stop' : Location) × (identifier_loop fuel l stop n
          ≡ some (l', stop', n + run_length is_identifier (drop p l₀.source)))
        × IsSame l₀ l'
        × At l' (p + run_length is_identifier (drop p l₀.source))
  unfolding identifier_loop
  identifier_loop_lem zero l p stop n same a lt =
      let le = At-bound l p a in
      absurd (omega (arith, lt, subst (λ s. p ≤ length s) same.source le))
  identifier_loop_lem (suc fuel) l p stop n same a lt = elim (look_lem l₀ l p t same a) [
    | found c l' l'' d pos le runs h q r runs' a' a'' s' s'' ↦
        let (l₁, stop₁, ih, s₁, a₁) =
          identifier_loop_lem fuel l'' (suc p) l'.peek_loc (n + 1) s'' a'' (omega (arith, lt)) in
        elim (Bool-cases (is_identifier c)) [
          | inl w ↦
              let k = run_length is_identifier (drop (suc p) l₀.source) in
              let len : run_length is_identifier (drop p l₀.source) ≡ suc k =
                ap (run_length is_identifier) d ∙ ap (λ b. if b then suc k else 0) w in
              let w' : is_identifier l'.peek_char ≡ true =
                ap is_identifier q ∙ identifier_blank c ∙ w in
              (l₁, stop₁, ground arith, s₁, subst (At l₁) (omega (arith, len)) a₁)
          | inr w ↦
              let k = run_length is_identifier (drop (suc p) l₀.source) in
              let len : run_length is_identifier (drop p l₀.source) ≡ 0 =
                ap (run_length is_identifier) d ∙ ap (λ b. if b then suc k else 0) w in
              let w' : is_identifier l'.peek_char ≡ false =
                ap is_identifier q ∙ identifier_blank c ∙ w in
              (l', stop, ground arith, s', subst (At l') (omega (arith, len)) a')
        ]
    | empty l' d z runs h a' s' ↦
        let len : run_length is_identifier (drop p l₀.source) ≡ 0 =
          ap (run_length is_identifier) d in
        (l', stop, ground arith, s', subst (At l') (omega (arith, len)) a')
  ]

  pub spaces_loop_lem :
      (fuel : ℕ) (l : Lexer) (p : ℕ)
      → IsSame l₀ l
      → At l p
      → length l₀.source < fuel + p
      → (l' : Lexer) × (spaces_loop fuel l ≡ some l')
        × IsSame l₀ l'
        × At l' (p + run_length is_space (drop p l₀.source))
  unfolding spaces_loop
  spaces_loop_lem zero l p same a lt =
      let le = At-bound l p a in
      absurd (omega (arith, lt, subst (λ s. p ≤ length s) same.source le))
  spaces_loop_lem (suc fuel) l p same a lt = elim (look_lem l₀ l p t same a) [
    | found c l' l'' d pos le runs h q r runs' a' a'' s' s'' ↦
        let (l₁, ih, s₁, a₁) = spaces_loop_lem fuel l'' (suc p) s'' a'' (omega (arith, lt)) in
        let k = run_length is_space (drop (suc p) l₀.source) in
        let len : run_length is_space (drop p l₀.source) ≡ (if is_space c then suc k else 0) =
          ap (run_length is_space) d in
        elim (Bool-cases (is_space c)) [
          | inl w ↦
              let len' : run_length is_space (drop p l₀.source) ≡ suc k =
                len ∙ ap (λ b. if b then suc k else 0) w in
              let w' : (l'.peek_char == 32) ≡ true = ap (λ x. x == 32) q ∙ w in
              (l₁, ground arith, s₁, subst (At l₁) (omega (arith, len')) a₁)
          | inr w ↦
              let len' : run_length is_space (drop p l₀.source) ≡ 0 =
                len ∙ ap (λ b. if b then suc k else 0) w in
              let w' : (l'.peek_char == 32) ≡ false = ap (λ x. x == 32) q ∙ w in
              (l', ground arith, s', subst (At l') (omega (arith, len')) a')
        ]
    | empty l' d z runs h a' s' ↦
        let len : run_length is_space (drop p l₀.source) ≡ 0 = ap (run_length is_space) d in
        (l', ground arith, s', subst (At l') (omega (arith, len)) a')
  ]

  pub comment_loop_lem :
      (fuel : ℕ) (l : Lexer) (p line : ℕ)
      → IsSame l₀ l
      → At l p
      → length l₀.source < fuel + p
      → (l' : Lexer) × (q : ℕ) × (comment_loop fuel l line ≡ some l')
        × IsSame l₀ l'
        × At l' q
        × (p ≤ q)
  unfolding comment_loop
  comment_loop_lem zero l p line same a lt =
      let le = At-bound l p a in
      absurd (omega (arith, lt, subst (λ s. p ≤ length s) same.source le))
  comment_loop_lem (suc fuel) l p line same a lt = elim (look_lem l₀ l p t same a) [
    | found c l' l'' d pos le runs h q r runs' a' a'' s' s'' ↦
        let (l₁, q₁, ih, s₁, a₁, le₁) =
          comment_loop_lem fuel l'' (suc p) line s'' a'' (omega (arith, lt)) in
        elim (Bool-cases (l'.peek_loc.line == line)) [
          | inl w ↦ (l₁, q₁, ground arith, s₁, a₁, omega (arith, le₁))
          | inr w ↦ (l', p, ground arith, s', a', omega arith)
        ]
    | empty l' d z runs h a' s' ↦ (l', p, ground arith, s', a', omega arith)
  ]
