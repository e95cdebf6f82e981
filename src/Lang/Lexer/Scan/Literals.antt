-- ===== src/Lang/Lexer/Scan/Literals.antt =====
-- nucleus/lang/lexer.h: the loops over strings and numbers end, and where they end.
use nextnucleus.Base.{
  ℕ, zero, suc, ◌+◌, ◌≤◌, ◌<◌, ◌≡◌, sym, ap, subst, ◌∙◌, inl, inr, Bool, true, false, not, ◌&&◌,
  ◌||◌, Option, none, some, ◌∷◌, arith, ◌==◌, if◌then◌else◌, Bool-cases, length, drop,
}
use nextnucleus.Vm.Text.{Bytes}
use nextnucleus.Vm.Text.Compare.{IsText}
use nextnucleus.Lang.Token.{Location, is_identifier, is_numeric}
use nextnucleus.Lang.Lexer.{Lexer}
use nextnucleus.Lang.Lexer.Laws.{At-bound, At, IsSame, found, empty, look_lem}
use nextnucleus.Lang.Lexer.Scan.{string_loop, number_loop}
use nextnucleus.Lang.Lexer.Scan.Runs.{
  index_of, plus, length_in, plus-suc, plus-none, plus-some, nil-cons, head-inj, numeric_blank,
}

module _ (l₀ : Lexer) (t : IsText l₀.source) where
  pub string_loop_lem :
      (fuel : ℕ) (l : Lexer) (p n : ℕ)
      → IsSame l₀ l
      → At l p
      → length l₀.source < fuel + p
      → (l' : Lexer) × (r : Option (Location × ℕ)) × (string_loop fuel l n ≡ some (l', r))
        × IsSame l₀ l'
        × (length_in r ≡ plus n (index_of 39 (drop p l₀.source)))
        × ((k : ℕ) → index_of 39 (drop p l₀.source) ≡ some k → At l' (p + k + 1))
        × (index_of 39 (drop p l₀.source) ≡ none → At l' (length l₀.source))
  unfolding string_loop
  string_loop_lem zero l p n same a lt =
      let le = At-bound l p a in
      absurd (omega (arith, lt, subst (λ s. p ≤ length s) same.source le))
  string_loop_lem (suc fuel) l p n same a lt = elim (look_lem l₀ l p t same a) [
    | found c l' l'' d pos le runs h q r runs' a' a'' s' s'' ↦
        let (l₁, r₁, ih, s₁, e₁, at₁, end₁) =
          string_loop_lem fuel l'' (suc p) (n + 1) s'' a'' (omega (arith, lt)) in
        let o = index_of 39 (drop (suc p) l₀.source) in
        let ix : index_of 39 (drop p l₀.source) ≡ (if c == 39 then some 0 else plus 1 o) =
          ap (index_of 39) d in
        elim (Bool-cases (c == 39)) [
          | inl w ↦
              let ix' : index_of 39 (drop p l₀.source) ≡ some 0 =
                ix ∙ ap (λ b. if b then some 0 else plus 1 o) w in
              let w' : (l'.peek_char == 39) ≡ true = ground arith in
              (
                l'',
                some (l'.peek_loc, n),
                ground arith,
                s'',
                ground arith,
                λ k e. subst (At l'') (ground arith) a'',
                λ e. ground arith,
              )
          | inr w ↦
              let ix' : index_of 39 (drop p l₀.source) ≡ plus 1 o =
                ix ∙ ap (λ b. if b then some 0 else plus 1 o) w in
              let w' : (l'.peek_char == 39) ≡ false = ground arith in
              (
                l₁,
                r₁,
                ground arith,
                s₁,
                e₁ ∙ plus-suc n o ∙ ap (plus n) (sym ix'),
                λ k e.
                    (let (j, ej, ek) = plus-some o (sym ix' ∙ e) in
                      subst (At l₁) (omega arith) (at₁ j ej)),
                λ e. end₁ (plus-none o (sym ix' ∙ e)),
              )
        ]
    | empty l' d z runs h a' s' ↦
        let ix : index_of 39 (drop p l₀.source) ≡ none = ap (index_of 39) d in
        (l', none, ground arith, s', ground arith, λ k e. ground arith, λ e. subst (At l') z a')
  ]

  pub number_loop_lem :
      (fuel : ℕ) (l : Lexer) (p : ℕ) (stop : Location) (dot : Bool) (n : ℕ)
      → IsSame l₀ l
      → At l p
      → length l₀.source < fuel + p
      → (l' : Lexer) × (stop' : Location) × (dot' : Bool) × (m : ℕ) × (fine : Bool) × (number_loop
            fuel l stop dot n
          ≡ some (l', stop', dot', n + m, fine))
        × IsSame l₀ l'
        × At l' (p + m)
        × (p + m ≤ length l₀.source)
        × ((c : ℕ) (s : Bytes) → drop p l₀.source ≡ c ∷ s → is_numeric c ≡ true → 0 < m)
  unfolding number_loop
  number_loop_lem zero l p stop dot n same a lt =
      let le = At-bound l p a in
      absurd (omega (arith, lt, subst (λ s. p ≤ length s) same.source le))
  number_loop_lem (suc fuel) l p stop dot n same a lt = elim (look_lem l₀ l p t same a) [
    | found c l' l'' d pos le runs h q r runs' a' a'' s' s'' ↦
        let is_dot = l'.peek_char == 46 in
        let (l₁, stop₁, dot₁, m, fine, ih, s₁, a₁, le₁, _) =
          number_loop_lem fuel l'' (suc p) l'.peek_loc (dot || is_dot) (n + 1) s'' a''
            (omega (arith, lt)) in
        let num : is_numeric l'.peek_char ≡ is_numeric c = ap is_numeric q ∙ numeric_blank c in
        elim (Bool-cases (is_numeric l'.peek_char || is_dot)) [
          | inl w ↦ elim (Bool-cases (is_dot && dot)) [
            | inl v ↦ (
              l',
              l'.peek_loc,
              dot,
              0,
              false,
              ground arith,
              s',
              subst (At l') (omega arith) a',
              omega (arith, le),
              λ c' s e isn. (let ce = head-inj (sym d ∙ e) in ground arith),
            )
            | inr v ↦ (
              l₁,
              stop₁,
              dot₁,
              suc m,
              fine,
              ground arith,
              s₁,
              subst (At l₁) (omega arith) a₁,
              omega (arith, le₁),
              λ c' s e isn. omega arith,
            )
          ]
          | inr w ↦ (
            l',
            stop,
            dot,
            0,
            not (is_identifier l'.peek_char),
            ground arith,
            s',
            subst (At l') (omega arith) a',
            omega (arith, le),
            λ c' s e isn. (let ce = head-inj (sym d ∙ e) in ground arith),
          )
        ]
    | empty l' d z runs h a' s' ↦ (
      l',
      stop,
      dot,
      0,
      true,
      ground arith,
      s',
      subst (At l') (omega arith) a',
      omega (arith, z),
      λ c' s e isn. absurd (nil-cons (sym d ∙ e)),
    )
  ]
