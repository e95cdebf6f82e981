-- ===== src/Lang/Lexer/Parse/Laws.antt =====
-- nucleus/lang/lexer.h: nulang__lexer_parse_token ends with a token or an error, and moves on.
use nextnucleus.Base.{
  ℕ, zero, suc, ◌+◌, ◌≤◌, ◌<◌, ◌≡◌, refl, sym, ap, subst, ◌∙◌, ◌⊎◌, inl, inr, Bool, true, false,
  Option, none, some, ◌∷◌, arith, ◌==◌, if◌then◌else◌, Bool-cases, ◌>>=◌, length, drop,
}
use nextnucleus.Vm.Text.{Bytes}
use nextnucleus.Vm.Text.Compare.{IsText}
use nextnucleus.Lang.Token.{
  Location, TokenType, token_eof, token_single, is_identifier, is_numeric, t_sub,
}
use nextnucleus.Lang.Lexer.{Lexer, look, consume_char}
use nextnucleus.Lang.Lexer.Laws.{
  At-bound, blank, At, IsSame, IsSame-refl, IsSame-trans, found, empty, look_lem,
}
use nextnucleus.Lang.Lexer.Scan.{Outcome, got, fuel_of, consume_comment, consume_spaces, with_equal}
use nextnucleus.Lang.Lexer.Scan.Laws.{spaces_loop_lem, comment_loop_lem}
use nextnucleus.Lang.Lexer.Scan.Runs.{numeric_blank, identifier_blank, run_length, is_space}
use nextnucleus.Lang.Lexer.Scan.Progress.{
  IsParsed, Progress, single_char_token-Progress, with_equal-Progress, consume_identifier-Progress,
  consume_string-Progress, consume_number-Progress,
}
use nextnucleus.Lang.Lexer.Parse.{
  single_type, Round, ends, goes_on, minus_or_comment, ends_with, one_round, parse_loop,
  parse_token,
}

abbrev outcome_of : Round → Option (Lexer × Outcome)
outcome_of (ends l o) = some (l, o)
outcome_of (goes_on l) = none

-- What the loop does behind a round.
abbrev after : ℕ → Round → Option (Lexer × Outcome)
after fuel (ends l o) = some (l, o)
after fuel (goes_on l) = parse_loop fuel l

-- A round that began at `p` ends behind it.
abbrev RoundProgress : Lexer → ℕ → Option Round → Type 0
RoundProgress l p r =
    Progress l p (r >>= outcome_of)
    ⊎ ((l' : Lexer) × (q : ℕ) × (r ≡ some (goes_on l')) × IsSame l l' × At l' q × (p < q))

ends_with-Progress :
    (l : Lexer) (p : ℕ) (r : Option (Lexer × Outcome))
    → Progress l p r
    → RoundProgress l p (ends_with r)
ends_with-Progress l p r (l', o, q, e, s, a, lt) = inl (l', o, q, rw e refl, s, a, lt)

consume_comment_lem :
    (l₀ l : Lexer) (p : ℕ)
    → IsText l₀.source
    → IsSame l₀ l
    → At l p
    → (l' : Lexer) × (q : ℕ) × (consume_comment l ≡ some l') × IsSame l₀ l' × At l' q × (p ≤ q)
unfolding consume_comment
consume_comment_lem l₀ l p t s a = elim (look_lem l₀ l p t s a) [
  | found c k k' d pos le looks h q r runs b b' u u' ↦
      let (x, y, run, sx, ax, ly) =
        comment_loop_lem l₀ t (fuel_of l) k p k.peek_loc.line u b
          (omega (arith, ap length s.source)) in
      (x, y, ground arith, sx, ax, ly)
  | empty k d z looks h b u ↦
      let (x, y, run, sx, ax, ly) =
        comment_loop_lem l₀ t (fuel_of l) k p k.peek_loc.line u b
          (omega (arith, ap length s.source)) in
      (x, y, ground arith, sx, ax, ly)
]

consume_spaces_lem :
    (l : Lexer) (p : ℕ)
    → IsText l.source
    → At l p
    → (l' : Lexer) × (consume_spaces l ≡ some l')
      × IsSame l l'
      × At l' (p + run_length is_space (drop p l.source))
unfolding consume_spaces
consume_spaces_lem l p t a = spaces_loop_lem l t (fuel_of l) l p (IsSame-refl l) a (omega arith)

minus-Progress :
    (l l' : Lexer) (p : ℕ) (loc : Location)
    → IsText l.source
    → consume_char l ≡ some l'
    → IsSame l l'
    → At l' (suc p)
    → RoundProgress l p (minus_or_comment l loc)
unfolding minus_or_comment
minus-Progress l l' p loc t runs s a = elim (look_lem l l' (suc p) t s a) [
  | found c m m' d pos le looks h q r runs' a' a'' s' s'' ↦ elim (Bool-cases (m.peek_char == 45)) [
    | inl w ↦
        let (x, y, run, sx, ax, ly) = consume_comment_lem l m' (suc (suc p)) t s'' a'' in
        inr (x, y, ground arith, sx, ax, omega (arith, ly))
    | inr w ↦ inl (m, got (token_single t_sub loc), suc p, ground arith, s', a', omega arith)
  ]
  | empty m d z looks h a' s' ↦
      inl (m, got (token_single t_sub loc), suc p, ground arith, s', a', omega arith)
]

pub split {ℓ κ} :
    {A : Type ℓ} (P : A → Type κ) {x y : A} (b : Bool)
    → (b ≡ true → P x)
    → (b ≡ false → P y)
    → P (if b then x else y)
split P true f g = f refl
split P false f g = g refl

pub split_option {ℓ κ} :
    {A : Type ℓ} (P : A → Type κ) (o : Option TokenType) {f : TokenType → A} {y : A}
    → ((t : TokenType) → o ≡ some t → P (f t))
    → (o ≡ none → P y)
    → P (elim o [ some t ↦ f t | none ↦ y ])
split_option P none g h = h refl
split_option P (some t) g h = g t refl

-- A round on a peeked byte moves on.
one_round-Progress :
    (l l' : Lexer) (p c : ℕ) (s : Bytes)
    → IsText l.source
    → IsParsed l.source
    → At l p
    → l.has_peek ≡ true
    → l.ptr ≡ some (suc p)
    → l.peek_char ≡ blank c
    → drop p l.source ≡ c ∷ s
    → p < length l.source
    → consume_char l ≡ some l'
    → IsSame l l'
    → At l' (suc p)
    → RoundProgress l p (one_round l)
unfolding one_round
one_round-Progress l l' p c s t parsed a h e q d lt runs same a' =
    let P = RoundProgress l p in
    let loc = l.peek_loc in
    let equal : (ty : TokenType) (o : Outcome) → P (ends_with (with_equal l loc ty o)) =
      λ ty o. ends_with-Progress l p _ (with_equal-Progress l l l' p loc ty o t runs same a') in
    let len : l.peek_char == 32 ≡ true
        → run_length is_space (drop p l.source) ≡ suc (run_length is_space s) =
      λ w.
        ap (run_length is_space) d
        ∙ ap (λ b. if b then suc (run_length is_space s) else 0) (sym (ap (λ x. x == 32) q) ∙ w) in
    let spaces : l.peek_char == 32 ≡ true → P (do l₁ ← consume_spaces l; some (goes_on l₁)) = λ w.
      (let (x, run, sx, ax) = consume_spaces_lem l p t a in
        inr (x, _, rw run refl, sx, ax, omega (arith, len w))) in
    split_option P (single_type l.peek_char)
      (λ ty _. ends_with-Progress l p _ (single_char_token-Progress l l l' p ty loc runs same a'))
      (λ _.
        split P (l.peek_char == 45) (λ _. minus-Progress l l' p loc t runs same a')
          (λ _.
            split P (l.peek_char == 61) (λ _. equal _ _)
              (λ _.
                split P (l.peek_char == 60) (λ _. equal _ _)
                  (λ _.
                    split P (l.peek_char == 62) (λ _. equal _ _)
                      (λ _.
                        split P (l.peek_char == 33) (λ _. equal _ _)
                          (λ _.
                            split P (l.peek_char == 32) (λ w. spaces w)
                              (λ _.
                                split P (l.peek_char == 39)
                                  (λ _.
                                    ends_with-Progress l p _
                                      (consume_string-Progress l p t a h e lt))
                                  (λ _.
                                    split P (is_numeric l.peek_char)
                                      (λ w. ends_with-Progress l p _ (
                                        consume_number-Progress l p c s t parsed a e d
                                          (sym (numeric_blank c) ∙ sym (ap is_numeric q) ∙ w)))
                                      (λ _.
                                        split P (is_identifier l.peek_char)
                                          (λ w. ends_with-Progress l p _ (
                                            consume_identifier-Progress l p c s t a e d (
                                              sym (identifier_blank c)
                                              ∙ sym (ap is_identifier q)
                                              ∙ w)))
                                          (λ _. inr (
                                            l',
                                            suc p,
                                            rw runs refl,
                                            same,
                                            a',
                                            omega arith,
                                          )))))))))))

-- What the loop answers: the end of the source, or something that ends behind `p`.
abbrev pub Answers : Lexer → ℕ → Option (Lexer × Outcome) → Type 0
Answers l p r =
    (l' : Lexer) × (o : Outcome) × (q : ℕ) × (r ≡ some (l', o))
    × IsSame l l'
    × At l' q
    × (((o ≡ got token_eof) × (q ≡ length l.source)) ⊎ (p < q))

later : {A : Type 0} {p q r : ℕ} → A ⊎ (q < r) → p < q → A ⊎ (p < r)
later (inl a) h = inl a
later (inr k) h = inr (omega arith)

parse_loop-found :
    (fuel : ℕ) (l l₁ : Lexer)
    → look l ≡ some l₁
    → l₁.has_peek ≡ true
    → parse_loop (suc fuel) l ≡ (one_round l₁ >>= after fuel)
unfolding parse_loop
parse_loop-found fuel l l₁ e h = rw (e, ◌>>=◌, h) refl

ends_of :
    (fuel : ℕ) (r : Option Round) {l : Lexer} {o : Outcome}
    → (r >>= outcome_of) ≡ some (l, o)
    → (r >>= after fuel) ≡ some (l, o)
ends_of fuel none e = absurd (ground arith)
ends_of fuel (some (ends l' o)) e = e
ends_of fuel (some (goes_on l')) e = absurd (ground arith)

module _ (l₀ : Lexer) (t : IsText l₀.source) (parsed : IsParsed l₀.source) where
  parse_loop_lem :
      (fuel : ℕ) (l : Lexer) (p : ℕ)
      → IsSame l₀ l
      → At l p
      → length l₀.source < fuel + p
      → Answers l₀ p (parse_loop fuel l)
  unfolding parse_loop
  parse_loop_lem zero l p same a lt =
      let le = At-bound l p a in
      absurd (omega (arith, lt, subst (λ s. p ≤ length s) same.source le))
  parse_loop_lem (suc fuel) l p same a lt = elim (look_lem l₀ l p t same a) [
    | found c l₁ l₁' d pos le looks h q e runs a₁ a₁' s₁ s₁' ↦
        let back = sym s₁.source in
        elim (one_round-Progress l₁ l₁' p c _ (subst IsText back t) (subst IsParsed back parsed) a₁
          h e q (subst (λ s. drop p s ≡ c ∷ drop (suc p) l₀.source) back d)
          (subst (λ s. p < length s) back le) runs
          (record { source = s₁'.source ∙ back; peeks = s₁'.peeks ∙ sym s₁.peeks }) a₁') [
            | inl (l₂, o, q₂, r, s₂, a₂, lt₂) ↦ (
              l₂,
              o,
              q₂,
              parse_loop-found fuel l l₁ looks h ∙ ends_of fuel (one_round l₁) r,
              IsSame-trans s₁ s₂,
              a₂,
              inr lt₂,
            )
            | inr (l₂, q₂, r, s₂, a₂, lt₂) ↦
                let (l₃, o, q₃, r₃, s₃, a₃, c₃) =
                  parse_loop_lem fuel l₂ q₂ (IsSame-trans s₁ s₂) a₂ (omega (arith, lt, lt₂)) in
                (
                  l₃,
                  o,
                  q₃,
                  parse_loop-found fuel l l₁ looks h ∙ ap (λ r. r >>= after fuel) r ∙ r₃,
                  s₃,
                  a₃,
                  later c₃ lt₂,
                )
          ]
    | empty l₁ d z looks h a₁ s₁ ↦ (l₁, got token_eof, p, ground arith, s₁, a₁, inl (refl, z))
  ]

-- For a lexer at an offset of a source of less than 2^32 bytes, between 1 and 255, on which
-- nu_iparse never overflows, nulang__lexer_parse_token ends within its fuel with a token or an
-- error, reads nothing outside the source, keeps the source and the tokens that were peeked, and
-- either answers the end token at the end of the source or is behind the offset.
pub parse_token_lem :
    (l : Lexer) (p : ℕ) → IsText l.source → IsParsed l.source → At l p → Answers l p (parse_token l)
unfolding parse_token
parse_token_lem l p t parsed a =
    parse_loop_lem l t parsed (fuel_of l) l p (IsSame-refl l) a (omega arith)
