-- ===== src/Lang/Lexer/Scan/Progress.antt =====
-- nucleus/lang/lexer.h: every way to read a token ends, and leaves the lexer behind the byte that it
-- began with.
use nextnucleus.Base.{
  u32_mod, ℕ, suc, ◌+◌, ◌≤◌, ◌<◌, ◌≡◌, refl, sym, ap, ◌∙◌, inl, inr, Bool, true, false, Option,
  none, some, ◌∷◌, arith, ◌==◌, if◌then◌else◌, Bool-cases, Option-cases, ◌>>=◌, length, drop,
}
use nextnucleus.Vm.Text.{Bytes}
use nextnucleus.Vm.Text.Compare.{IsText}
use nextnucleus.Vm.Fix.{iparse}
use nextnucleus.Vm.Fix.Laws.{fparse_total, iparse_total}
use nextnucleus.Lang.Token.{
  l_int, illegal_character, token_single, token_double, l_fix, parse_fixed_point, Location, Span,
  TokenType, is_identifier, is_numeric, v_literal, t_literal,
}
use nextnucleus.Lang.Lexer.{Lexer, look, consume_char, start_of}
use nextnucleus.Lang.Lexer.Laws.{At, IsSame, IsSame-refl, IsSame-trans, found, empty, look_lem}
use nextnucleus.Lang.Lexer.Scan.{
  Outcome, got, failed, fuel_of, single_char_token, consume_string, number_loop, consume_number,
  consume_identifier, with_equal, token_at, fail_at, number_token,
}
use nextnucleus.Lang.Lexer.Scan.Literals.{number_loop_lem}
use nextnucleus.Lang.Lexer.Scan.Runs.{nil-cons, run_length, index_of}
use nextnucleus.Lang.Lexer.Scan.Tokens.{
  consume_identifier_lem, consume_string_lem, start_of-suc, At-error,
}

-- The counters of the readers of literals do not wrap around on the source, which has less than 2^32
-- bytes, and nu_iparse overflows on no part of it.
pub IsParsed : Bytes → Type 0
IsParsed s =
    (length s < u32_mod)
    × ((p n : ℕ) → p + n ≤ length s → (r : Option ℕ) × (iparse (drop p s) n ≡ some r))

-- Sources of at most 9 bytes have no literal that overflows.
pub IsParsed-short : (s : Bytes) → length s ≤ 9 → IsParsed s
unfolding IsParsed
IsParsed-short s h = (omega arith, λ p n le. iparse_total (drop p s) n (omega arith))

-- A result of a lexer on the source of `l₀`, which is then behind `p`.
abbrev pub Progress : Lexer → ℕ → Option (Lexer × Outcome) → Type 0
Progress l₀ p r =
    (l' : Lexer) × (o : Outcome) × (q : ℕ) × (r ≡ some (l', o)) × IsSame l₀ l' × At l' q × (p < q)

pub single_char_token-Progress :
    (l₀ l l' : Lexer) (p : ℕ) (ty : TokenType) (loc : Location)
    → consume_char l ≡ some l'
    → IsSame l₀ l'
    → At l' (suc p)
    → Progress l₀ p (single_char_token l ty loc)
unfolding single_char_token
single_char_token-Progress l₀ l l' p ty loc runs s a =
    (l', got (token_single ty loc), suc p, rw runs refl, s, a, omega arith)

pub with_equal-Progress :
    (l₀ l l' : Lexer) (p : ℕ) (loc : Location) (ty : TokenType) (o : Outcome)
    → IsText l₀.source
    → consume_char l ≡ some l'
    → IsSame l₀ l'
    → At l' (suc p)
    → Progress l₀ p (with_equal l loc ty o)
unfolding with_equal
with_equal-Progress l₀ l l' p loc ty o t runs s a = elim (look_lem l₀ l' (suc p) t s a) [
  | found c m m' d pos le looks h q r runs' a' a'' s' s'' ↦ elim (Bool-cases (m.peek_char == 61)) [
    | inl w ↦ (m', got (token_double ty loc), suc (suc p), ground arith, s'', a'', omega arith)
    | inr w ↦ (m, o, suc p, ground arith, s', a', omega arith)
  ]
  | empty m d z looks h a' s' ↦ (m, o, suc p, ground arith, s', a', omega arith)
]

pub consume_identifier-Progress :
    (l : Lexer) (p c : ℕ) (s : Bytes)
    → IsText l.source
    → At l p
    → l.ptr ≡ some (suc p)
    → drop p l.source ≡ c ∷ s
    → is_identifier c ≡ true
    → Progress l p (consume_identifier l)
consume_identifier-Progress l p c s t a e d w =
    let (l', start, stop, runs, same, a') = consume_identifier_lem l p t a e in
    let len : run_length is_identifier (drop p l.source) ≡ suc (run_length is_identifier s) =
      ap (run_length is_identifier) d
      ∙ ap (λ b. if b then suc (run_length is_identifier s) else 0) w in
    (l', _, _, runs, same, a', omega (arith, len))

pub consume_string-Progress :
    (l : Lexer) (p : ℕ)
    → IsText l.source
    → At l p
    → l.has_peek ≡ true
    → l.ptr ≡ some (suc p)
    → p < length l.source
    → Progress l p (consume_string l)
consume_string-Progress l p t a h e lt =
    let (closed, unclosed) = consume_string_lem l p t a h e lt in
    elim (Option-cases (index_of 39 (drop (suc p) l.source))) [
      | inl i ↦ (let (l', runs, same, a') = unclosed i in (l', _, _, runs, same, a', lt))
      | inr (n, i) ↦
          (let (l', start, stop, runs, same, a') = closed n i in
            (l', _, _, runs, same, a', omega arith))
    ]

of_fixed : Lexer → Location → Location → Option ℕ → Lexer × Outcome
unfolding fail_at
of_fixed l start stop (some v) = (l, got (token_at t_literal start stop (v_literal (l_fix v))))
of_fixed l start stop none = fail_at l start stop parse_fixed_point

number_token_total :
    (text : Bytes) (start stop : Location) (l : Lexer) (dot fine : Bool) (n : ℕ)
    → n < u32_mod
    → ((r : Option ℕ) × (iparse text n ≡ some r))
    → (l' : Lexer) × (o : Outcome) × (number_token text start (l, stop, dot, n, fine)
        ≡ some (l', o))
      × ((q : ℕ) → At l q → At l' q)
      × IsSame l l'
unfolding number_token fail_at of_fixed
number_token_total text start stop l dot false n lt _ =
    (_, _, refl, λ q a. At-error l _ a, record { source = refl; peeks = refl })
number_token_total text start stop l true true n lt _ =
    let (r, e) = fparse_total text n lt in
    elim (Option-cases r) [
      | inr (v, f) ↦ (
        l,
        _,
        ap (λ o. o >>= λ v. some (of_fixed l start stop v)) (e ∙ ap some f),
        λ q a. a,
        IsSame-refl l,
      )
      | inl f ↦ (
        _,
        _,
        ap (λ o. o >>= λ v. some (of_fixed l start stop v)) (e ∙ ap some f),
        λ q a. At-error l _ a,
        record { source = refl; peeks = refl },
      )
    ]
number_token_total text start stop l false true n lt (some v, e) = (
  l,
  got (token_at t_literal start stop (v_literal (l_int v))),
  rw e refl,
  λ q a. a,
  IsSame-refl l,
)
number_token_total text start stop l false true n lt (none, e) =
    let err : Span = record { start = start; stop = stop } in
    (
      record l { error = err },
      failed illegal_character,
      rw e refl,
      λ q a. At-error l err a,
      record { source = refl; peeks = refl },
    )

consume_number-eq :
    (l l₁ : Lexer) (p n : ℕ) (r : Lexer × Location × Bool × ℕ × Bool)
    → start_of l ≡ some p
    → look l ≡ some l₁
    → number_loop (fuel_of l) l₁ l₁.peek_loc false 0 ≡ some r
    → consume_number l ≡ number_token (drop p l.source) l₁.peek_loc r
unfolding consume_number
consume_number-eq l l₁ p n r e look runs = rw (e, ◌>>=◌, look, ◌>>=◌, runs) refl

pub consume_number-Progress :
    (l : Lexer) (p c : ℕ) (s : Bytes)
    → IsText l.source
    → IsParsed l.source
    → At l p
    → l.ptr ≡ some (suc p)
    → drop p l.source ≡ c ∷ s
    → is_numeric c ≡ true
    → Progress l p (consume_number l)
unfolding IsParsed
consume_number-Progress l p c s t parsed a e d w = elim (look_lem l l p t (IsSame-refl l) a) [
  | found c' l₁ l₁' d' pos le looks h q r runs' a₁ a₁' s₁ s₁' ↦
      let (l₂, stop, dot, m, fine, runs, s₂, a₂, le₂, first) =
        number_loop_lem l t (fuel_of l) l₁ p l₁.peek_loc false 0 s₁ a₁ (omega arith) in
      let (l₃, o, runs₃, at, s₃) =
        number_token_total (drop p l.source) l₁.peek_loc stop l₂ dot fine (0 + m)
          (let b = parsed.0 in omega (arith, le₂)) (parsed.1 p (0 + m) (omega (arith, le₂))) in
      (
        l₃,
        o,
        p + m,
        consume_number-eq l l₁ p m _ (start_of-suc l p e) looks runs ∙ runs₃,
        IsSame-trans s₂ s₃,
        at (p + m) a₂,
        omega (arith, first c s d w),
      )
  | empty l₁ d' z looks h a₁ s₁ ↦ absurd (nil-cons (sym d' ∙ d))
]
