-- ===== src/Lang/Lexer/Scan/Tokens.antt =====
-- nucleus/lang/lexer.h: the tokens of several characters. In each theorem the lexer has peeked the
-- byte at `p`.
use nextnucleus.Base.{
  ◌>>=◌, ℕ, suc, ◌+◌, ◌<◌, ◌≡◌, refl, ap, ◌∙◌, Bool, true, false, Option, none, some, arith,
  if◌then◌else◌, length, drop, has,
}
use nextnucleus.Vm.Text.Compare.{IsText}
use nextnucleus.Lang.Token.{
  Location, Span, Token, TokenType, TokenValue, no_location, is_identifier, v_literal, l_string,
  t_literal, unterminated_string,
}
use nextnucleus.Lang.Lexer.{Lexer, look, next_char, source_stream_next, start_of}
use nextnucleus.Lang.Lexer.Laws.{
  At, peeked, unread, ended, IsSame, IsSame-refl, found, empty, look_lem,
}
use nextnucleus.Lang.Lexer.Keyword.{classify}
use nextnucleus.Lang.Lexer.Scan.{
  got, failed, fuel_of, string_loop, consume_string, string_token, identifier_loop,
  consume_identifier, token_at,
}
use nextnucleus.Lang.Lexer.Scan.Laws.{identifier_loop_lem}
use nextnucleus.Lang.Lexer.Scan.Literals.{string_loop_lem}
use nextnucleus.Lang.Lexer.Scan.Runs.{run_length, index_of, length_in, plus}

-- A token of a given type and value.
abbrev pub token_of : TokenType × TokenValue → Location → Location → Token
token_of c start stop = let (t, v) = c in token_at t start stop v

pub start_of-suc : (l : Lexer) (p : ℕ) → l.ptr ≡ some (suc p) → start_of l ≡ some p
unfolding start_of
start_of-suc l p e = ground arith

consume_identifier-eq :
    (l l₁ l₂ : Lexer) (p n : ℕ) (stop : Location)
    → start_of l ≡ some p
    → look l ≡ some l₁
    → identifier_loop (fuel_of l) l₁ l₁.peek_loc 0 ≡ some (l₂, stop, 0 + n)
    → consume_identifier l
      ≡ some (l₂, got (token_of (classify p (drop p l.source) n) l₁.peek_loc stop))
unfolding consume_identifier
consume_identifier-eq l l₁ l₂ p n stop e r h =
    let h' : identifier_loop (fuel_of l) l₁ l₁.peek_loc 0 ≡ some (l₂, stop, n) =
      h ∙ ap (λ k. some (l₂, stop, k)) (omega arith) in
    rw (e, ◌>>=◌, r, ◌>>=◌, h') refl

-- From the first byte of an identifier, which is peeked, nulang__consume_identifier takes exactly
-- the identifier characters that follow, and the token is what the chains of keywords, literals and
-- primitives make of that text.
pub consume_identifier_lem :
    (l : Lexer) (p : ℕ)
    → IsText l.source
    → At l p
    → l.ptr ≡ some (suc p)
    → (l' : Lexer) × (start : Location) × (stop : Location) × (consume_identifier l
        ≡ some (
          l',
          got (
              token_of
                (classify p (drop p l.source) (run_length is_identifier (drop p l.source)))
                start
                stop),
        ))
      × IsSame l l'
      × At l' (p + run_length is_identifier (drop p l.source))
consume_identifier_lem l p t a e = elim (look_lem l l p t (IsSame-refl l) a) [
  | found c l' l'' d pos le runs h q r runs' a' a'' s' s'' ↦
      let (l₂, stop, ih, s₂, a₂) =
        identifier_loop_lem l t (fuel_of l) l' p l'.peek_loc 0 s' a' (omega arith) in
      (
        l₂,
        l'.peek_loc,
        stop,
        consume_identifier-eq l l' l₂ p _ stop (start_of-suc l p e) runs ih,
        s₂,
        a₂,
      )
  | empty l' d z runs h a' s' ↦
      let (l₂, stop, ih, s₂, a₂) =
        identifier_loop_lem l t (fuel_of l) l' p l'.peek_loc 0 s' a' (omega arith) in
      (
        l₂,
        l'.peek_loc,
        stop,
        consume_identifier-eq l l' l₂ p _ stop (start_of-suc l p e) runs ih,
        s₂,
        a₂,
      )
]

length_in-some :
    (r : Option (Location × ℕ)) {n : ℕ}
    → length_in r ≡ some n
    → (stop : Location) × (r ≡ some (stop, n))
length_in-some none h = absurd (ground arith)
length_in-some (some (stop, n)) h = (stop, ap (λ k. some (stop, k)) (ground arith))

length_in-none : (r : Option (Location × ℕ)) → length_in r ≡ none → r ≡ none
length_in-none none h = refl
length_in-none (some (stop, n)) h = absurd (ground arith)

pub At-error : (l : Lexer) (e : Span) {p : ℕ} → At l p → At (record l { error = e }) p
At-error l e (peeked h q lt is) = peeked h q lt is
At-error l e (unread h q le) = unread h q le
At-error l e (ended h q z) = ended h q z

consume_string-eq :
    (l l₁ l₂ : Lexer) (c : ℕ) (has : Bool) (start : Location) (s : ℕ) (r : Option (Location × ℕ))
    → next_char l 0 no_location ≡ some (l₁, has, c, start)
    → l₁.ptr ≡ some s
    → string_loop (fuel_of l) l₁ 0 ≡ some (l₂, r)
    → consume_string l ≡ some (string_token start s (l₂, r))
unfolding consume_string
consume_string-eq l l₁ l₂ c has start s r e e' h = ground arith

-- A string literal whose opening quote is peeked has the length up to the next quote, and the lexer
-- is then behind that quote; without another quote the result is the error for an unterminated
-- string, at the end of the source.
pub consume_string_lem :
    (l : Lexer) (p : ℕ)
    → IsText l.source
    → At l p
    → l.has_peek ≡ true
    → l.ptr ≡ some (suc p)
    → p < length l.source
    → ((n : ℕ)
        → index_of 39 (drop (suc p) l.source) ≡ some n
        → (l' : Lexer) × (start : Location) × (stop : Location) × (consume_string l
            ≡ some (l', got (token_at t_literal start stop (v_literal (l_string (suc p) n)))))
          × IsSame l l'
          × At l' (suc p + n + 1))
      × (index_of 39 (drop (suc p) l.source) ≡ none
          → (l' : Lexer) × (consume_string l ≡ some (l', failed unterminated_string))
            × IsSame l l'
            × At l' (length l.source))
unfolding next_char string_token
consume_string_lem l p t a h e lt =
    let l₁ = record l { has_peek = false } in
    let nx : next_char l 0 no_location ≡ some (l₁, true, l.peek_char, l.peek_loc) =
      ap
        (λ b.
          if b
          then some (l₁, true, l.peek_char, l.peek_loc)
          else source_stream_next l 0 no_location)
        h in
    let (l₂, r, runs, s₂, len, at, end) =
      string_loop_lem l t (fuel_of l) l₁ (suc p) 0 (record { source = refl; peeks = refl })
        (unread refl e lt) (omega arith) in
    let q = consume_string-eq l l₁ l₂ l.peek_char true l.peek_loc (suc p) r nx e runs in
    (
      λ n i.
          (let (stop, er) = length_in-some r (len ∙ ap (plus 0) i ∙ ap some (omega arith)) in
            (
              l₂,
              l.peek_loc,
              stop,
              q ∙ ap (λ r. some (string_token l.peek_loc (suc p) (l₂, r))) er,
              s₂,
              at n i,
            )),
      λ i.
          (let er = length_in-none r (len ∙ ap (plus 0) i) in
            (
              record l₂ { error = record { start = l.peek_loc; stop = l.peek_loc } },
              q ∙ ap (λ r. some (string_token l.peek_loc (suc p) (l₂, r))) er,
              record { source = s₂.source; peeks = s₂.peeks },
              At-error l₂ _ (end i),
            )),
    )
