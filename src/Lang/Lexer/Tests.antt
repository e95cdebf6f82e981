-- ===== src/Lang/Lexer/Tests.antt =====
-- Runs of the lexer on short sources, and the theorems at these runs.
use nextnucleus.Base.{
  [], ℕ, ◌+◌, ◌≡◌, refl, ap, ◌↔◌, true, false, none, some, List, ◌∷◌, arith, length, take,
}
use nextnucleus.Vm.Text.Compare.{IsText}
use nextnucleus.Lang.Token.{
  Location, t_literal, t_and, t_add, token_single, v_literal, l_string, unterminated_string,
}
use nextnucleus.Lang.Lexer.{
  Lexer, look, source_stream_next, read_char, advance, consume_char, next_char,
}
use nextnucleus.Lang.Lexer.Laws.{At, unread, peeked, IsSame}
use nextnucleus.Lang.Lexer.Keyword.{and_text, keyword, classify, early_keywords, late_keywords}
use nextnucleus.Lang.Lexer.Keyword.Laws.{keyword-and}
use nextnucleus.Lang.Lexer.Scan.{
  got, failed, consume_identifier, consume_string, token_at, single_char_token,
}
use nextnucleus.Lang.Lexer.Scan.Runs.{index_of}
use nextnucleus.Lang.Lexer.Scan.Tokens.{token_of, consume_identifier_lem, consume_string_lem}
use nextnucleus.Lang.Lexer.Scan.Progress.{IsParsed-short}
use nextnucleus.Lang.Lexer.Parse.{parse_token, parse_loop, one_round, single_type, next, peek}
use nextnucleus.Lang.Lexer.Parse.Laws.{Answers, parse_token_lem}
use nextnucleus.Lang.Lexer.Parse.Peek.{next-peek}

abbrev at_line : ℕ → ℕ → ℕ → Location
at_line l c i = record { line = l; column = c; index = i }

abbrev first : Location
first = at_line 1 1 0

abbrev lexer_on : List ℕ → Lexer
lexer_on s = record {
  error = record { start = first; stop = first };
  source = s;
  ptr = some 0;
  next_loc = first;
  peek_char = 0;
  peek_loc = first;
  has_peek = false;
  peeks = [];
}

-- The lexer that has peeked the first byte.
abbrev looking_at : ℕ → List ℕ → Lexer
looking_at c s = record (lexer_on (c ∷ s)) {
  ptr = some 1;
  has_peek = true;
  peek_char = c;
  next_loc = at_line 1 2 1;
}

keyword_runs :
    (keyword (97 ∷ 110 ∷ 100 ∷ 32 ∷ 120 ∷ []) 3 ≡ none) × (keyword (97 ∷ []) 1 ≡ some t_and)
unfolding keyword early_keywords late_keywords
keyword_runs = (refl, refl)

-- `a`
abbrev one_letter : List ℕ
one_letter = 97 ∷ []

-- `ab 1`
abbrev short : List ℕ
short = 97 ∷ 98 ∷ 32 ∷ 49 ∷ []

short-IsText : IsText short
short-IsText = (
  (omega arith, omega arith),
  ((omega arith, omega arith), ((omega arith, omega arith), ((omega arith, omega arith), tt))),
)

-- `'hi'`
abbrev quoted : List ℕ
quoted = 39 ∷ 104 ∷ 105 ∷ 39 ∷ []

quoted-IsText : IsText quoted
quoted-IsText = (
  (omega arith, omega arith),
  ((omega arith, omega arith), ((omega arith, omega arith), ((omega arith, omega arith), tt))),
)

looking_at_short : At (looking_at 97 (98 ∷ 32 ∷ 49 ∷ [])) 0
looking_at_short = peeked refl (ap some (omega arith)) (omega arith) (λ c h. ground arith)

looking_at_quoted : At (looking_at 39 (104 ∷ 105 ∷ 39 ∷ [])) 0
looking_at_quoted = peeked refl (ap some (omega arith)) (omega arith) (λ c h. ground arith)

parse_token_lem_example : Answers (lexer_on short) 0 (parse_token (lexer_on short))
parse_token_lem_example =
    parse_token_lem (lexer_on short) 0 short-IsText (IsParsed-short short (omega arith))
      (unread refl refl (omega arith))

-- The lexer on `ab 1`, and on `'hi'`, at the first byte.
abbrev at_short : Lexer
at_short = looking_at 97 (98 ∷ 32 ∷ 49 ∷ [])

abbrev at_quoted : Lexer
at_quoted = looking_at 39 (104 ∷ 105 ∷ 39 ∷ [])

consume_identifier_lem_example :
    (l' : Lexer) × (start : Location) × (stop : Location) × (consume_identifier at_short
      ≡ some (l', got (token_of (classify 0 short 2) start stop)))
    × IsSame at_short l'
    × At l' (0 + 2)
consume_identifier_lem_example =
    consume_identifier_lem (looking_at 97 (98 ∷ 32 ∷ 49 ∷ [])) 0 short-IsText looking_at_short refl

consume_string_lem_example :
    ((n : ℕ)
      → some 2 ≡ some n
      → (l' : Lexer) × (start : Location) × (stop : Location) × (consume_string at_quoted
          ≡ some (l', got (token_at t_literal start stop (v_literal (l_string 1 n)))))
        × IsSame at_quoted l'
        × At l' (1 + n + 1))
    × (index_of 39 (104 ∷ 105 ∷ 39 ∷ []) ≡ none
        → (l' : Lexer) × (consume_string at_quoted ≡ some (l', failed unterminated_string))
          × IsSame at_quoted l'
          × At l' 4)
consume_string_lem_example =
    consume_string_lem (looking_at 39 (104 ∷ 105 ∷ 39 ∷ [])) 0 quoted-IsText looking_at_quoted refl
      refl (omega arith)

keyword-and_example :
    (keyword one_letter 1 ≡ some t_and) ↔ ((1 ≡ length one_letter) × (take 1 and_text ≡ one_letter))
keyword-and_example = keyword-and one_letter 1 ((omega arith, omega arith), tt)

-- `+`
abbrev plus_read : Lexer
plus_read = record (lexer_on (43 ∷ [])) { ptr = some 1; next_loc = at_line 1 2 1; peek_char = 43 }

plus_runs : next (lexer_on (43 ∷ [])) ≡ some (plus_read, got (token_single t_add first))
unfolding next parse_token parse_loop look source_stream_next read_char advance one_round
    single_type single_char_token consume_char next_char
plus_runs = refl

next-peek_example :
    (l₁ : Lexer) × (peek (lexer_on (43 ∷ [])) 0 ≡ some (l₁, got (token_single t_add first)))
    × (l₁.peeks ≡ token_single t_add first ∷ [])
    × (next l₁ ≡ some (plus_read, got (token_single t_add first)))
next-peek_example =
    next-peek (lexer_on (43 ∷ [])) 0 ((omega arith, omega arith), tt)
      (IsParsed-short (43 ∷ []) (omega arith)) (unread refl refl (omega arith)) refl plus_runs
