-- ===== src/Lang/Lexer/Parse.antt =====
-- nucleus/lang/lexer.h: nulang__lexer_parse_token, nulang__lexer_next and nulang__lexer_peek.
pub mod Laws
pub mod Peek
pub mod Typed
pub mod Ready
use nextnucleus.Base.{
  [], ℕ, zero, suc, ◌+◌, ◌-◌, ◌&&◌, Option, none, some, ◌∷◌, ◌++◌, ltb, ◌==◌, if◌then◌else◌, ◌>>=◌,
  ◌>>◌, assert, length, get_elem?,
}
use nextnucleus.Lang.Token.{
  Location, Token, TokenType, token_eof, token_single, is_numeric, is_identifier, LangError,
  illegal_character, t_add, t_sub, t_mul, t_div, t_lparen, t_rparen, t_lbracket, t_rbracket,
  t_comma, t_dot, t_colon, t_equal, t_assign, t_nequal, t_lequal, t_gequal, t_less, t_greater,
}
use nextnucleus.Lang.Lexer.{Lexer, look, consume_char}
use nextnucleus.Lang.Lexer.Scan.{
  Outcome, got, failed, fuel_of, single_char_token, consume_comment, consume_spaces, consume_string,
  consume_number, consume_identifier, with_equal,
}

-- The tokens of one character that no other token begins with: + * / ( ) ] [ , . :
unfoldable pub single_type : ℕ → Option TokenType
single_type c =
    if c == 43
    then some t_add
    else if c == 42
    then some t_mul
    else if c == 47
    then some t_div
    else if c == 40
    then some t_lparen
    else if c == 41
    then some t_rparen
    else if c == 93
    then some t_lbracket
    else if c == 91
    then some t_rbracket
    else if c == 44
    then some t_comma
    else if c == 46
    then some t_dot
    else if c == 58
    then some t_colon
    else none

-- What one round of the loop of nulang__lexer_parse_token does: it ends with an outcome, or the loop
-- goes on.
pub data Round : Type 0 where
  ends : Lexer → Outcome → Round
  goes_on : Lexer → Round

-- The case of `-`: a second one begins a comment.
unfoldable pub minus_or_comment : Lexer → Location → Option Round
minus_or_comment l loc = do
  l₁ ← consume_char l
  l₂ ← look l₁
  let comment = (do l₃ ← consume_char l₂; l₄ ← consume_comment l₃; some (goes_on l₄))
  if l₂.has_peek && l₂.peek_char == 45
      then comment
      else some (ends l₂ (got (token_single t_sub loc)))

abbrev pub ends_with : Option (Lexer × Outcome) → Option Round
ends_with r = do (l, o) ← r; some (ends l o)

-- The `switch`, where the lexer has a character.
unfoldable pub one_round : Lexer → Option Round
unfolding minus_or_comment single_type
one_round l =
    let c = l.peek_char in
    let loc = l.peek_loc in
    let spaces = (do l₁ ← consume_spaces l; some (goes_on l₁)) in
    let skipped = (do l₁ ← consume_char l; some (goes_on l₁)) in
    elim (single_type c) [
      | some t ↦ ends_with (single_char_token l t loc)
      | none ↦
          if c == 45
          then minus_or_comment l loc
          else if c == 61
          then ends_with (with_equal l loc t_equal (got (token_single t_assign loc)))
          else if c == 60
          then ends_with (with_equal l loc t_lequal (got (token_single t_less loc)))
          else if c == 62
          then ends_with (with_equal l loc t_gequal (got (token_single t_greater loc)))
          else if c == 33
          then ends_with (with_equal l loc t_nequal (failed illegal_character))
          else if c == 32
          then spaces
          else if c == 39
          then ends_with (consume_string l)
          else if is_numeric c
          then ends_with (consume_number l)
          else if is_identifier c
          then ends_with (consume_identifier l)
          else skipped
    ]

unfoldable pub parse_loop : ℕ → Lexer → Option (Lexer × Outcome)
parse_loop zero l = none
parse_loop (suc fuel) l = do
  l₁ ← look l
  let more = (do
    r ← one_round l₁
    elim r [ ends l₂ o ↦ some (l₂, o) | goes_on l₂ ↦ parse_loop fuel l₂ ])
  if l₁.has_peek then more else some (l₁, got token_eof)

-- nulang__lexer_parse_token
unfoldable pub parse_token : Lexer → Option (Lexer × Outcome)
unfolding parse_loop
parse_token l = parse_loop (fuel_of l) l

-- nulang__lexer_next: the first of the tokens that were peeked, or a new one
unfoldable pub next : Lexer → Option (Lexer × Outcome)
next l = elim l.peeks [ [] ↦ parse_token l | t ∷ ts ↦ some (record l { peeks = ts }, got t) ]

-- NULANG_LEXER_MAX_PEEKS
abbrev pub max_peeks : ℕ
max_peeks = 5

-- The loop of nulang__lexer_peek: a new token goes behind those that were peeked.
abbrev pub add_peek : Lexer → Token → Option Lexer
add_peek l t =
    assert (ltb (length l.peeks) max_peeks) >> some (record l { peeks = l.peeks ++ t ∷ [] })

unfoldable pub fill_peeks : ℕ → Lexer → Option (Lexer × Option LangError)
fill_peeks zero l = some (l, none)
fill_peeks (suc n) l = do
  (l₁, o) ← parse_token l
  elim o [ failed e ↦ some (l₁, some e) | got t ↦ add_peek l₁ t >>= λ l₂. fill_peeks n l₂ ]

-- nulang__lexer_peek
unfoldable pub peek : Lexer → ℕ → Option (Lexer × Outcome)
unfolding fill_peeks
peek l lookahead = do
  (l₁, e) ← fill_peeks (lookahead + 1 - length l.peeks) l
  elim e [
    | some e ↦ some (l₁, failed e)
    | none ↦ (do t ← get_elem? l₁.peeks lookahead; some (l₁, got t))
  ]
