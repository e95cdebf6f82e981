-- ===== src/Lang/Lexer/Scan.antt =====
-- nucleus/lang/lexer.h: the scanner. Every loop consumes a character in each round, so that its fuel
-- is the length of the source and two more.
pub mod Runs
pub mod Laws
pub mod Literals
pub mod Tokens
pub mod Progress
use nextnucleus.Base.{
  ◌>>=◌, ℕ, zero, suc, ◌+◌, Bool, true, false, not, ◌&&◌, ◌||◌, Option, none, some, ◌==◌,
  if◌then◌else◌, length, drop,
}
use nextnucleus.Vm.Text.{Bytes}
use nextnucleus.Vm.Fix.{fparse, iparse}
use nextnucleus.Lang.Token.{
  Location, Token, TokenType, TokenValue, token_single, token_double, v_literal, l_string, l_int,
  l_fix, is_numeric, is_identifier, LangError, illegal_character, parse_fixed_point,
  unterminated_string, t_literal, no_location,
}
use nextnucleus.Lang.Lexer.{Lexer, look, consume_char, next_char, start_of}
use nextnucleus.Lang.Lexer.Keyword.{classify}

-- What a function with a token as its out parameter answers.
pub data Outcome : Type 0 where
  got : Token → Outcome
  failed : LangError → Outcome

abbrev pub fuel_of : Lexer → ℕ
fuel_of l = length l.source + 2

-- nulang__consume_single_char_token
unfoldable pub single_char_token : Lexer → TokenType → Location → Option (Lexer × Outcome)
single_char_token l t loc = do l' ← consume_char l; some (l', got (token_single t loc))

-- nulang__consume_comment
unfoldable pub comment_loop : ℕ → Lexer → ℕ → Option Lexer
comment_loop zero l line = none
comment_loop (suc fuel) l line = do
  l₁ ← look l
  let more = (do l₂ ← consume_char l₁; comment_loop fuel l₂ line)
  if not l₁.has_peek then some l₁ else if not (l₁.peek_loc.line == line) then some l₁ else more

unfoldable pub consume_comment : Lexer → Option Lexer
unfolding comment_loop
consume_comment l = do l₁ ← look l; comment_loop (fuel_of l) l₁ l₁.peek_loc.line

-- nulang__consume_spaces
unfoldable pub spaces_loop : ℕ → Lexer → Option Lexer
spaces_loop zero l = none
spaces_loop (suc fuel) l = do
  l₁ ← look l
  let more = (do l₂ ← consume_char l₁; spaces_loop fuel l₂)
  if not l₁.has_peek then some l₁ else if not (l₁.peek_char == 32) then some l₁ else more

unfoldable pub consume_spaces : Lexer → Option Lexer
unfolding spaces_loop
consume_spaces l = spaces_loop (fuel_of l) l

-- nulang__consume_string: the loop answers the place of the closing quote and the length, or that
-- there is no closing quote.
unfoldable pub string_loop : ℕ → Lexer → ℕ → Option (Lexer × Option (Location × ℕ))
string_loop zero l n = none
string_loop (suc fuel) l n = do
  l₁ ← look l
  let more = (do
    l₂ ← consume_char l₁
    let rest = string_loop fuel l₂ (n + 1)
    if l₁.peek_char == 39 then some (l₂, some (l₁.peek_loc, n)) else rest)
  if not l₁.has_peek then some (l₁, none) else more

abbrev pub token_at : TokenType → Location → Location → TokenValue → Token
token_at t start stop v = record {
  type = t;
  span = record { start = start; stop = stop };
  value = v;
}

unfoldable pub string_token : Location → ℕ → Lexer × Option (Location × ℕ) → Lexer × Outcome
string_token start s (l, some (stop, n)) =
    (l, got (token_at t_literal start stop (v_literal (l_string s n))))
string_token start s (l, none) =
    (record l { error = record { start = start; stop = start } }, failed unterminated_string)

unfoldable pub consume_string : Lexer → Option (Lexer × Outcome)
unfolding string_loop
consume_string l = do
  (l₁, _, _, start) ← next_char l 0 no_location
  s ← l₁.ptr
  r ← string_loop (fuel_of l) l₁ 0
  some (string_token start s r)

-- nulang__consume_number: the loop answers where the number stops, if it has a dot, and its length,
-- and if it ended without an illegal character.
unfoldable pub number_loop :
    ℕ → Lexer → Location → Bool → ℕ → Option (Lexer × Location × Bool × ℕ × Bool)
number_loop zero l stop has_dot n = none
number_loop (suc fuel) l stop has_dot n = do
  l₁ ← look l
  let dot = l₁.peek_char == 46
  let more = (do l₂ ← consume_char l₁; number_loop fuel l₂ l₁.peek_loc (has_dot || dot) (n + 1))
  if not l₁.has_peek
      then some (l₁, stop, has_dot, n, true)
      else if is_numeric l₁.peek_char || dot
      then (if dot && has_dot then some (l₁, l₁.peek_loc, has_dot, n, false) else more)
      else some (l₁, stop, has_dot, n, not (is_identifier l₁.peek_char))

unfoldable pub fail_at : Lexer → Location → Location → LangError → Lexer × Outcome
fail_at l start stop e = (record l { error = record { start = start; stop = stop } }, failed e)

-- What follows the loop: `text` is the source from the number on.
unfoldable pub number_token :
    Bytes → Location → Lexer × Location × Bool × ℕ × Bool → Option (Lexer × Outcome)
unfolding fail_at
number_token text start (l, stop, has_dot, n, false) = some (fail_at l start stop illegal_character)
number_token text start (l, stop, true, n, true) = do
  v ← fparse text n
  some (elim v [
    | some v ↦ (l, got (token_at t_literal start stop (v_literal (l_fix v))))
    | none ↦ fail_at l start stop parse_fixed_point
  ])
number_token text start (l, stop, false, n, true) = do
  v ← iparse text n
  some (elim v [
    | some v ↦ (l, got (token_at t_literal start stop (v_literal (l_int v))))
    | none ↦ fail_at l start stop illegal_character
  ])

unfoldable pub consume_number : Lexer → Option (Lexer × Outcome)
unfolding number_loop
consume_number l = do
  s ← start_of l
  l₁ ← look l
  r ← number_loop (fuel_of l) l₁ l₁.peek_loc false 0
  number_token (drop s l.source) l₁.peek_loc r

-- nulang__consume_identifier
unfoldable pub identifier_loop : ℕ → Lexer → Location → ℕ → Option (Lexer × Location × ℕ)
identifier_loop zero l stop n = none
identifier_loop (suc fuel) l stop n = do
  l₁ ← look l
  let more = (do l₂ ← consume_char l₁; identifier_loop fuel l₂ l₁.peek_loc (n + 1))
  if not l₁.has_peek
      then some (l₁, stop, n)
      else if not (is_identifier l₁.peek_char)
      then some (l₁, stop, n)
      else more

unfoldable pub consume_identifier : Lexer → Option (Lexer × Outcome)
unfolding identifier_loop
consume_identifier l = do
  s ← start_of l
  l₁ ← look l
  let start = l₁.peek_loc
  (l₂, stop, n) ← identifier_loop (fuel_of l) l₁ start 0
  let (t, v) = classify s (drop s l.source) n
  some (l₂, got (token_at t start stop v))

-- The cases of `=`, `<`, `>` and `!`: with a second `=`, the token `double`; without it what `single`
-- answers.
unfoldable pub with_equal : Lexer → Location → TokenType → Outcome → Option (Lexer × Outcome)
with_equal l loc double single = do
  l₁ ← consume_char l
  l₂ ← look l₁
  let two = (do l₃ ← consume_char l₂; some (l₃, got (token_double double loc)))
  if l₂.has_peek && l₂.peek_char == 61 then two else some (l₂, single)
