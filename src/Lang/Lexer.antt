-- ===== src/Lang/Lexer.antt =====
-- nucleus/lang/lexer.h: the characters of the source with a lookahead of one, and the scanner that
-- makes tokens of them. The source is the list of its bytes before the NUL, and `ptr` is an offset
-- into it. A result `none` is a null pointer, a read behind the NUL, or a loop that is out of fuel.
pub mod Keyword
pub mod Laws
pub mod Scan
pub mod Parse
mod Tests
use nextnucleus.Base.{
  [], ◌>>=◌, ℕ, zero, suc, ◌+◌, ◌-◌, Bool, true, false, not, Option, none, some, List, ◌∷◌, ◌==◌,
  if◌then◌else◌, ◌>>◌, assert, has, u16, u32,
}
use nextnucleus.Vm.Text.{Bytes}
use nextnucleus.Lang.Token.{Location, Span, Token, no_location}

-- nulang__lexer_t; `error` is the span of the error data, the one field that the lexer writes
pub record Lexer : Type 0 where
  pub error : Span
  pub source : Bytes
  pub ptr : Option ℕ
  pub next_loc : Location
  pub peek_char : ℕ
  pub peek_loc : Location
  pub has_peek : Bool
  pub peeks : List Token

-- nulang__lexer_init; the peeked character and the error data are not set
unfoldable pub init : Bytes → Span → ℕ → Location → Lexer
init source error c loc = record {
  error = error;
  source = source;
  ptr = some 0;
  next_loc = record { line = 1; column = 1; index = 0 };
  peek_char = c;
  peek_loc = loc;
  has_peek = false;
  peeks = [];
}

-- `*p`: the NUL stands behind the last byte.
unfoldable pub read_char : Bytes → ℕ → Option ℕ
read_char [] zero = some 0
read_char [] (suc i) = none
read_char (c ∷ s) zero = some c
read_char (c ∷ s) (suc i) = read_char s i

-- nulang_location_t behind a character
unfoldable pub advance : Location → ℕ → Location
advance loc c =
    if c == 0
    then record loc { index = u32 (loc.index + 1) }
    else if c == 10
    then record { line = u16 (loc.line + 1); column = 1; index = u32 (loc.index + 1) }
    else record { line = loc.line; column = u16 (loc.column + 1); index = u32 (loc.index + 1) }

-- nulang__source_stream_next: the lexer, the result, and what `c` and `loc` are afterwards
unfoldable pub source_stream_next : Lexer → ℕ → Location → Option (Lexer × Bool × ℕ × Location)
source_stream_next l c loc = elim l.ptr [
  | none ↦ some (l, false, c, loc)
  | some p ↦ (do
    d ← read_char l.source p
    some (
      record l { next_loc = advance l.next_loc d; ptr = if d == 0 then none else some (p + 1) },
      not (d == 0),
      if d == 10 then 32 else d,
      l.next_loc,
    ))
]

-- nulang__lexer_next_char
unfoldable pub next_char : Lexer → ℕ → Location → Option (Lexer × Bool × ℕ × Location)
unfolding source_stream_next
next_char l c loc =
    if l.has_peek
    then some (record l { has_peek = false }, true, l.peek_char, l.peek_loc)
    else source_stream_next l c loc

-- nulang__lexer_peek_char; `c` and `loc` are the fields `peek_char` and `peek_loc` of the result
unfoldable pub look : Lexer → Option Lexer
unfolding source_stream_next
look l = if l.has_peek then some l else (do
  (l', has, c, loc) ← source_stream_next l l.peek_char l.peek_loc
  some (record l' { has_peek = has; peek_char = c; peek_loc = loc }))

-- nulang__consume_char
unfoldable pub consume_char : Lexer → Option Lexer
unfolding next_char
consume_char l = do (l', _, _, _) ← next_char l 0 no_location; some l'

-- `lexer->ptr - 1`
unfoldable pub start_of : Lexer → Option ℕ
start_of l = elim l.ptr [ none ↦ none | some p ↦ assert (not (p == 0)) >> some (p - 1) ]
