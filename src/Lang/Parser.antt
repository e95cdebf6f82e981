-- ===== src/Lang/Parser.antt =====
-- nucleus/lang/parser.h: the state of the parser and its operations on tokens. The lexer's error
-- data and the parser's are one object: its span is the lexer's field `error`.
pub mod Expr
pub mod Stmt
pub mod Idents
pub mod Post
pub mod Nodes
pub mod Loops
pub mod Chains
pub mod Stays
pub mod Calls
pub mod Atoms
pub mod Total
pub mod Simple
pub mod Runs
pub mod Blocks
pub mod Fundecl
pub mod Modules
pub mod Program
mod Tests
use nextnucleus.Base.{ℕ, ◌+◌, not, Option, none, some, if◌then◌else◌, length}
use nextnucleus.Lang.Action.{Action, Reply, done, raised, fault, ◌>>=◌, pure, give_up, Next, rounds}
use nextnucleus.Lang.Token.{
  Token, TokenType, Span, Literal, v_identifier, v_primitive, v_literal, LangError,
  unexpected_token,
}
use nextnucleus.Vm.Types.{Primitive}
use nextnucleus.Lang.Builtin.{SourceString}
use nextnucleus.Lang.Lexer.{Lexer}
use nextnucleus.Lang.Lexer.Scan.{Outcome, got, failed}
use nextnucleus.Lang.Lexer.Parse.{next, peek}
use nextnucleus.Lang.Ast.{Ast, Node, add_node, append_child, change_node}
use nextnucleus.Lang.Ast.Tables.{same_token}

-- nulang__parser_t, with the two fields of the error data that the parser writes beside the span
pub record Parser : Type 0 where
  pub lexer : Lexer
  pub ast : Ast
  pub token_expect : TokenType
  pub token_got : TokenType

abbrev pub M : Type 0 → Type 0
M A = Action Parser A

-- What a lexer or tree operation makes of the parser.
abbrev pub from_lexer : Option (Lexer × Outcome) → Parser → Reply Parser Token
from_lexer none p = fault
from_lexer (some (l, got t)) p = done t (record p { lexer = l })
from_lexer (some (l, failed e)) p = raised e (record p { lexer = l })

abbrev pub from_add : Option (Option (Ast × ℕ)) → Parser → Reply Parser ℕ
from_add none p = fault
from_add (some none) p = raised LangError.out_of_node p
from_add (some (some (ast, id))) p = done id (record p { ast = ast })

abbrev pub from_tree : Option Ast → Parser → Reply Parser (Unit {0})
from_tree none p = fault
from_tree (some ast) p = done tt (record p { ast = ast })

unfoldable pub fresh_node : M ℕ
fresh_node p = from_add (add_node p.ast) p

unfoldable pub adopt : ℕ → ℕ → M (Unit {0})
adopt parent child p = from_tree (append_child p.ast parent child) p

unfoldable pub write_node : ℕ → (Node → Node) → M (Unit {0})
write_node id f p = from_tree (change_node p.ast id f) p

-- `parser->error->span = span`, and an error
unfoldable pub raise_at : {A : Type 0} → Span → LangError → M A
raise_at span e p = raised e (record p { lexer = record p.lexer { error = span } })

-- The member of the token's value that its type says.
abbrev pub identifier_of : Token → M SourceString
identifier_of t = elim t.value [ v_identifier p n ↦ pure (record { p = p; n = n }) | _ ↦ give_up ]

abbrev pub primitive_of : Token → M Primitive
primitive_of t = elim t.value [ v_primitive q ↦ pure q | _ ↦ give_up ]

abbrev pub literal_of : Token → M Literal
literal_of t = elim t.value [ v_literal v ↦ pure v | _ ↦ give_up ]

-- nulang__parser_peek, always one token ahead, and nulang__parser_consume
unfoldable pub parser_peek : M Token
parser_peek p = from_lexer (peek p.lexer 0) p

unfoldable pub parser_consume : M Token
parser_consume p = from_lexer (next p.lexer) p

-- nulang__parser_expect
unfoldable pub unexpected : {A : Type 0} → TokenType → Token → M A
unexpected type t p = raised unexpected_token (record p {
  token_got = t.type;
  token_expect = type;
  lexer = record p.lexer { error = t.span };
})

unfoldable pub parser_expect : TokenType → M Token
unfolding unexpected
parser_expect type = do
  t ← parser_consume
  if not (same_token t.type type) then unexpected type t else pure t

-- nulang__parser_accept: the token if it was found
unfoldable pub parser_accept : TokenType → M (Option Token)
parser_accept type = do
  t ← parser_peek
  if same_token t.type type then (do u ← parser_consume; pure (some u)) else pure none

-- A loop of the parser has as many rounds as the source has bytes, and two more, since each round that
-- goes on consumes a token.
unfoldable pub forever : {R T : Type 0} → (R → M (Next R T)) → R → M T
unfolding rounds
forever body s p = rounds (length p.lexer.source + 2) body s p
