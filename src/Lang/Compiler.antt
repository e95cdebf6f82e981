-- ===== src/Lang/Compiler.antt =====
-- nucleus/lang/compiler.h: the compiler, which takes a source text through the phases.
pub mod Ends
mod Tests
use nextnucleus.Base.{u32, ℕ, Option, none, some, List}
use nextnucleus.Vm.Text.{Bytes}
use nextnucleus.Vm.Table.{TableManager}
use nextnucleus.Lang.Token.{Span, Location, LangError, TokenType}
use nextnucleus.Lang.Builtin.{SourceString}
use nextnucleus.Lang.Action.{Action, done, raised, fault, exhausted}
use nextnucleus.Lang.Lexer
use nextnucleus.Lang.Ast.{Ast, Node, clear}
use nextnucleus.Lang.Ast
use nextnucleus.Lang.Parser.{Parser}
use nextnucleus.Lang.Parser.Stmt.{parse}
use nextnucleus.Lang.Analyzer.{Analysis, analyze}

-- nulang_compiler_info_t without the machine, and nulang_compiler_info_default
pub record CompilerInfo : Type 0 where
  pub symbol_capacity : ℕ
  pub archetype_capacity : ℕ
  pub block_capacity : ℕ
  pub node_capacity : ℕ

unfoldable pub info_default : CompilerInfo
info_default = record {
  symbol_capacity = 256;
  archetype_capacity = 256;
  block_capacity = 256;
  node_capacity = 256;
}

-- nulang_status_t
pub data Status : Type 0 where
  success failure : Status

-- nulang_compiler_t: of the machine the tables, of the error data the fields that are written
pub record Compiler : Type 0 where
  pub tables : TableManager
  pub ast : Ast
  pub source : Option Bytes
  pub error : Option LangError
  pub span : Span
  pub token_expect : TokenType
  pub token_got : TokenType

-- nulang_compiler_init, with the block that the allocator answers; nulang__ast_init takes the capacity
-- as a nu_u32_t
unfoldable pub compiler_init : CompilerInfo → Option (List Node) → Action Compiler Status
unfolding Ast.init
compiler_init info block c = elim (Ast.init (u32 info.node_capacity) block) [
  | none ↦ fault
  | some none ↦ done failure (record c { error = some LangError.out_of_memory })
  | some (some ast) ↦ done success (record c { ast = ast; error = none })
]

-- nulang_compiler_free
unfoldable pub compiler_free : Action Compiler Status
compiler_free c = done success c

-- nulang__compiler_prepare
unfoldable pub compiler_prepare : Bytes → Compiler → Option Compiler
unfolding clear
compiler_prepare source c = elim (clear c.ast) [
  | none ↦ none
  | some ast ↦ some (record c { ast = ast; source = some source })
]

-- What the local variables of nulang_compile and of what it calls hold before they are set: the
-- peeked character of the lexer with its location, and the arrays of the symbol resolver.
pub record Locals : Type 0 where
  pub peek_char : ℕ
  pub peek_loc : Location
  pub names : List SourceString
  pub ids : List ℕ

-- The phases of nulang_compile, and what each of them leaves in the compiler.
abbrev pub parser_of : Locals → Bytes → Compiler → Parser
parser_of l source c = record {
  lexer = Lexer.init source c.span l.peek_char l.peek_loc;
  ast = c.ast;
  token_expect = c.token_expect;
  token_got = c.token_got;
}

abbrev pub after_parse : Compiler → Parser → Compiler
after_parse c p = record c {
  ast = p.ast;
  span = p.lexer.error;
  token_expect = p.token_expect;
  token_got = p.token_got;
}

abbrev pub analysis_of : Locals → Bytes → Compiler → Analysis
analysis_of l source c = record {
  ast = c.ast;
  tables = c.tables;
  source = source;
  error = c.span;
  names = l.names;
  ids = l.ids;
}

unfoldable pub analyze_phase : Locals → Bytes → Action Compiler Status
unfolding analyze
analyze_phase l source c = elim (analyze (analysis_of l source c)) [
  | done _ a ↦ done success (record c { ast = a.ast; span = a.error; error = none })
  | raised e a ↦ done failure (record c { ast = a.ast; span = a.error; error = some e })
  | fault ↦ fault
  | exhausted ↦ exhausted
]

unfoldable pub parse_phase : Locals → Bytes → Action Compiler Status
unfolding parse analyze_phase
parse_phase l source c = elim (parse (parser_of l source c)) [
  | done _ p ↦ analyze_phase l source (after_parse c p)
  | raised e p ↦ done failure (record (after_parse c p) { error = some e })
  | fault ↦ fault
  | exhausted ↦ exhausted
]

-- nulang_compile, without the print of the tree that is parsed
unfoldable pub compile : Locals → Bytes → Action Compiler Status
unfolding compiler_prepare parse_phase
compile l source c = elim (compiler_prepare source c) [
  | none ↦ fault
  | some c' ↦ parse_phase l source c'
]
