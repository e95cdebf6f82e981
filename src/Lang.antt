-- ===== src/Lang.antt =====
-- The language front end (nucleus/lang/): the lexer, the syntax tree, the parser, the analyzer and the
-- compiler.
pub mod Token
pub mod Action
pub mod Builtin
pub mod Ast
pub mod Lexer
pub mod Parser
pub mod Analyzer
pub mod Compiler
