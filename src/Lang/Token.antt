-- ===== src/Lang/Token.antt =====
-- nucleus/lang/token.h and nucleus/lang/error.h: the tokens of the language with their places in the
-- source, and the error codes of the front end.
use nextnucleus.Base.{ℕ, ◌+◌, Bool, ◌&&◌, ◌||◌, leb, ◌==◌, u16}
use nextnucleus.Vm.Types.{Primitive}

-- nulang_location_t
pub record Location : Type 0 where
  pub line : ℕ
  pub column : ℕ
  pub index : ℕ

-- nulang__token_type_t
pub data TokenType : Type 0 where
  t_identifier t_primitive t_literal t_import t_from t_export t_comment t_space t_lparen : TokenType
  t_rparen t_lbracket t_rbracket t_comma t_dot t_colon t_add t_sub t_mul t_div t_equal : TokenType
  t_assign t_nequal t_lequal t_gequal t_less t_greater t_and t_or t_not t_let t_if : TokenType
  t_then t_else t_elif t_end t_do t_for t_in t_while t_function t_break t_continue : TokenType
  t_return t_insert t_delete t_singleton t_iter t_next t_eof : TokenType

-- nulang__span_t
pub record Span : Type 0 where
  pub start : Location
  pub stop : Location

-- nulang__lit_t with nulang__lit_value_t; a string is its offset in the source and its length
pub data Literal : Type 0 where
  l_nil : Literal
  l_bool : Bool → Literal
  l_string : ℕ → ℕ → Literal
  l_int : ℕ → Literal
  l_fix : ℕ → Literal

-- nulang__token_value_t
pub data TokenValue : Type 0 where
  no_value : TokenValue
  v_primitive : Primitive → TokenValue
  v_literal : Literal → TokenValue
  v_identifier : ℕ → ℕ → TokenValue

-- nulang__token_t
pub record Token : Type 0 where
  pub type : TokenType
  pub span : Span
  pub value : TokenValue

abbrev pub no_location : Location
no_location = record { line = 0; column = 0; index = 0 }

-- NULANG_TOKEN_EOF, NULANG_TOKEN_SINGLE and NULANG_TOKEN_DOUBLE
abbrev pub token_eof : Token
token_eof = record {
  type = t_eof;
  span = record { start = no_location; stop = no_location };
  value = no_value;
}

abbrev pub token_single : TokenType → Location → Token
token_single t loc = record {
  type = t;
  span = record { start = loc; stop = loc };
  value = no_value;
}

abbrev pub token_double : TokenType → Location → Token
token_double t loc = record {
  type = t;
  span = record {
    start = loc;
    stop = record { line = loc.line; column = u16 (loc.column + 1); index = 0 };
  };
  value = no_value;
}

-- NULANG_NUMERIC_CHAR and NULANG_IDENTIFIER_CHAR
abbrev pub is_numeric : ℕ → Bool
is_numeric c = leb 48 c && leb c 57

abbrev pub is_identifier : ℕ → Bool
is_identifier c = is_numeric c || (leb 97 c && leb c 122) || c == 95

-- nulang__error_t, without NULANG_ERROR_NONE
pub data LangError : Type 0 where
  out_of_node out_of_memory illegal_character parse_fixed_point unterminated_string : LangError
  unexpected_token symbol_already_defined invalid_atom_expression unexpected_binop : LangError
  non_statement_token identifier_as_statement invalid_vartype : LangError
  function_outside_global_scope duplicated_function_argument incompatible_type : LangError
  illegal_arithmetic illegal_comparison illegal_logical unknown_symbol_type : LangError
  archetype_not_found unresolved_symbol not_callable_symbol non_boolean_expression : LangError
  return_outside_function : LangError
