-- ===== src/Lang/Parser/Stmt.antt =====
-- nucleus/lang/parser.h: statements, declarations and modules.
use nextnucleus.Base.{ℕ, zero, suc, ◌+◌, Bool, false, not, ◌||◌, none, some, if◌then◌else◌, length}
use nextnucleus.Vm.Types.{unknown}
use nextnucleus.Lang.Token.{Token, TokenType, Span, LangError, Literal}
use nextnucleus.Lang.Token
use nextnucleus.Lang.Ast.{NodeValue, Vartype}
use nextnucleus.Lang.Ast.Tables.{same_token}
use nextnucleus.Lang.Action.{exhausted, ◌>>=◌, ◌>>◌, pure, give_up, Next, again, stop}
use nextnucleus.Lang.Parser.{
  Parser, M, fresh_node, adopt, write_node, raise_at, identifier_of, parser_peek, parser_expect,
  parser_accept, forever,
}
use nextnucleus.Lang.Parser.Expr.{
  parse_expr, parse_symbol, try_parse_member_chain, parse_call, parse_vartype, try_parse_vartype,
  read_node,
}
use nextnucleus.Lang.Ast.{
  n_vardecl, n_compound, n_if, n_assign, n_while, n_fundecl, n_argdecl, n_return,
}

abbrev pub no_type : Vartype
no_type = record { primitive = unknown; archetype = none; archetype_name = none }

-- nulang__parse_vardecl
unfoldable pub parse_vardecl : (ℕ → M ℕ) → M ℕ
parse_vardecl expr = do
  _ ← parser_expect Token.t_let
  ident ← parser_expect Token.t_identifier
  (type, _) ← try_parse_vartype no_type
  _ ← parser_expect Token.t_assign
  e ← expr 0
  node ← fresh_node
  name ← identifier_of ident
  write_node node
      (λ n. record n { type = n_vardecl; span = ident.span; value = NodeValue.vardecl name type })
  adopt node e
  pure node

-- nulang__add_compound
unfoldable pub add_compound : ℕ → M ℕ
add_compound parent = do
  node ← fresh_node
  p ← read_node parent
  write_node node (λ n. record n { type = n_compound; span = p.span })
  adopt parent node
  pure node

-- The loops over the statements of a body: they end, with nothing consumed, at a token for which
-- `ends` holds.
unfoldable pub body_round : M ℕ → (TokenType → Bool) → ℕ → M (Next ℕ (Unit {0}))
body_round stmt ends body = do
  t ← parser_peek
  if ends t.type then pure (stop tt) else (do s ← stmt; adopt body s; pure (again body))

unfoldable pub ends_branch : TokenType → Bool
ends_branch t = same_token t Token.t_end || same_token t Token.t_else || same_token t Token.t_elif

unfoldable pub ends_block : TokenType → Bool
ends_block t = same_token t Token.t_end

-- nulang__parse_and_append_if_body
unfoldable pub parse_and_append_if_body : M ℕ → ℕ → M (Unit {0})
parse_and_append_if_body stmt if_node = do
  body ← add_compound if_node
  forever (body_round stmt ends_branch) body

-- nulang__parse_if_stmt: a condition with its body, the rounds for `elif`, and the rest
unfoldable pub condition : (ℕ → M ℕ) → M ℕ → ℕ → M (Unit {0})
condition expr stmt node = do
  e ← expr 0
  adopt node e
  _ ← parser_expect Token.t_then
  parse_and_append_if_body stmt node

unfoldable pub elif_round : (ℕ → M ℕ) → M ℕ → ℕ → M (Next ℕ (Unit {0}))
elif_round expr stmt node = do
  found ← parser_accept Token.t_elif
  elim found [ none ↦ pure (stop tt) | some _ ↦ (do condition expr stmt node; pure (again node)) ]

unfoldable pub else_body : M ℕ → ℕ → M (Unit {0})
else_body stmt node = do
  found ← parser_accept Token.t_else
  elim found [ none ↦ pure tt | some _ ↦ parse_and_append_if_body stmt node ]

unfoldable pub parse_if_stmt : (ℕ → M ℕ) → M ℕ → M ℕ
parse_if_stmt expr stmt = do
  t ← parser_expect Token.t_if
  node ← fresh_node
  write_node node (λ n. record n { type = n_if; span = t.span })
  condition expr stmt node
  forever (elif_round expr stmt) node
  else_body stmt node
  _ ← parser_expect Token.t_end
  pure node

-- nulang__parse_assign_stmt
unfoldable pub parse_assign_stmt : (ℕ → M ℕ) → ℕ → M ℕ
parse_assign_stmt expr ident = do
  t ← parser_expect Token.t_assign
  e ← expr 0
  node ← fresh_node
  write_node node (λ n. record n { type = n_assign; span = t.span })
  adopt node ident
  adopt node e
  pure node

-- nulang__parse_while_stmt
unfoldable pub parse_while_stmt : (ℕ → M ℕ) → M ℕ → M ℕ
parse_while_stmt expr stmt = do
  t ← parser_expect Token.t_while
  e ← expr 0
  node ← fresh_node
  write_node node (λ n. record n { type = n_while; span = t.span })
  adopt node e
  _ ← parser_expect Token.t_do
  body ← add_compound node
  forever (body_round stmt ends_block) body
  _ ← parser_expect Token.t_end
  pure node

-- nulang__parse_fundecl: the loop over the arguments reuses one variable for their types
unfoldable pub argdecl_round : ℕ → Vartype → M (Next Vartype Vartype)
argdecl_round node old = do
  t ← parser_expect Token.t_identifier
  type ← parse_vartype old
  arg ← fresh_node
  name ← identifier_of t
  write_node arg
      (λ n. record n { type = n_argdecl; span = t.span; value = NodeValue.argdecl name type })
  adopt node arg
  found ← parser_accept Token.t_comma
  pure (elim found [ none ↦ stop type | some _ ↦ again type ])

unfoldable pub parse_argdecls : ℕ → M Vartype
parse_argdecls node = do
  t ← parser_peek
  if not (same_token t.type Token.t_rparen)
      then forever (argdecl_round node) no_type
      else pure no_type

unfoldable pub parse_fundecl : M ℕ → Bool → M ℕ
parse_fundecl stmt exported = do
  _ ← parser_expect Token.t_function
  t ← parser_expect Token.t_identifier
  node ← fresh_node
  name ← identifier_of t
  write_node node (λ n. record n {
    type = n_fundecl;
    span = t.span;
    value = NodeValue.fundecl name no_type exported;
  })
  _ ← parser_expect Token.t_lparen
  old ← parse_argdecls node
  _ ← parser_expect Token.t_rparen
  (type, found) ← try_parse_vartype old
  if found
      then write_node node (λ n. record n { value = NodeValue.fundecl name type exported })
      else pure tt
  body ← add_compound node
  forever (body_round stmt ends_block) body
  _ ← parser_expect Token.t_end
  pure node

-- nulang__parse_return_stmt
unfoldable pub parse_return_stmt : (ℕ → M ℕ) → M ℕ
parse_return_stmt expr = do
  t ← parser_expect Token.t_return
  e ← expr 0
  node ← fresh_node
  write_node node (λ n. record n { type = n_return; span = t.span })
  adopt node e
  pure node

-- The case of an identifier in nulang__parse_stmt.
unfoldable pub parse_name_stmt : (ℕ → M ℕ) → M ℕ
parse_name_stmt expr = do
  ident ← parse_symbol
  chain ← try_parse_member_chain ident
  t ← parser_peek
  if same_token t.type Token.t_assign
      then parse_assign_stmt expr chain
      else if same_token t.type Token.t_lparen
      then parse_call expr chain
      else raise_at t.span LangError.identifier_as_statement

unfoldable pub no_stmt : Token → M ℕ
no_stmt t p = raise_at t.span LangError.non_statement_token (record p { token_got = t.type })

-- nulang__parse_stmt. In the cases that only `break`, the node is not set, and every caller reads
-- it: a fault.
unfoldable pub stmt_switch : (ℕ → M ℕ) → M ℕ → Token → M ℕ
stmt_switch expr stmt t = elim t.type [
  | Token.t_let ↦ parse_vardecl expr
  | Token.t_export ↦ give_up
  | Token.t_function ↦ parse_fundecl stmt false
  | Token.t_return ↦ parse_return_stmt expr
  | Token.t_if ↦ parse_if_stmt expr stmt
  | Token.t_for ↦ give_up
  | Token.t_while ↦ parse_while_stmt expr stmt
  | Token.t_break ↦ give_up
  | Token.t_continue ↦ give_up
  | Token.t_identifier ↦ parse_name_stmt expr
  | _ ↦ no_stmt t
]

unfoldable pub parse_stmt : ℕ → M ℕ
parse_stmt zero p = exhausted
parse_stmt (suc fuel) p = (do t ← parser_peek; stmt_switch (parse_expr fuel) (parse_stmt fuel) t) p

-- nulang__parse: the first loop goes on, with nothing consumed, at an import
unfoldable pub import_round : Unit {0} → M (Next (Unit {0}) (Unit {0}))
import_round _ = do
  t ← parser_peek
  pure (
      if same_token t.type Token.t_import || same_token t.type Token.t_from
      then again tt
      else stop tt)

unfoldable pub ends_module : TokenType → Bool
ends_module t = same_token t Token.t_eof

abbrev pub parse_fuel : Parser → ℕ
parse_fuel p = length p.lexer.source + 2

unfoldable pub parse : M (Unit {0})
parse p =
    (do
      forever import_round tt
      forever (body_round (parse_stmt (parse_fuel p)) ends_module) p.ast.root
      _ ← parser_expect Token.t_eof
      pure tt)
      p
