-- ===== src/Lang/Parser/Expr.antt =====
-- nucleus/lang/parser.h: types, member chains, calls and expressions. A node is written through
-- `write_node`; the functions that parse what they contain take the parser of that as an argument.
use nextnucleus.Base.{
  ℕ, zero, suc, ◌+◌, Bool, true, false, not, ◌||◌, none, some, ltb, ◌==◌, if◌then◌else◌,
}
use nextnucleus.Vm.Types.{entity, unknown}
use nextnucleus.Lang.Token.{Token, TokenType, Span, LangError, Literal}
use nextnucleus.Lang.Token
use nextnucleus.Lang.Builtin.{SourceString, Builtin, constructor, function, find_builtin_function}
use nextnucleus.Lang.Ast.{
  Node, NodeType, NodeValue, Vartype, node_at, node_null, n_member, n_symref, n_builtin, n_call,
  n_insert, n_singleton, n_literal, n_unop, n_binop,
}
use nextnucleus.Lang.Ast.Tables.{
  same_token, same_node, is_unop, is_binop, unop_from_token, binop_from_token, binop_precedence,
  binop_is_left_associative,
}
use nextnucleus.Lang.Action.{
  done, raised, fault, exhausted, ◌>>=◌, ◌>>◌, pure, give_up, Next, again, stop,
}
use nextnucleus.Lang.Parser.{
  M, fresh_node, adopt, write_node, raise_at, identifier_of, primitive_of, literal_of, parser_peek,
  parser_consume, parser_expect, parser_accept, forever,
}

-- nulang__parse_vartype, on a variable that may have been written before
unfoldable pub parse_vartype : Vartype → M Vartype
parse_vartype old = do
  _ ← parser_expect Token.t_colon
  found ← parser_accept Token.t_primitive
  elim found [
    | some t ↦ (do q ← primitive_of t; pure (record old { primitive = q }))
    | none ↦ (do
      found ← parser_accept Token.t_identifier
      elim found [
        | some t ↦ (do
          name ← identifier_of t
          pure (record { primitive = entity; archetype = some 0; archetype_name = some name }))
        | none ↦ (do t ← parser_consume; raise_at t.span LangError.invalid_vartype)
      ])
  ]

-- nulang__try_parse_vartype: the type, and if it was found
unfoldable pub try_parse_vartype : Vartype → M (Vartype × Bool)
try_parse_vartype old = do
  t ← parser_peek
  if same_token t.type Token.t_colon
      then (do v ← parse_vartype old; pure (v, true))
      else pure (record old { primitive = unknown }, false)

-- `&parser->ast->nodes[id]`
unfoldable pub read_node : ℕ → M Node
read_node id p = elim (node_at p.ast id) [ none ↦ fault | some n ↦ done n p ]

-- The `switch` of nulang__parse_member_chain: the node that the name is a member of becomes the child
-- of a new one, or a constructor becomes a builtin function.
unfoldable pub member_node : ℕ → Token → SourceString → M ℕ
member_node child t name = do
  node ← fresh_node
  write_node node (λ n. record n { span = t.span; type = n_member; value = NodeValue.member name })
  adopt node child
  pure node

unfoldable pub builtin_member : ℕ → Token → SourceString → Builtin → M ℕ
builtin_member child t name (constructor q) p = elim (find_builtin_function p.lexer.source q name) [
  | none ↦ raise_at t.span LangError.unknown_symbol_type p
  | some f ↦
      (write_node child (λ n. record n { value = NodeValue.builtin (function f) }) >> pure child) p
]
builtin_member child t name _ p = raise_at t.span LangError.unknown_symbol_type p

unfoldable pub member_switch : ℕ → Token → SourceString → Node → M ℕ
unfolding builtin_member
member_switch child t name n =
    if same_node n.type n_member || same_node n.type n_symref
    then member_node child t name
    else if same_node n.type n_builtin
    then elim n.value [ NodeValue.builtin b ↦ builtin_member child t name b | _ ↦ give_up ]
    else give_up

-- nulang__parse_member_chain, whose call of itself in the end is the next round of a loop
unfoldable pub member_round : ℕ → M (Next ℕ ℕ)
unfolding member_switch read_node
member_round child = do
  _ ← parser_expect Token.t_dot
  t ← parser_expect Token.t_identifier
  n ← read_node child
  name ← identifier_of t
  node ← member_switch child t name n
  u ← parser_peek
  pure (if same_token u.type Token.t_dot then again node else stop node)

unfoldable pub parse_member_chain : ℕ → M ℕ
parse_member_chain child = forever member_round child

-- nulang__try_parse_member_chain
unfoldable pub try_parse_member_chain : ℕ → M ℕ
try_parse_member_chain node = do
  t ← parser_peek
  if same_token t.type Token.t_dot then parse_member_chain node else pure node

-- nulang__parse_symbol
unfoldable pub parse_symbol : M ℕ
parse_symbol = do
  t ← parser_expect Token.t_identifier
  node ← fresh_node
  name ← identifier_of t
  write_node node
      (λ n. record n { type = n_symref; value = NodeValue.symref node_null name; span = t.span })
  pure node

-- nulang__parse_call, with a parser of expressions; first one argument, then those behind a comma
unfoldable pub argument : (ℕ → M ℕ) → ℕ → M (Unit {0})
argument expr node = do e ← expr 0; adopt node e

unfoldable pub argument_round : (ℕ → M ℕ) → ℕ → M (Next ℕ (Unit {0}))
unfolding argument
argument_round expr node = do
  found ← parser_accept Token.t_comma
  elim found [ none ↦ pure (stop tt) | some _ ↦ (do argument expr node; pure (again node)) ]

unfoldable pub parse_call : (ℕ → M ℕ) → ℕ → M ℕ
unfolding argument argument_round
parse_call expr ident = do
  node ← fresh_node
  write_node node (λ n. record n { type = n_call })
  adopt node ident
  _ ← parser_expect Token.t_lparen
  t ← parser_peek
  if not (same_token t.type Token.t_rparen) then argument expr node else pure tt
  forever (argument_round expr) node
  _ ← parser_expect Token.t_rparen
  pure node

-- nulang__try_parse_call
unfoldable pub try_parse_call : (ℕ → M ℕ) → ℕ → M ℕ
try_parse_call expr node = do
  t ← parser_peek
  if same_token t.type Token.t_lparen then parse_call expr node else pure node

-- nulang__parse_insert_or_singleton, with the value that the type of the node takes; the error of the
-- last nulang__parser_expect is dropped
unfoldable pub ignore : {A : Type 0} → M A → M (Unit {0})
ignore m p = elim (m p) [
  | done a q ↦ done tt q
  | raised e q ↦ done tt q
  | fault ↦ fault
  | exhausted ↦ exhausted
]

unfoldable pub parse_insert_or_singleton : NodeType → (SourceString → NodeValue) → M ℕ
unfolding ignore
parse_insert_or_singleton type value = do
  _ ← parser_consume
  _ ← parser_expect Token.t_lparen
  t ← parser_expect Token.t_identifier
  node ← fresh_node
  name ← identifier_of t
  write_node node (λ n. record n { type = type; span = t.span; value = value name })
  ignore (parser_expect Token.t_rparen)
  pure node

-- The cases of nulang__parse_atom.
unfoldable pub parse_name : (ℕ → M ℕ) → M ℕ
parse_name expr = do
  node ← parse_symbol
  chain ← try_parse_member_chain node
  try_parse_call expr chain

unfoldable pub parse_constructor : (ℕ → M ℕ) → M ℕ
parse_constructor expr = do
  t ← parser_expect Token.t_primitive
  node ← fresh_node
  q ← primitive_of t
  write_node node
      (λ n. record n { type = n_builtin; span = t.span; value = NodeValue.builtin (constructor q) })
  chain ← try_parse_member_chain node
  try_parse_call expr chain

unfoldable pub parse_literal : M ℕ
parse_literal = do
  t ← parser_consume
  node ← fresh_node
  v ← literal_of t
  write_node node (λ n. record n { type = n_literal; span = t.span; value = NodeValue.literal v })
  pure node

-- nulang__parse_atom
unfoldable pub no_atom : Token → M ℕ
no_atom t p = raise_at t.span LangError.invalid_atom_expression (record p { token_got = t.type })

unfoldable pub parse_atom : (ℕ → M ℕ) → M ℕ
parse_atom expr = do
  t ← parser_peek
  elim t.type [
    | Token.t_identifier ↦ parse_name expr
    | Token.t_insert ↦ parse_insert_or_singleton n_insert (NodeValue.insert 0)
    | Token.t_singleton ↦ parse_insert_or_singleton n_singleton (NodeValue.singleton 0)
    | Token.t_primitive ↦ parse_constructor expr
    | Token.t_literal ↦ parse_literal
    | _ ↦ no_atom t
  ]

-- nulang__parse_primary
unfoldable pub parse_parens : (ℕ → M ℕ) → M ℕ
parse_parens expr = do
  _ ← parser_consume
  node ← expr 1
  _ ← parser_expect Token.t_rparen
  pure node

unfoldable pub unop_node : Token → ℕ → M ℕ
unop_node t e = do
  node ← fresh_node
  write_node node (λ n. record n {
    type = n_unop;
    value = NodeValue.unop (unop_from_token t.type);
    span = t.span;
  })
  adopt node e
  pure node

unfoldable pub parse_primary : ℕ → (ℕ → M ℕ) → M ℕ
parse_primary zero expr p = exhausted
parse_primary (suc fuel) expr p =
    (do
      t ← parser_peek
      if same_token t.type Token.t_lparen
          then parse_parens expr
          else if is_unop t.type
          then (do u ← parser_consume; e ← parse_primary fuel expr; unop_node u e)
          else if is_binop t.type
          then raise_at t.span LangError.unexpected_binop
          else parse_atom expr)
      p

-- nulang__parse_expr: a round of its loop takes an operator and what is on its right
unfoldable pub binop_node : Token → ℕ → ℕ → M ℕ
binop_node t lhs rhs = do
  node ← fresh_node
  write_node node (λ n. record n {
    type = n_binop;
    value = NodeValue.binop (binop_from_token t.type);
    span = t.span;
  })
  adopt node lhs
  adopt node rhs
  pure node

unfoldable pub operator_round : (ℕ → M ℕ) → ℕ → TokenType → ℕ → ℕ → M (Next ℕ ℕ)
operator_round expr min type prec lhs = if ltb prec min then pure (stop lhs) else (do
  t ← parser_consume
  rhs ← expr (if binop_is_left_associative type then prec + 1 else prec)
  node ← binop_node t lhs rhs
  pure (again node))

unfoldable pub expr_round : (ℕ → M ℕ) → ℕ → ℕ → M (Next ℕ ℕ)
unfolding operator_round
expr_round expr min lhs = do
  t ← parser_peek
  if is_binop t.type
      then elim (binop_precedence t.type) [
        | none ↦ give_up
        | some prec ↦ if prec == 0 then give_up else operator_round expr min t.type prec lhs
      ]
      else pure (stop lhs)

unfoldable pub parse_expr : ℕ → ℕ → M ℕ
parse_expr zero min p = exhausted
parse_expr (suc fuel) min p =
    (do
      lhs ← parse_primary (suc fuel) (parse_expr fuel)
      forever (expr_round (parse_expr fuel) min) lhs)
      p
