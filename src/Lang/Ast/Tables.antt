-- ===== src/Lang/Ast/Tables.antt =====
-- nucleus/lang/ast.h: the sets of node types and of operators, and how tightly operators bind.
use nextnucleus.Base.{
  ℕ, Bool, true, false, ◌||◌, Option, none, some, List, [], ◌∷◌, ◌==◌, if◌then◌else◌, ◌>>=◌,
}
use nextnucleus.Vm.Types.{entity, same_primitive}
use nextnucleus.Lang.Token.{
  TokenType, t_add, t_sub, t_mul, t_div, t_equal, t_nequal, t_lequal, t_gequal, t_less, t_greater,
  t_and, t_or, t_not,
}
use nextnucleus.Lang.Ast.{
  NodeType, n_fundecl, n_import, n_return, n_if, n_for, n_while, n_loop, n_vardecl, n_assign,
  n_literal, n_symref, n_member, n_builtin, n_call, n_insert, n_singleton, n_binop, n_unop, Binop,
  b_add, b_sub, b_mul, b_div, b_equal, b_nequal, b_lequal, b_gequal, b_less, b_greater, b_and, b_or,
  Unop, u_not, u_neg, Vartype,
}

TokenType-discrete : Discrete TokenType
TokenType-discrete = hlevel

NodeType-discrete : Discrete NodeType
NodeType-discrete = hlevel

-- `==` on the two enumerations
unfoldable pub same_token : TokenType → TokenType → Bool
unfolding TokenType-discrete
same_token a b = elim (TokenType-discrete a b) [ yes _ ↦ true | no _ ↦ false ]

unfoldable pub same_node : NodeType → NodeType → Bool
unfolding NodeType-discrete
same_node a b = elim (NodeType-discrete a b) [ yes _ ↦ true | no _ ↦ false ]

-- The loop of nulang__is_mod_stmt and its siblings over their table.
abbrev pub any_of {ℓ} : {A : Type ℓ} → (A → A → Bool) → A → List A → Bool
any_of same t [] = false
any_of same t (s ∷ ss) = if same t s then true else any_of same t ss

unfoldable pub is_mod_stmt : NodeType → Bool
unfolding same_node
is_mod_stmt t = any_of same_node t (n_fundecl ∷ n_import ∷ [])

unfoldable pub is_stmt : NodeType → Bool
unfolding same_node
is_stmt t =
    any_of same_node t (n_return ∷ n_if ∷ n_for ∷ n_while ∷ n_loop ∷ n_vardecl ∷ n_assign ∷ [])

unfoldable pub is_expr : NodeType → Bool
unfolding same_node
is_expr t = any_of same_node t (
    n_literal ∷ n_symref ∷ n_member ∷ n_builtin ∷ n_call ∷ n_insert ∷ n_singleton ∷ n_binop ∷ n_unop
    ∷ [])

unfoldable pub is_loop : NodeType → Bool
unfolding same_node
is_loop t = any_of same_node t (n_for ∷ n_while ∷ n_loop ∷ [])

unfoldable pub is_binop : TokenType → Bool
unfolding same_token
is_binop t = any_of same_token t (
    t_add ∷ t_mul ∷ t_div ∷ t_equal ∷ t_nequal ∷ t_lequal ∷ t_gequal ∷ t_less ∷ t_greater ∷ t_and
    ∷ t_or ∷ [])

-- nulang__binop_from_token
unfoldable pub binop_from_token : TokenType → Binop
binop_from_token t_add = b_add
binop_from_token t_sub = b_sub
binop_from_token t_mul = b_mul
binop_from_token t_div = b_div
binop_from_token t_equal = b_equal
binop_from_token t_nequal = b_nequal
binop_from_token t_lequal = b_lequal
binop_from_token t_gequal = b_gequal
binop_from_token t_less = b_less
binop_from_token t_greater = b_greater
binop_from_token t_and = b_and
binop_from_token t_or = b_or
binop_from_token _ = b_add

unfoldable pub is_unop : TokenType → Bool
unfolding same_token
is_unop t = any_of same_token t (t_sub ∷ t_not ∷ [])

-- nulang__unop_from_token
unfoldable pub unop_from_token : TokenType → Unop
unop_from_token t_sub = u_neg
unop_from_token t_not = u_not
unop_from_token _ = u_neg

-- nulang__binop_precedence; any other token fails the assertion
unfoldable pub binop_precedence : TokenType → Option ℕ
binop_precedence t_add = some 1
binop_precedence t_sub = some 1
binop_precedence t_mul = some 2
binop_precedence t_div = some 2
binop_precedence t_equal = some 3
binop_precedence t_nequal = some 3
binop_precedence t_lequal = some 3
binop_precedence t_gequal = some 3
binop_precedence t_less = some 3
binop_precedence t_greater = some 3
binop_precedence t_and = some 3
binop_precedence t_or = some 3
binop_precedence _ = none

-- nulang__binop_is_left_associative
unfoldable pub binop_is_left_associative : TokenType → Bool
binop_is_left_associative t_add = true
binop_is_left_associative t_sub = true
binop_is_left_associative t_mul = true
binop_is_left_associative t_div = true
binop_is_left_associative _ = false

-- `==` on what may not be written yet: a read of such a field is `none`
abbrev pub same_written : Option ℕ → Option ℕ → Option Bool
same_written (some a) (some b) = some (a == b)
same_written _ _ = none

-- nulang__vartype_compatible; NU_ARCHETYPE_NULL is 0
unfoldable pub vartype_compatible : Vartype → Vartype → Option Bool
vartype_compatible var expr =
    if same_primitive var.primitive expr.primitive
    then (if same_primitive var.primitive entity
        then (do
          same ← same_written var.archetype expr.archetype
          null ← same_written expr.archetype (some 0)
          some (same || null))
        else some true)
    else some false
