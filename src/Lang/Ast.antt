-- ===== src/Lang/Ast.antt =====
-- nucleus/lang/ast.h: the arena of syntax nodes. A node id is an index into the block of nodes, and
-- node_null stands for no node; `none` is an access outside the block or a failed assertion.
pub mod Tables
pub mod Foreach
pub mod Loop
pub mod Chain
pub mod Childs
pub mod Walk
pub mod Arena
pub mod Sound
mod Tests
use nextnucleus.Base.{
  ℕ, zero, suc, ◌+◌, Bool, not, ◌&&◌, Option, none, some, List, [], ◌∷◌, leb, ◌==◌, if◌then◌else◌,
  ◌>>=◌, ◌>>◌, assert, get_elem?, set, u32,
}
use nextnucleus.Vm.Types.{Primitive}
use nextnucleus.Lang.Token.{Span, Literal}
use nextnucleus.Lang.Builtin.{SourceString, Builtin}

-- nulang__node_type_t
pub data NodeType : Type 0 where
  n_module n_import n_fundecl n_compound n_argdecl n_literal n_symref n_member n_builtin : NodeType
  n_break n_continue n_return n_if n_for n_while n_loop n_vardecl n_call n_assign : NodeType
  n_binop n_unop n_insert n_delete n_singleton : NodeType

-- nulang__binop_t and nulang__unop_t
pub data Binop : Type 0 where
  b_add b_sub b_mul b_div b_equal b_nequal b_lequal b_gequal b_less b_greater b_and b_or : Binop

pub data Unop : Type 0 where
  u_not u_neg : Unop

-- NULANG_NODE_NULL
abbrev pub node_null : ℕ
node_null = 0xffffffff

-- nulang__vartype_t; a field that is not written yet is `none`
pub record Vartype : Type 0 where
  pub primitive : Primitive
  pub archetype : Option ℕ
  pub archetype_name : Option SourceString

-- nulang__node_value_t
pub data NodeValue : Type 0 where
  unset : NodeValue
  fundecl : SourceString → Vartype → Bool → NodeValue
  argdecl : SourceString → Vartype → NodeValue
  vardecl : SourceString → Vartype → NodeValue
  literal : Literal → NodeValue
  symref : ℕ → SourceString → NodeValue
  binop : Binop → NodeValue
  unop : Unop → NodeValue
  insert : ℕ → SourceString → NodeValue
  singleton : ℕ → SourceString → NodeValue
  builtin : Builtin → NodeValue
  member : SourceString → NodeValue

-- nulang__node_t
pub record Node : Type 0 where
  pub type : NodeType
  pub value : NodeValue
  pub span : Span
  pub parent : ℕ
  pub first_child : ℕ
  pub last_child : ℕ
  pub next_sibling : ℕ

-- nulang__ast_t
pub record Ast : Type 0 where
  pub root : ℕ
  pub nodes : List Node
  pub node_capacity : ℕ
  pub node_count : ℕ

-- A node with no relatives.
abbrev pub alone : Node → Node
alone n = record n {
  parent = node_null;
  first_child = node_null;
  last_child = node_null;
  next_sibling = node_null;
}

-- `&ast->nodes[id]`, and a write to it
unfoldable pub node_at : Ast → ℕ → Option Node
node_at ast id = get_elem? ast.nodes id

unfoldable pub put_node : Ast → ℕ → Node → Ast
put_node ast id n = record ast { nodes = set ast.nodes id n }

unfoldable pub change_node : Ast → ℕ → (Node → Node) → Option Ast
unfolding node_at put_node
change_node ast id f = do n ← node_at ast id; some (put_node ast id (f n))

-- nulang__ast_init, with the block that the allocator answers: `some none` is
-- NULANG_ERROR_OUT_OF_MEMORY
unfoldable pub init : ℕ → Option (List Node) → Option (Option Ast)
init capacity none = assert (not (capacity == 0)) >> some none
init capacity (some block) = do
  assert (not (capacity == 0))
  first ← get_elem? block 0
  some (
      some (record {
        root = 0;
        nodes = set block 0 (record (alone first) { type = n_module });
        node_capacity = capacity;
        node_count = 1;
      }))

-- nulang__ast_clear
unfoldable pub clear : Ast → Option Ast
unfolding change_node
clear ast = change_node (record ast { node_count = 1 }) 0 alone

-- nulang__add_node: `some none` is NULANG_ERROR_OUT_OF_NODE
unfoldable pub add_node : Ast → Option (Option (Ast × ℕ))
unfolding change_node
add_node ast =
    let new = (do
      ast' ← change_node ast ast.node_count alone
      some (some (record ast' { node_count = u32 (ast.node_count + 1) }, ast.node_count))) in
    if leb ast.node_capacity ast.node_count then some none else new

-- nulang__append_child: its assertions, and the writes to the last child, the parent and the child
unfoldable pub append_asserts : ℕ → ℕ → ℕ → Option (Unit {0})
append_asserts parent child last = do
  assert (not (child == 0))
  assert (not (parent == child))
  assert (not (parent == node_null) && not (child == node_null))
  assert (not (last == child))
  assert (not (last == parent))

unfoldable pub append_child : Ast → ℕ → ℕ → Option Ast
unfolding change_node append_asserts
append_child ast parent child = do
  p ← node_at ast parent
  append_asserts parent child p.last_child
  let behind = (do
    ast₁ ← change_node ast p.last_child (λ n. record n { next_sibling = child })
    change_node ast₁ parent (λ n. record n { last_child = child }))
  let alone_there =
      change_node ast parent (λ n. record n { first_child = child; last_child = child })
  ast₂ ← if not (p.last_child == node_null) then behind else alone_there
  change_node ast₂ child (λ n. record n { parent = parent })

-- nulang__first_child and nulang__sibling: the id, where node_null stands for the null pointer; the
-- node itself must lie in the block
unfoldable pub found_node : Ast → ℕ → Option ℕ
found_node ast n = if not (n == node_null) then (node_at ast n >>= λ _. some n) else some n

unfoldable pub first_child : Ast → ℕ → Option ℕ
unfolding found_node
first_child ast parent = do
  assert (not (parent == node_null))
  p ← node_at ast parent
  found_node ast p.first_child

unfoldable pub sibling : Ast → ℕ → Option ℕ
unfolding found_node
sibling ast node = do
  assert (not (node == node_null))
  n ← node_at ast node
  found_node ast n.next_sibling

-- nulang__iter_childs
unfoldable pub iter_childs : Ast → ℕ → ℕ → Option ℕ
unfolding first_child sibling
iter_childs ast parent child =
    if child == node_null then first_child ast parent else sibling ast child

-- The loop of nulang__ast_foreach_childs as the list of the ids that it visits, for a callback that
-- changes no link; at most `fuel` rounds.
unfoldable pub visited : ℕ → Ast → ℕ → ℕ → Option (List ℕ)
visited zero ast parent child = none
visited (suc fuel) ast parent child = do
  c ← iter_childs ast parent child
  let more = (do cs ← visited fuel ast parent c; some (c ∷ cs))
  if c == node_null then some [] else more
