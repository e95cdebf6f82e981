-- ===== src/Lang/Analyzer/Symbol.antt =====
-- nucleus/lang/analyzer/symbol.h: the table of the symbols in scope, and the resolution of names.
pub mod Scope
pub mod Tree
pub mod Role
pub mod Outcome
pub mod Resolve
use nextnucleus.Base.{
  ℕ, zero, suc, ◌+◌, Bool, ◌&&◌, ◌||◌, Option, none, some, List, ltb, ◌==◌, if◌then◌else◌, length,
  get_elem?, set, drop,
}
use nextnucleus.Vm.Text.{Bytes, strncmp}
use nextnucleus.Lang.Token.{Span, LangError}
use nextnucleus.Lang.Builtin.{SourceString}
use nextnucleus.Lang.Action.{
  Action, done, raised, fault, exhausted, ◌>>=◌, ◌>>◌, pure, give_up, or_fault,
}
use nextnucleus.Lang.Ast.{
  Ast, Node, NodeType, NodeValue, node_at, put_node, n_fundecl, n_vardecl, n_argdecl, n_symref,
  n_compound,
}
use nextnucleus.Lang.Ast
use nextnucleus.Lang.Ast.Tables.{same_node}
use nextnucleus.Lang.Ast.Foreach.{foreach_childs}

-- nulang__symbol_resolver_t: `names` and `ids` are its two arrays, `source` the text that the names
-- point to, and `error` the span of the error data.
pub record Resolver : Type 0 where
  pub ast : Ast
  pub names : List SourceString
  pub ids : List ℕ
  pub size : ℕ
  pub source : Bytes
  pub error : Span

-- NULANG_SOURCE_STRING_EQUALS
unfoldable pub same_name : Bytes → SourceString → SourceString → Bool
unfolding strncmp
same_name source a b = a.n == b.n && strncmp (drop a.p source) (drop b.p source) a.n == 0

-- nulang__find_symbol: its loop, with `n` symbols left, and the span of a node as that of the error
unfoldable pub find_loop : Resolver → SourceString → ℕ → Option (Option ℕ)
unfolding same_name
find_loop r name zero = some none
find_loop r name (suc n) =
    let here : Option (Option ℕ) = elim (get_elem? r.ids n) [
      | none ↦ none
      | some id ↦ some (some id)
    ] in
    let rest = find_loop r name n in
    elim (get_elem? r.names n) [
      | none ↦ none
      | some s ↦ if same_name r.source s name then here else rest
    ]

unfoldable pub raise_at : {A : Type 0} → ℕ → LangError → Action Resolver A
raise_at id e r = elim (node_at r.ast id) [
  | none ↦ fault
  | some n ↦ raised e (record r { error = n.span })
]

unfoldable pub find_symbol : ℕ → SourceString → Action Resolver ℕ
unfolding find_loop raise_at
find_symbol symref name r = elim (find_loop r name r.size) [
  | none ↦ fault
  | some none ↦ raise_at symref LangError.unresolved_symbol r
  | some (some id) ↦ done id r
]

-- nulang__define_symbol: the arrays have no room for more than their length
unfoldable pub store_symbol : SourceString → ℕ → Action Resolver (Unit {0})
store_symbol name id r =
    let stored = record r {
      names = set r.names r.size name;
      ids = set r.ids r.size id;
      size = r.size + 1;
    } in
    if ltb r.size (length r.names) && ltb r.size (length r.ids) then done tt stored else fault

unfoldable pub define_symbol : SourceString → ℕ → Action Resolver (Unit {0})
unfolding find_symbol store_symbol raise_at
define_symbol name id r = elim (find_symbol id name r) [
  | done _ q ↦ raise_at id LangError.symbol_already_defined q
  | raised LangError.unresolved_symbol q ↦ store_symbol name id q
  | raised _ q ↦ raise_at id LangError.symbol_already_defined q
  | fault ↦ fault
  | exhausted ↦ exhausted
]

-- nulang__resolve_symbols_scoped: what it does at a node before its children, where a value that
-- does not belong to the type is a fault, and after them
unfoldable pub read_node : ℕ → Action Resolver Node
read_node id r = or_fault (node_at r.ast id) r

unfoldable pub refer : ℕ → Node → ℕ → SourceString → Action Resolver (Unit {0})
unfolding put_node
refer id n ref name r =
    done tt (record r { ast = put_node r.ast id (record n { value = NodeValue.symref ref name }) })

unfoldable pub enter_node : ℕ → Node → Action Resolver (Unit {0})
unfolding define_symbol find_symbol refer
enter_node id n = elim n.type [
  | n_vardecl ↦ elim n.value [ NodeValue.vardecl name _ ↦ define_symbol name id | _ ↦ give_up ]
  | n_argdecl ↦ elim n.value [ NodeValue.argdecl name _ ↦ define_symbol name id | _ ↦ give_up ]
  | n_symref ↦ elim n.value [
    | NodeValue.symref _ name ↦ (do ref ← find_symbol id name; refer id n ref name)
    | _ ↦ give_up
  ]
  | _ ↦ pure tt
]

unfoldable pub leave_node : NodeType → ℕ → Action Resolver (Unit {0})
unfolding same_node
leave_node type size r =
    if same_node type n_compound || same_node type n_fundecl
    then done tt (record r { size = size })
    else done tt r

unfoldable pub resolve_symbols_scoped : ℕ → ℕ → Action Resolver (Unit {0})
unfolding read_node enter_node foreach_childs leave_node
resolve_symbols_scoped zero id r = exhausted
resolve_symbols_scoped (suc fuel) id r =
    (do
      n ← read_node id
      enter_node id n
      foreach_childs (λ s. s.ast) (resolve_symbols_scoped fuel) id
      n' ← read_node id
      leave_node n'.type r.size)
      r

-- nulang__resolve_symbols: first the functions of the module, then the tree; a path in the tree has
-- fewer nodes than the arena
unfoldable pub declare : ℕ → Action Resolver (Unit {0})
unfolding read_node define_symbol same_node
declare child = do
  n ← read_node child
  if same_node n.type n_fundecl
      then elim n.value [ NodeValue.fundecl name _ _ ↦ define_symbol name child | _ ↦ give_up ]
      else pure tt

unfoldable pub resolve_symbols : Action Resolver (Unit {0})
unfolding declare foreach_childs resolve_symbols_scoped
resolve_symbols r =
    (do
      foreach_childs (λ s. s.ast) declare r.ast.root
      resolve_symbols_scoped (length r.ast.nodes + 1) r.ast.root)
      (record r { size = 0 })
