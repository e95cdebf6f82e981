-- ===== src/Lang/Analyzer/Symbol/Tree.antt =====
-- A reference definition for nucleus/lang/analyzer/symbol.h: syntax trees as data, and the resolution of
-- their names by recursion on them.
use nextnucleus.Base.{
  ℕ, suc, ◌+◌, ◌≡◌, refl, ◌≢◌, Option, none, some, List, [], ◌∷◌, ltb, if◌then◌else◌, length,
}
use nextnucleus.Vm.Text.{Bytes}
use nextnucleus.Lang.Token.{LangError}
use nextnucleus.Lang.Builtin.{SourceString}
use nextnucleus.Lang.Ast.{
  Ast, Node, NodeValue, node_at, put_node, node_null, n_fundecl, n_vardecl, n_argdecl, n_symref,
  n_compound,
}
use nextnucleus.Lang.Analyzer.Symbol.Scope.{Symbols, lookup}

-- What a node is to the resolution of names.
pub data Role : Type 0 where
  binds refers function : SourceString → Role
  block plain : Role

unfoldable pub role_of : Node → Option Role
role_of n = elim n.type [
  | n_vardecl ↦ elim n.value [ NodeValue.vardecl name _ ↦ some (binds name) | _ ↦ none ]
  | n_argdecl ↦ elim n.value [ NodeValue.argdecl name _ ↦ some (binds name) | _ ↦ none ]
  | n_symref ↦ elim n.value [ NodeValue.symref _ name ↦ some (refers name) | _ ↦ none ]
  | n_fundecl ↦ elim n.value [ NodeValue.fundecl name _ _ ↦ some (function name) | _ ↦ none ]
  | n_compound ↦ some block
  | _ ↦ some plain
]

mutual
  pub data Tree : Type 0 where
    tree : ℕ → Role → Forest → Tree

  pub data Forest : Type 0 where
    end : Forest
    more : Tree → Forest → Forest

abbrev pub root_of : Tree → ℕ
root_of (tree id role ts) = id

abbrev mutual
  pub size : Tree → ℕ
  size (tree id role ts) = suc (sizes ts)

  pub sizes : Forest → ℕ
  sizes end = 0
  sizes (more t ts) = size t + sizes ts

-- The tree, and the list of trees, that lie in the arena.
mutual
  pub data IsTree (ast : Ast) : Tree → Type 0 where
    node :
        {id : ℕ} {role : Role} {ts : Forest} (n : Node)
        → id ≢ node_null
        → node_at ast id ≡ some n
        → role_of n ≡ some role
        → IsForest ast n.first_child ts
        → IsTree ast (tree id role ts)

  pub data IsForest (ast : Ast) : ℕ → Forest → Type 0 where
    last : IsForest ast node_null end
    next :
        {t : Tree} {ts : Forest} (n : Node)
        → node_at ast (root_of t) ≡ some n
        → IsTree ast t
        → IsForest ast n.next_sibling ts
        → IsForest ast (root_of t) (more t ts)

-- The references that are resolved so far, the newest first, each from a node to the one that defines
-- its name; and what they make of the arena.
abbrev pub Refs : Type 0
Refs = List (ℕ × ℕ)

unfoldable pub refer_value : ℕ → NodeValue → NodeValue
refer_value ref (NodeValue.symref _ name) = NodeValue.symref ref name
refer_value ref v = v

unfoldable pub set_ref : Ast → ℕ → ℕ → Ast
unfolding refer_value
set_ref ast id ref = elim (node_at ast id) [
  | none ↦ ast
  | some n ↦ put_node ast id (record n { value = refer_value ref n.value })
]

abbrev pub set_refs : Ast → Refs → Ast
set_refs ast [] = ast
set_refs ast ((id, ref) ∷ refs) = set_ref (set_refs ast refs) id ref

-- How a resolution ends: with the symbols in scope; with an error at a node; or with more symbols than
-- the table holds.
pub data Scan : Type 0 where
  scoped : Symbols → Refs → Scan
  stopped : LangError → ℕ → Refs → Scan
  overflow : Scan

abbrev pub then_scan : Scan → (Symbols → Refs → Scan) → Scan
then_scan (scoped env refs) k = k env refs
then_scan (stopped e id refs) k = stopped e id refs
then_scan overflow k = overflow

module _ (source : Bytes) (capacity : ℕ) where
  unfoldable pub define : SourceString → ℕ → Symbols → Refs → Scan
  define name id env refs = elim (lookup source name env) [
    | some _ ↦ stopped LangError.symbol_already_defined id refs
    | none ↦ if ltb (length env) capacity then scoped ((name, id) ∷ env) refs else overflow
  ]

  unfoldable pub enter : Role → ℕ → Symbols → Refs → Scan
  unfolding define
  enter (binds name) id env refs = define name id env refs
  enter (refers name) id env refs = elim (lookup source name env) [
    | some ref ↦ scoped env ((id, ref) ∷ refs)
    | none ↦ stopped LangError.unresolved_symbol id refs
  ]
  enter (function name) id env refs = scoped env refs
  enter block id env refs = scoped env refs
  enter plain id env refs = scoped env refs

  -- Behind a block or a function, the symbols are those before it.
  abbrev pub leave : Role → Symbols → Symbols → Refs → Scan
  leave (function name) before env refs = scoped before refs
  leave block before env refs = scoped before refs
  leave (binds name) before env refs = scoped env refs
  leave (refers name) before env refs = scoped env refs
  leave plain before env refs = scoped env refs

  unfoldable mutual
    pub scan : Tree → Symbols → Refs → Scan
    scan (tree id role ts) before refs =
        then_scan (then_scan (enter role id before refs) (scans ts)) (leave role before)

    pub scans : Forest → Symbols → Refs → Scan
    scans end env refs = scoped env refs
    scans (more t ts) env refs = then_scan (scan t env refs) (scans ts)

  pub scans-end : (env : Symbols) (refs : Refs) → scans end env refs ≡ scoped env refs
  unfolding scan
  scans-end env refs = refl

  pub scans-more :
      (t : Tree) (ts : Forest) (env : Symbols) (refs : Refs)
      → scans (more t ts) env refs ≡ then_scan (scan t env refs) (scans ts)
  unfolding scan
  scans-more t ts env refs = refl

  pub scan-tree :
      (id : ℕ) (role : Role) (ts : Forest) (env : Symbols) (refs : Refs)
      → scan (tree id role ts) env refs
        ≡ then_scan (then_scan (enter role id env refs) (scans ts)) (leave role env)
  unfolding scan
  scan-tree id role ts env refs = refl

  -- The functions of a module are defined before its names are resolved.
  unfoldable pub declare_tree : Tree → Symbols → Refs → Scan
  unfolding define
  declare_tree (tree id (function name) ts) env refs = define name id env refs
  declare_tree (tree id role ts) env refs = scoped env refs

  unfoldable pub declares : Forest → Symbols → Refs → Scan
  unfolding declare_tree
  declares end env refs = scoped env refs
  declares (more t ts) env refs = then_scan (declare_tree t env refs) (declares ts)

  pub declares-end : (env : Symbols) (refs : Refs) → declares end env refs ≡ scoped env refs
  unfolding declares
  declares-end env refs = refl

  pub declares-more :
      (t : Tree) (ts : Forest) (env : Symbols) (refs : Refs)
      → declares (more t ts) env refs ≡ then_scan (declare_tree t env refs) (declares ts)
  unfolding declares
  declares-more t ts env refs = refl

  unfoldable pub scan_module : Tree → Scan
  unfolding declares scan
  scan_module (tree id role ts) = then_scan (declares ts [] []) (scan (tree id role ts))
