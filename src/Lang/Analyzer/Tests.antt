-- ===== src/Lang/Analyzer/Tests.antt =====
-- Runs and witnesses for the analyzer.
use nextnucleus.Base.{ℕ, ◌≤◌, ◌<◌, ◌≡◌, refl, ◌↔◌, ◌⊎◌, none, some, [], ◌∷◌, arith}
use nextnucleus.Vm.Types.{Primitive, int}
use nextnucleus.Vm.Text.{Bytes}
use nextnucleus.Lang.Token.{no_location, LangError}
use nextnucleus.Lang.Builtin.{SourceString}
use nextnucleus.Lang.Action.{done, raised, fault}
use nextnucleus.Lang.Ast.{
  Ast, Node, Vartype, b_add, n_module, n_vardecl, n_symref, n_literal, unset, vardecl, symref,
  node_null, node_at,
}
use nextnucleus.Lang.Analyzer.Symbol.{Resolver, define_symbol, resolve_symbols, same_name}
use nextnucleus.Lang.Analyzer.Symbol.Scope.{IsTable, nil, cons, lookup, stored, define_symbol_lem}
use nextnucleus.Lang.Analyzer.Symbol.Tree.{
  Tree, tree, end, more, binds, refers, plain, role_of, IsTree, node, last, next, scan_module,
  scoped, scan, declares, declare_tree, define, enter,
}
use nextnucleus.Lang.Analyzer.Symbol.Outcome.{Outcome}
use nextnucleus.Lang.Analyzer.Symbol.Resolve.{resolve_symbols_lem}
use nextnucleus.Lang.Analyzer.Types.{check_binop, typed}
use nextnucleus.Lang.Analyzer.Types.Typing.{HasType, check_binop_iff}

-- The text `x x`, and the module `let x = _` with the use of `x` behind it.
abbrev text : Bytes
text = 120 ∷ 32 ∷ 120 ∷ []

abbrev defined_x : SourceString
defined_x = record { p = 0; n = 1 }

abbrev used_x : SourceString
used_x = record { p = 2; n = 1 }

abbrev int_type : Vartype
int_type = record { primitive = int; archetype = none; archetype_name = none }

abbrev module_node : Node
module_node = record {
  type = n_module;
  value = unset;
  span = record { start = no_location; stop = no_location };
  parent = node_null;
  first_child = 1;
  last_child = 2;
  next_sibling = node_null;
}

abbrev declaration : Node
declaration = record module_node {
  type = n_vardecl;
  value = vardecl defined_x int_type;
  parent = 0;
  first_child = 3;
  last_child = 3;
  next_sibling = 2;
}

abbrev use_of_x : Node
use_of_x = record module_node {
  type = n_symref;
  value = symref node_null used_x;
  parent = 0;
  first_child = node_null;
  last_child = node_null;
}

abbrev constant_node : Node
constant_node = record use_of_x { type = n_literal; value = unset; parent = 1 }

abbrev program : Ast
program = record {
  root = 0;
  nodes = module_node ∷ declaration ∷ use_of_x ∷ constant_node ∷ [];
  node_capacity = 4;
  node_count = 4;
}

abbrev resolver : Resolver
resolver = record {
  ast = program;
  names = used_x ∷ used_x ∷ [];
  ids = 0 ∷ 0 ∷ [];
  size = 0;
  source = text;
  error = record { start = no_location; stop = no_location };
}

abbrev program_tree : Tree
program_tree = tree 0 plain (
    more (tree 1 (binds defined_x) (more (tree 3 plain end) end))
      (more (tree 2 (refers used_x) end) end))

-- The use refers to the declaration.
program_run : scan_module text 2 program_tree ≡ scoped ((defined_x, 1) ∷ []) ((2, 1) ∷ [])
unfolding scan_module scan declares declare_tree define enter same_name
program_run = refl

program-IsTree : IsTree program program_tree
unfolding node_at role_of
program-IsTree =
    node module_node (λ e. omega arith) refl refl
      (next declaration refl
        (node declaration (λ e. omega arith) refl refl
          (next constant_node refl (node constant_node (λ e. omega arith) refl refl last) last))
        (next use_of_x refl (node use_of_x (λ e. omega arith) refl refl last) last))

resolve_symbols_lem_example :
    Outcome program text 2 [] (resolve_symbols resolver) (scan_module text 2 program_tree)
resolve_symbols_lem_example =
    resolve_symbols_lem resolver program_tree refl program-IsTree refl (omega arith)

-- A table with `x`, and room for one more symbol.
abbrev with_x : Resolver
with_x = record resolver { names = defined_x ∷ used_x ∷ []; ids = 1 ∷ 0 ∷ []; size = 1 }

with_x-IsTable : IsTable with_x ((defined_x, 1) ∷ [])
with_x-IsTable = record { arrays = refl; holds = cons defined_x 1 refl refl nil }

define_symbol_lem_example :
    ((ref : ℕ) × (lookup text used_x ((defined_x, 1) ∷ []) ≡ some ref)
      × (define_symbol used_x 2 with_x
          ≡ raised LangError.symbol_already_defined (record with_x { error = use_of_x.span })))
    ⊎ (((lookup text used_x ((defined_x, 1) ∷ []) ≡ none)
          × (1 < 2)
          × (define_symbol used_x 2 with_x ≡ done tt (stored with_x used_x 2 use_of_x.span))
          × IsTable (stored with_x used_x 2 use_of_x.span) ((used_x, 2) ∷ (defined_x, 1) ∷ []))
        ⊎ ((lookup text used_x ((defined_x, 1) ∷ []) ≡ none)
            × (2 ≤ 1)
            × (define_symbol used_x 2 with_x ≡ fault)))
unfolding node_at
define_symbol_lem_example =
    define_symbol_lem with_x ((defined_x, 1) ∷ []) with_x-IsTable 2 use_of_x refl used_x

check_binop_iff_example : (check_binop b_add int_type int_type int_type ≡ typed int_type) ↔ (
    (int ≡ int)
    × (q : Primitive) × HasType b_add int q
    × (int_type ≡ record int_type { primitive = q }))
check_binop_iff_example = check_binop_iff b_add int_type int_type int_type int_type
