-- ===== src/Lang/Ast/Tests.antt =====
-- Runs and witnesses for the syntax tree.
use nextnucleus.Base.{◌≤◌, ◌<◌, ◌≡◌, refl, ◌⊎◌, none, some, [], ◌∷◌, arith}
use nextnucleus.Lang.Token.{no_location}
use nextnucleus.Lang.Ast.{
  Ast, Node, n_module, n_literal, unset, node_null, node_at, add_node, append_child, visited,
}
use nextnucleus.Lang.Ast.Chain.{next_of, nil, cons}
use nextnucleus.Lang.Ast.Childs.{IsParent, IsNew, IsAdopted, append_child_lem}
use nextnucleus.Lang.Ast.Walk.{visited-append_child}
use nextnucleus.Lang.Ast.Arena.{IsAdded, add_node_lem}

abbrev leaf : Node
leaf = record {
  type = n_literal;
  value = unset;
  span = record { start = no_location; stop = no_location };
  parent = node_null;
  first_child = node_null;
  last_child = node_null;
  next_sibling = node_null;
}

-- A module with one child, a node without relatives, and one that is not in use.
abbrev small : Ast
small = record {
  root = 0;
  nodes =
      record leaf { type = n_module; first_child = 1; last_child = 1 }
      ∷ record leaf { parent = 0 }
      ∷ leaf
      ∷ leaf
      ∷ [];
  node_capacity = 4;
  node_count = 3;
}

small-IsParent : IsParent small 0 (1 ∷ [])
unfolding node_at next_of
small-IsParent = record {
  node = record leaf { type = n_module; first_child = 1; last_child = 1 };
  at = refl;
  childs = cons (λ e. absurd (omega arith)) refl refl nil;
  last = refl;
}

small-IsNew : IsNew small 0 2 (1 ∷ [])
unfolding node_at
small-IsNew = record {
  node = leaf;
  at = refl;
  single = refl;
  not_root = λ e. omega arith;
  not_null = λ e. omega arith;
  parent_not_null = λ e. omega arith;
  other = λ e. omega arith;
  outside = refl;
  no_loop = refl;
}

append_child_lem_example :
    (ast' : Ast) × (append_child small 0 2 ≡ some ast') × IsAdopted small ast' 0 2 (1 ∷ [])
append_child_lem_example = append_child_lem small 0 2 (1 ∷ []) small-IsParent small-IsNew

visited-append_child_example :
    (ast' : Ast) × (append_child small 0 2 ≡ some ast')
    × (visited 3 ast' 0 node_null ≡ some (1 ∷ 2 ∷ []))
visited-append_child_example =
    visited-append_child small 0 2 (1 ∷ []) 3 small-IsParent small-IsNew (omega arith)

add_node_lem_example :
    ((ast' : Ast) × (3 < 4) × (add_node small ≡ some (some (ast', 3))) × IsAdded small ast')
    ⊎ ((4 ≤ 3) × (add_node small ≡ some none))
add_node_lem_example =
    add_node_lem small (record { block = refl; fits = omega arith; bound = omega arith })
