-- ===== src/Lang/Ast/Foreach.antt =====
-- nucleus/lang/ast.h: nulang__ast_foreach_childs, for an action on a state that holds the tree.
use nextnucleus.Base.{ℕ, ◌+◌, none, some, ◌==◌, if◌then◌else◌, length}
use nextnucleus.Lang.Action.{Action, done, fault, bind, Next, again, stop, rounds}
use nextnucleus.Lang.Ast.{Ast, iter_childs, node_null}

-- A round of the loop: the next child after `child`, and the callback on it.
unfoldable pub child_round :
    {S : Type 0} → (S → Ast) → (ℕ → Action S (Unit {0})) → ℕ → ℕ → Action S (Next ℕ (Unit {0}))
child_round tree callback parent child s = elim (iter_childs (tree s) parent child) [
  | none ↦ fault
  | some c ↦
      if c == node_null then done (stop tt) s else bind (callback c s) (λ _ q. done (again c) q)
]

-- nulang__ast_foreach_childs: a node of a tree has fewer children than the arena has nodes
unfoldable pub foreach_childs :
    {S : Type 0} → (S → Ast) → (ℕ → Action S (Unit {0})) → ℕ → Action S (Unit {0})
unfolding child_round rounds
foreach_childs tree callback parent s =
    rounds (length (tree s).nodes + 1) (child_round tree callback parent) node_null s
