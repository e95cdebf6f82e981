-- ===== src/Lang/Analyzer/Symbol/Resolve.antt =====
-- The resolution of names in nucleus/lang/analyzer/symbol.h against the reference definition on trees:
-- the children of a node, the tree, and the module.
use nextnucleus.Base.{
  ℕ, zero, suc, ◌+◌, ◌≤◌, ◌<◌, ◌≡◌, refl, ap, subst, ◌∙◌, ◌≢◌, ◌⊎◌, inl, inr, some, [], ◌++◌, arith,
  length,
}
use nextnucleus.Vm.Text.{Bytes}
use nextnucleus.Lang.Action.{Action, Reply, done, raised, fault, exhausted, bind, rounds}
use nextnucleus.Lang.Ast.{Ast, Node, node_at, node_null, iter_childs, found_node}
use nextnucleus.Lang.Ast.Foreach.{child_round, foreach_childs}
use nextnucleus.Lang.Ast.Chain.{next_of_node}
use nextnucleus.Lang.Ast.Walk.{
  found_node-null, found_node-some, iter_childs-sibling, iter_childs-first,
}
use nextnucleus.Lang.Ast.Loop.{rounds-again, rounds-stop}
use nextnucleus.Lang.Analyzer.Symbol.{
  Resolver, enter_node, leave_node, declare, read_node, resolve_symbols_scoped, resolve_symbols,
}
use nextnucleus.Lang.Analyzer.Symbol.Scope.{Symbols, nil, length-Holds}
use nextnucleus.Lang.Analyzer.Symbol.Tree.{
  Role, binds, refers, function, block, plain, role_of, Refs, Tree, Forest, tree, end, more,
  root_of, size, sizes, IsTree, IsForest, node, last, next, Scan, scoped, then_scan, leave, scan,
  scans, scans-end, scans-more, scan-tree, declare_tree, declares, declares-end, declares-more,
  scan_module,
}
use nextnucleus.Lang.Analyzer.Symbol.Outcome.{
  IsState, Outcome, finished, Outcome-eq, Outcome-close, Outcome-then, node-IsKept, define-Outcome,
  enter-Outcome, leave-Outcome,
}
use nextnucleus.Lang.Analyzer.Symbol.Role.{
  enter_role, enter_node-role, leave_node-role, declare_role, declare-role, length-set_refs,
}

module _ (ast : Ast) (source : Bytes) (capacity : ℕ) where
  root_of-not_null : (t : Tree) → IsTree ast t → root_of t ≢ node_null
  root_of-not_null (tree id role ts) (node n nz at role_is forest) = nz

  size-pos : (t : Tree) → 0 < size t
  size-pos (tree id role ts) = omega arith

  -- `q` is the first child of `parent` if `child` is null, and else the sibling of `child`.
  abbrev Points : ℕ → ℕ → ℕ → Type 0
  Points parent child q =
      ((p : Node) × (child ≡ node_null)
        × (parent ≢ node_null)
        × (node_at ast parent ≡ some p)
        × (p.first_child ≡ q))
      ⊎ ((n : Node) × (child ≢ node_null) × (node_at ast child ≡ some n) × (n.next_sibling ≡ q))

  iter_childs-Points :
      {r : Resolver} {env : Symbols} {refs : Refs} (v : IsState ast source capacity r env refs)
      (parent child q : ℕ)
      → Points parent child q
      → iter_childs r.ast parent child ≡ found_node r.ast q
  iter_childs-Points {r = r} v parent child q (inl (p, e, nz, at, first)) =
      let k = node-IsKept ast source capacity v parent p at in
      ap (iter_childs r.ast parent) e
      ∙ (iter_childs-first r.ast parent k.node nz k.at
          ∙ ap (found_node r.ast) (k.first_child ∙ first))
  iter_childs-Points {r = r} v parent child q (inr (n, nz, at, behind)) =
      let k = node-IsKept ast source capacity v child n at in
      iter_childs-sibling r.ast parent child q nz
        (next_of_node r.ast child k.node k.at ∙ ap some (k.next_sibling ∙ behind))

  -- The loop over the children, for a callback and a step that the forest is scanned by.
  module _ (callback : ℕ → Action Resolver (Unit {0})) (step : Tree → Symbols → Refs → Scan)
      (steps : Forest → Symbols → Refs → Scan)
      (steps-end : (env : Symbols) (refs : Refs) → steps end env refs ≡ scoped env refs)
      (steps-more : (t : Tree) (ts : Forest) (env : Symbols) (refs : Refs)
        → steps (more t ts) env refs ≡ then_scan (step t env refs) (steps ts))
      (limit : ℕ)
      (run : (t : Tree) (r : Resolver) (env : Symbols) (refs : Refs)
        → size t ≤ limit
        → IsTree ast t
        → IsState ast source capacity r env refs
        → Outcome ast source capacity env (callback (root_of t) r) (step t env refs))
      (parent : ℕ) where
    rounds-Outcome :
        (ts : Forest) (fuel child q : ℕ) (r : Resolver) (env : Symbols) (refs : Refs)
        → Points parent child q
        → IsForest ast q ts
        → sizes ts < fuel
        → sizes ts ≤ limit
        → IsState ast source capacity r env refs
        → Outcome ast source capacity env
            (rounds fuel (child_round (λ (s : Resolver). s.ast) callback parent) child r)
            (steps ts env refs)
    rounds-Outcome ts zero child q r env refs pt forest h le v = absurd (omega arith)
    rounds-Outcome end (suc fuel) child q r env refs pt last h le v =
        let at = iter_childs-Points v parent child node_null pt ∙ found_node-null r.ast in
        Outcome-eq ast source capacity
          (rounds-stop (λ (s : Resolver). s.ast) callback parent fuel child r at)
          (steps-end env refs) (finished v [] refl)
    rounds-Outcome (more t ts) (suc fuel) child q r env refs pt (next n at is_tree rest) h le v =
        let k = node-IsKept ast source capacity v (root_of t) n at in
        let nz = root_of-not_null t is_tree in
        let one = size-pos t in
        let there =
          iter_childs-Points v parent child (root_of t) pt
          ∙ found_node-some r.ast (root_of t) k.node nz k.at in
        Outcome-eq ast source capacity
          (rounds-again (λ (s : Resolver). s.ast) callback parent fuel child (root_of t) r there nz)
          (steps-more t ts env refs)
          (Outcome-then ast source capacity _ (steps ts) (run t r env refs (omega arith) is_tree v)
            λ r' env' refs' v'.
              rounds-Outcome ts fuel (root_of t) n.next_sibling r' env' refs'
                (inr (n, nz, at, refl)) rest (omega arith) (omega arith) v')

    childs-Outcome :
        (ts : Forest) (n : Node) (r : Resolver) (env : Symbols) (refs : Refs)
        → parent ≢ node_null
        → node_at ast parent ≡ some n
        → IsForest ast n.first_child ts
        → sizes ts ≤ length ast.nodes
        → sizes ts ≤ limit
        → IsState ast source capacity r env refs
        → Outcome ast source capacity env
            (foreach_childs (λ s. s.ast) callback parent r)
            (steps ts env refs)
    unfolding foreach_childs
    childs-Outcome ts n r env refs nz at forest le h v =
        let nodes = ap (λ (a : Ast). length a.nodes) v.tree ∙ length-set_refs ast refs in
        rounds-Outcome ts (length r.ast.nodes + 1) node_null n.first_child r env refs
          (inl (n, refl, nz, at, refl)) forest (omega arith) h v

  bind_assoc :
      (x : Reply Resolver (Unit {0})) (k l : Action Resolver (Unit {0}))
      → bind x (λ _ s. bind (k s) (λ _. l)) ≡ bind (bind x (λ _. k)) (λ _. l)
  bind_assoc (done tt s) k l = refl
  bind_assoc (raised e s) k l = refl
  bind_assoc fault k l = refl
  bind_assoc exhausted k l = refl

  -- What comes behind the children of a node.
  close : ℕ → ℕ → Action Resolver (Unit {0})
  close id before s = bind (read_node id s) (λ n. leave_node n.type before)

  read_node-eq :
      (id : ℕ) (n : Node) (r : Resolver) → node_at r.ast id ≡ some n → read_node id r ≡ done n r
  unfolding read_node
  read_node-eq id n r at = ground arith

  close-Outcome :
      (id : ℕ) (n : Node) (role : Role) (r : Resolver) (new env : Symbols) (refs : Refs)
      (before : ℕ)
      → before ≡ length env
      → node_at ast id ≡ some n
      → role_of n ≡ some role
      → IsState ast source capacity r (new ++ env) refs
      → Outcome ast source capacity env
          (close id before r)
          (leave source capacity role env (new ++ env) refs)
  unfolding close
  close-Outcome id n role r new env refs before e at role_is v =
      let k = node-IsKept ast source capacity v id n at in
      Outcome-eq ast source capacity
        (ap (λ x. bind x (λ n. leave_node n.type before)) (read_node-eq id k.node r k.at)
          ∙ leave_node-role k.node role before r (k.role ∙ role_is))
        refl (leave-Outcome ast source capacity role r new env refs before e v)

  scoped-eq :
      (fuel id : ℕ) (n : Node) (role : Role) (r : Resolver)
      → node_at r.ast id ≡ some n
      → role_of n ≡ some role
      → resolve_symbols_scoped (suc fuel) id r
        ≡ bind
            (bind
              (enter_role role id n r)
              (λ _. foreach_childs (λ s. s.ast) (resolve_symbols_scoped fuel) id))
            (λ _. close id r.size)
  unfolding resolve_symbols_scoped close
  scoped-eq fuel id n role r at h =
      let childs = foreach_childs (λ (s : Resolver). s.ast) (resolve_symbols_scoped fuel) id in
      let behind : Action Resolver (Unit {0}) = λ s. bind (childs s) (λ _. close id r.size) in
      ap (λ x. bind x (λ n' s. bind (enter_node id n' s) (λ _. behind))) (read_node-eq id n r at)
      ∙ (ap (λ x. bind x (λ _. behind)) (enter_node-role id n role r h)
          ∙ bind_assoc (enter_role role id n r) childs (close id r.size))

  scoped-Outcome :
      (fuel : ℕ) (t : Tree) (r : Resolver) (env : Symbols) (refs : Refs)
      → size t ≤ fuel
      → size t ≤ length ast.nodes
      → IsTree ast t
      → IsState ast source capacity r env refs
      → Outcome ast source capacity env
          (resolve_symbols_scoped fuel (root_of t) r)
          (scan source capacity t env refs)
  scoped-Outcome zero (tree id role ts) r env refs h le w v = absurd (omega arith)
  scoped-Outcome (suc fuel) (tree id role ts) r env refs h le (node n nz at role_is forest) v =
      let k = node-IsKept ast source capacity v id n at in
      let count = length-Holds v.table.holds in
      let run =
        λ (t : Tree) (r : Resolver) (env : Symbols) (refs : Refs) (le' : size t ≤ sizes ts)
            (w : IsTree ast t) (v : IsState ast source capacity r env refs).
          scoped-Outcome fuel t r env refs (omega arith) (omega arith) w v in
      Outcome-eq ast source capacity (scoped-eq fuel id k.node role r k.at (k.role ∙ role_is))
        (scan-tree source capacity id role ts env refs)
        (Outcome-close ast source capacity (close id r.size) (leave source capacity role env)
          (Outcome-then ast source capacity _ (scans source capacity ts)
            (enter-Outcome ast source capacity v id n role k at role_is)
            λ r' env' refs' v'.
              childs-Outcome (resolve_symbols_scoped fuel) (scan source capacity)
                (scans source capacity) (scans-end source capacity) (scans-more source capacity)
                (sizes ts) run id ts n r' env' refs' nz at forest (omega arith) (omega arith) v')
          λ r' new refs' v'. close-Outcome id n role r' new env refs' r.size count at role_is v')

  declare-Outcome :
      (t : Tree) (r : Resolver) (env : Symbols) (refs : Refs)
      → IsTree ast t
      → IsState ast source capacity r env refs
      → Outcome ast source capacity env
          (declare (root_of t) r)
          (declare_tree source capacity t env refs)
  unfolding declare_role declare_tree
  declare-Outcome (tree id role ts) r env refs (node n nz at role_is forest) v =
      let k = node-IsKept ast source capacity v id n at in
      Outcome-eq ast source capacity (declare-role id k.node role r k.at (k.role ∙ role_is)) refl
        (by_role role)
    where
      by_role :
          (role : Role)
          → Outcome ast source capacity env
              (declare_role role id r)
              (declare_tree source capacity (tree id role ts) env refs)
      by_role (function name) = define-Outcome ast source capacity v name id n at
      by_role (binds name) = finished v [] refl
      by_role (refers name) = finished v [] refl
      by_role block = finished v [] refl
      by_role plain = finished v [] refl

-- For a resolver whose two arrays have one length, and a tree that lies in its arena at the root
-- and has no more nodes than the arena, nulang__resolve_symbols ends as the resolution by recursion
-- on the tree does: with the same symbols in scope and exactly the references of that resolution
-- written to the arena, or with its error and the span of the node that it stops at; it faults
-- exactly if that resolution needs more symbols at once than the arrays hold.
pub resolve_symbols_lem :
    (r : Resolver) (t : Tree)
    → length r.ids ≡ length r.names
    → IsTree r.ast t
    → root_of t ≡ r.ast.root
    → size t ≤ length r.ast.nodes
    → Outcome r.ast r.source
        (length r.names)
        []
        (resolve_symbols r)
        (scan_module r.source (length r.names) t)
unfolding resolve_symbols scan_module
resolve_symbols_lem r (tree id role ts) arrays (node n nz at role_is forest) e le =
    let capacity = length r.names in
    let start = record r { size = 0 } in
    let fuel = length r.ast.nodes + 1 in
    let v : IsState r.ast r.source capacity start [] [] = record {
      table = record { arrays = arrays; holds = nil };
      tree = refl;
      text = refl;
      room = refl;
    } in
    let declared =
      childs-Outcome r.ast r.source capacity declare (declare_tree r.source capacity)
        (declares r.source capacity) (declares-end r.source capacity)
        (declares-more r.source capacity) (sizes ts)
        (λ t q env refs le' w v'. declare-Outcome r.ast r.source capacity t q env refs w v') id ts n
        start [] [] nz at forest (omega arith) (omega arith) v in
    subst
      (λ i.
        Outcome r.ast r.source capacity []
          (bind (foreach_childs (λ (s : Resolver). s.ast) declare i start)
            (λ _. resolve_symbols_scoped fuel i))
          (scan_module r.source capacity (tree id role ts)))
      e
      (Outcome-then r.ast r.source capacity (resolve_symbols_scoped fuel id)
        (scan r.source capacity (tree id role ts)) declared
        λ q env refs v'.
          scoped-Outcome r.ast r.source capacity fuel (tree id role ts) q env refs (omega arith) le
            (node n nz at role_is forest) v')
