-- ===== src/Lang/Ast/Walk.antt =====
-- The walk over the children of a node in nucleus/lang/ast.h, and the addition of nodes to the arena.
use nextnucleus.Base.{
  ℕ, zero, suc, ◌<◌, ◌≡◌, refl, ap, ◌∙◌, ◌≢◌, inl, inr, some, List, [], ◌∷◌, ◌++◌, arith,
  Option-cases, length, length-append,
}
use nextnucleus.Lang.Ast.{
  Ast, Node, node_null, node_at, append_child, found_node, first_child, sibling, iter_childs,
  visited,
}
use nextnucleus.Lang.Ast.Chain.{next_of, Chain, Chain-nil_inv, Chain-cons_inv, next_of_inv}
use nextnucleus.Lang.Ast.Childs.{IsParent, IsNew, append_child_lem}

module _ (ast : Ast) where
  pub found_node-null : found_node ast node_null ≡ some node_null
  unfolding found_node
  found_node-null = refl

  pub found_node-some :
      (c : ℕ) (n : Node) → c ≢ node_null → node_at ast c ≡ some n → found_node ast c ≡ some c
  unfolding found_node
  found_node-some c n nz at = ground arith

  sibling_lem :
      (c q : ℕ) → c ≢ node_null → next_of ast c ≡ some q → sibling ast c ≡ found_node ast q
  unfolding sibling next_of
  sibling_lem c q nz at = elim (Option-cases (node_at ast c)) [
    | inl e ↦ absurd (ground arith)
    | inr (n, e) ↦ ground arith
  ]

  first_child_lem :
      (parent : ℕ) (p : Node)
      → parent ≢ node_null
      → node_at ast parent ≡ some p
      → first_child ast parent ≡ found_node ast p.first_child
  unfolding first_child
  first_child_lem parent p nz at = ground arith

  pub iter_childs-sibling :
      (parent c q : ℕ)
      → c ≢ node_null
      → next_of ast c ≡ some q
      → iter_childs ast parent c ≡ found_node ast q
  unfolding iter_childs
  iter_childs-sibling parent c q nz at = ground (arith, sibling_lem c q nz at)

  pub iter_childs-first :
      (parent : ℕ) (p : Node)
      → parent ≢ node_null
      → node_at ast parent ≡ some p
      → iter_childs ast parent node_null ≡ found_node ast p.first_child
  unfolding iter_childs
  iter_childs-first parent p nz at = first_child_lem parent p nz at

  module _ (parent : ℕ) where
    visited-step :
        (fuel child q : ℕ) (cs : List ℕ)
        → iter_childs ast parent child ≡ found_node ast q
        → Chain ast q cs
        → length cs < fuel
        → visited fuel ast parent child ≡ some cs
    unfolding visited
    visited-step zero child q cs e chain h = absurd (omega arith)
    visited-step (suc fuel) child q [] e chain h =
        let z = Chain-nil_inv ast chain in
        let f : iter_childs ast parent child ≡ some node_null =
          e ∙ (ap (found_node ast) z ∙ found_node-null) in
        ground arith
    visited-step (suc fuel) child q (c ∷ cs) e chain h =
        let (z, r, nz, at, out, rest) = Chain-cons_inv ast chain in
        let (n, there) = next_of_inv ast c at in
        let f : iter_childs ast parent child ≡ some c =
          e ∙ (ap (found_node ast) z ∙ found_node-some c n nz there) in
        let next = iter_childs-sibling parent c r nz at in
        let ih = visited-step fuel c r cs next rest (omega arith) in ground arith

    pub visited_lem :
        (cs : List ℕ) (fuel : ℕ)
        → IsParent ast parent cs
        → parent ≢ node_null
        → length cs < fuel
        → visited fuel ast parent node_null ≡ some cs
    visited_lem cs fuel v nz h =
        visited-step fuel node_null v.node.first_child cs (iter_childs-first parent v.node nz v.at)
          v.childs h

-- After the addition of a child, with the conditions of Lang.Ast.Childs.append_child_lem, the loop
-- over the children by nulang__iter_childs, with more fuel than children, visits the old ones in
-- order and then the new one.
pub visited-append_child :
    (ast : Ast) (parent child : ℕ) (cs : List ℕ) (fuel : ℕ)
    → IsParent ast parent cs
    → IsNew ast parent child cs
    → suc (length cs) < fuel
    → (ast' : Ast) × (append_child ast parent child ≡ some ast')
      × (visited fuel ast' parent node_null ≡ some (cs ++ child ∷ []))
visited-append_child ast parent child cs fuel v new h =
    let (ast', e, w) = append_child_lem ast parent child cs v new in
    let le : length (cs ++ child ∷ []) < fuel = omega (arith, length-append cs (child ∷ [])) in
    (ast', e, visited_lem ast' parent (cs ++ child ∷ []) fuel w.childs new.parent_not_null le)
