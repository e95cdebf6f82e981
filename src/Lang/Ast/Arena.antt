-- ===== src/Lang/Ast/Arena.antt =====
-- The arena of nodes in nucleus/lang/ast.h: its bounds, and what a new node leaves as it was.
use nextnucleus.Base.{
  ℕ, ◌+◌, ◌%◌, ◌≤◌, ◌<◌, ◌≡◌, refl, ◌∙◌, ◌≢◌, ◌⊎◌, inl, inr, none, some, List, [], arith, leb, ◌==◌,
  if◌then◌else◌, leb→le, Bool-cases, length, set, length-set, get_elem?_total, ◌∉◌, u32_mod, u32,
}
use nextnucleus.Lang.Ast.{Ast, Node, node_null, alone, node_at, put_node, change_node, add_node}
use nextnucleus.Lang.Ast.Chain.{next_of, nil, node_at-put_node}
use nextnucleus.Lang.Ast.Childs.{IsParent, IsParent-frame}

-- The block has the capacity, which fits nu_u32_t, and the nodes in use are in it.
pub record IsArena (ast : Ast) : Type 0 where
  pub block : length ast.nodes ≡ ast.node_capacity
  pub fits : ast.node_capacity < u32_mod
  pub bound : ast.node_count ≤ ast.node_capacity

-- What an addition makes of the arena: one more node, without relatives, and no other is changed.
pub record IsAdded (ast ast' : Ast) : Type 0 where
  pub arena : IsArena ast'
  pub count : ast'.node_count ≡ ast.node_count + 1
  pub childs : IsParent ast' ast.node_count []
  pub single : next_of ast' ast.node_count ≡ some node_null
  pub others :
      (q : ℕ) (ds : List ℕ)
      → q ≢ ast.node_count
      → ast.node_count ∉ ds
      → IsParent ast q ds
      → IsParent ast' q ds

abbrev pub added : Ast → Node → Ast
added ast n = record ast {
  nodes = set ast.nodes ast.node_count (alone n);
  node_count = u32 (ast.node_count + 1);
}

module _ (ast : Ast) (v : IsArena ast) where
  pub add_node-eq :
      (n : Node)
      → node_at ast ast.node_count ≡ some n
      → ast.node_count < ast.node_capacity
      → add_node ast ≡ some (some (added ast n, ast.node_count))
  unfolding add_node change_node node_at put_node
  add_node-eq n at h = ground arith

  added-IsAdded :
      (n : Node)
      → node_at ast ast.node_count ≡ some n
      → ast.node_count < ast.node_capacity
      → IsAdded ast (added ast n)
  unfolding next_of node_at put_node
  added-IsAdded n at h =
      let node : (t : ℕ)
          → node_at (added ast n) t
            ≡ (if t == ast.node_count then some (alone n) else node_at ast t) =
        λ t. node_at-put_node ast ast.node_count t n (alone n) at in
      let one : (ast.node_count + 1) % u32_mod ≡ ast.node_count + 1 =
        let f = v.fits in omega arith in
      let same : (t : ℕ) → t ≢ ast.node_count → next_of (added ast n) t ≡ next_of ast t =
        λ t ne. let e = node t in ground arith in
      record {
        arena = record {
          block = length-set ast.nodes ast.node_count (alone n) ∙ v.block;
          fits = v.fits;
          bound = omega (arith, one);
        };
        count = one;
        childs = record {
          node = alone n;
          at = let e = node ast.node_count in ground arith;
          childs = nil;
          last = refl;
        };
        single = let e = node ast.node_count in ground arith;
        others = λ q ds ne out w.
            IsParent-frame ast (added ast n) q ds
              (λ m there. (m, (let e = node q in ground arith), refl, refl))
              (λ t i. same t (λ e. let o = out in ground arith)) w;
      }

  -- In an arena of at most 2^32 - 1 nodes, whose block has the capacity and whose nodes in use are
  -- not more than that, nulang__add_node hands out the next node, without relatives, keeps the
  -- bounds and leaves the children of every other node that does not have the new one among them;
  -- at the capacity it reports that it is out of nodes.
  pub add_node_lem :
      ((ast' : Ast) × (ast.node_count < ast.node_capacity)
        × (add_node ast ≡ some (some (ast', ast.node_count)))
        × IsAdded ast ast')
      ⊎ ((ast.node_capacity ≤ ast.node_count) × (add_node ast ≡ some none))
  unfolding add_node change_node node_at put_node
  add_node_lem = elim (Bool-cases (leb ast.node_capacity ast.node_count)) [
    | inl h ↦ inr (leb→le ast.node_capacity ast.node_count h, ground arith)
    | inr h ↦
        let le : ast.node_count < ast.node_capacity = ground arith in
        let f = v.block in
        let (n, at) = get_elem?_total ast.nodes ast.node_count (omega arith) in
        inl (added ast n, le, add_node-eq n at le, added-IsAdded n at le)
  ]
