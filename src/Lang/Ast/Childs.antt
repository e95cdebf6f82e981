-- ===== src/Lang/Ast/Childs.antt =====
-- The operations on the children of a node in nucleus/lang/ast.h, against the list of the children.
use nextnucleus.Base.{
  ℕ, ◌≡◌, refl, sym, ap, subst, ◌∙◌, ◌≢◌, inl, inr, some, List, [], ◌∷◌, ◌++◌, arith, ◌==◌,
  if◌then◌else◌, Bool-cases, get_elem?, set, get_elem?-set_ne, ◌∈◌, ◌∉◌,
}
use nextnucleus.Vm.Links.Seg.{last_or, last_or-mem}
use nextnucleus.Lang.Ast.{
  Ast, Node, node_null, node_at, put_node, change_node, append_asserts, append_child,
}
use nextnucleus.Lang.Ast.Chain.{
  next_of, Chain, nil, cons, node_at-put_node, frame, extend, next_of_node, Chain-mem,
}

-- `parent` is a node whose children are the nodes of the list, in order.
pub record IsParent (ast : Ast) (parent : ℕ) (cs : List ℕ) : Type 0 where
  pub node : Node
  pub at : node_at ast parent ≡ some node
  pub childs : Chain ast node.first_child cs
  pub last : node.last_child ≡ last_or node_null cs

-- What an addition to the children of `parent` may rely on: the child is another node, not the root,
-- and without siblings.
pub record IsNew (ast : Ast) (parent child : ℕ) (cs : List ℕ) : Type 0 where
  pub node : Node
  pub at : node_at ast child ≡ some node
  pub single : node.next_sibling ≡ node_null
  pub not_root : child ≢ 0
  pub not_null : child ≢ node_null
  pub parent_not_null : parent ≢ node_null
  pub other : child ≢ parent
  pub outside : child ∉ cs
  pub no_loop : parent ∉ cs

-- The tree after the addition, if there are no children yet, and behind the last of them.
abbrev pub adopted : Ast → ℕ → Node → ℕ → Ast
adopted ast child n parent = put_node ast child (record n { parent = parent })

abbrev pub first_added : Ast → ℕ → Node → ℕ → Node → Ast
first_added ast parent p child n =
    adopted (put_node ast parent (record p { first_child = child; last_child = child })) child n
      parent

abbrev pub behind_added : Ast → ℕ → Node → Node → ℕ → Node → Ast
behind_added ast parent p l child n =
    adopted
      (put_node (put_node ast p.last_child (record l { next_sibling = child })) parent
        (record p { last_child = child }))
      child n parent

pub asserts_lem :
    (parent child last : ℕ)
    → child ≢ 0
    → parent ≢ node_null
    → child ≢ node_null
    → child ≢ parent
    → last ≢ child
    → last ≢ parent
    → append_asserts parent child last ≡ some tt
unfolding append_asserts
asserts_lem parent child last a b c d e f = ground arith

module _ (ast : Ast) (parent child : ℕ) (p n : Node) (at : node_at ast parent ≡ some p)
    (new : node_at ast child ≡ some n) (other : child ≢ parent) where
  pub first_added-node :
      (t : ℕ)
      → node_at (first_added ast parent p child n) t ≡ (
          if t == child
          then some (record n { parent = parent })
          else if t == parent
          then some (record p { first_child = child; last_child = child })
          else node_at ast t)
  first_added-node t =
      let ast₁ = put_node ast parent (record p { first_child = child; last_child = child }) in
      let one = λ (u : ℕ).
        node_at-put_node ast parent u p (record p { first_child = child; last_child = child }) at in
      let at₁ : node_at ast₁ child ≡ some n = ground (arith, one child) in
      ground (arith, one t, node_at-put_node ast₁ child t n (record n { parent = parent }) at₁)

  pub first_added_lem :
      append_asserts parent child p.last_child ≡ some tt
      → p.last_child ≡ node_null
      → append_child ast parent child ≡ some (first_added ast parent p child n)
  unfolding append_child append_asserts change_node node_at put_node
  first_added_lem ok none_yet =
      let at₁ : get_elem?
            (set ast.nodes parent (record p { first_child = child; last_child = child })) child
          ≡ some n =
        get_elem?-set_ne ast.nodes parent child _ (λ e. other (sym e)) ∙ new in
      ground arith

  pub behind_added-node :
      (l : Node)
      → node_at ast p.last_child ≡ some l
      → p.last_child ≢ child
      → p.last_child ≢ parent
      → (t : ℕ)
      → node_at (behind_added ast parent p l child n) t ≡ (
          if t == child
          then some (record n { parent = parent })
          else if t == parent
          then some (record p { last_child = child })
          else if t == p.last_child
          then some (record l { next_sibling = child })
          else node_at ast t)
  behind_added-node l there ne₁ ne₂ t =
      let ast₁ = put_node ast p.last_child (record l { next_sibling = child }) in
      let one = λ (u : ℕ).
        node_at-put_node ast p.last_child u l (record l { next_sibling = child }) there in
      let at₁ : node_at ast₁ parent ≡ some p = ground (arith, one parent) in
      let ast₂ = put_node ast₁ parent (record p { last_child = child }) in
      let two = λ (u : ℕ). node_at-put_node ast₁ parent u p (record p { last_child = child }) at₁ in
      let at₂ : node_at ast₂ child ≡ some n = ground (arith, one child, two child) in
      let three = node_at-put_node ast₂ child t n (record n { parent = parent }) at₂ in
      ground (arith, one t, two t, three)

  pub behind_added_lem :
      (l : Node)
      → node_at ast p.last_child ≡ some l
      → append_asserts parent child p.last_child ≡ some tt
      → p.last_child ≢ node_null
      → p.last_child ≢ child
      → p.last_child ≢ parent
      → append_child ast parent child ≡ some (behind_added ast parent p l child n)
  unfolding append_child append_asserts change_node node_at put_node
  behind_added_lem l there ok some_there ne₁ ne₂ =
      let block₁ = set ast.nodes p.last_child (record l { next_sibling = child }) in
      let at₁ : get_elem? block₁ parent ≡ some p =
        get_elem?-set_ne ast.nodes p.last_child parent _ ne₂ ∙ at in
      let at₂ : get_elem? (set block₁ parent (record p { last_child = child })) child ≡ some n =
        get_elem?-set_ne block₁ parent child _ (λ e. other (sym e))
        ∙ (get_elem?-set_ne ast.nodes p.last_child child _ ne₁ ∙ new) in
      ground arith

-- A node keeps its links to its children.
abbrev pub KeepsChilds : Ast → Ast → ℕ → Type 0
KeepsChilds ast ast' q =
    (m : Node)
    → node_at ast q ≡ some m
    → (m' : Node) × (node_at ast' q ≡ some m')
      × (m'.first_child ≡ m.first_child)
      × (m'.last_child ≡ m.last_child)

pub IsParent-frame :
    (ast ast' : Ast) (q : ℕ) (ds : List ℕ)
    → KeepsChilds ast ast' q
    → ((t : ℕ) → t ∈ ds → next_of ast' t ≡ next_of ast t)
    → IsParent ast q ds
    → IsParent ast' q ds
IsParent-frame ast ast' q ds keeps same v =
    let (m, at, first, last) = keeps v.node v.at in
    record {
      node = m;
      at = at;
      childs = subst (λ p. Chain ast' p ds) (sym first) (frame ast ast' v.childs same);
      last = last ∙ v.last;
    }

-- What an addition makes of the tree: the child is behind the other children of the parent, which it
-- knows, and the other nodes have the children that they had.
pub record IsAdopted (ast ast' : Ast) (parent child : ℕ) (cs : List ℕ) : Type 0 where
  pub childs : IsParent ast' parent (cs ++ child ∷ [])
  pub others :
      (q : ℕ) (ds : List ℕ)
      → q ≢ parent
      → ((t : ℕ) → t ∈ ds → t ∉ cs)
      → IsParent ast q ds
      → IsParent ast' q ds
  pub node : Node
  pub at : node_at ast' child ≡ some node
  pub up : node.parent ≡ parent

last_or-snoc : (b child : ℕ) (cs : List ℕ) → last_or b (cs ++ child ∷ []) ≡ child
last_or-snoc b child [] = refl
last_or-snoc b child (c ∷ cs) = last_or-snoc c child cs

ne_of_mem : {a b : ℕ} (xs : List ℕ) → a ∈ xs → b ∉ xs → a ≢ b
ne_of_mem xs i o e = let i' = subst (λ z. z ∈ xs) e i in cc

module _ (ast : Ast) (parent child : ℕ) where
  append_first :
      IsParent ast parent []
      → IsNew ast parent child []
      → (ast' : Ast) × (append_child ast parent child ≡ some ast')
        × IsAdopted ast ast' parent child []
  unfolding next_of
  append_first v new =
      let p = v.node in
      let n = new.node in
      let ast' = first_added ast parent p child n in
      let node = λ (t : ℕ). first_added-node ast parent child p n v.at new.at new.other t in
      let ok =
        asserts_lem parent child p.last_child new.not_root new.parent_not_null new.not_null
          new.other (λ e. new.not_null (sym e ∙ v.last))
          (λ e. new.parent_not_null (sym e ∙ v.last)) in
      let same : (t : ℕ) → next_of ast' t ≡ next_of ast t = λ t. let h = node t in ground arith in
      let single : next_of ast' child ≡ some node_null =
        same child ∙ (next_of_node ast child n new.at ∙ ap some new.single) in
      let keeps : (q : ℕ) → q ≢ parent → KeepsChilds ast ast' q = λ q ne m at.
        let h = node q in
        elim (Bool-cases (q == child)) [
          | inl e ↦ (record n { parent = parent }, ground arith, ground arith, ground arith)
          | inr e ↦ (m, ground arith, refl, refl)
        ] in
      (
        ast',
        first_added_lem ast parent child p n v.at new.at new.other ok v.last,
        record {
          childs = record {
            node = record p { first_child = child; last_child = child };
            at = let h = node parent in ground arith;
            childs = cons new.not_null single refl nil;
            last = refl;
          };
          others = λ q ds ne apart w. IsParent-frame ast ast' q ds (keeps q ne) (λ t _. same t) w;
          node = record n { parent = parent };
          at = let h = node child in ground arith;
          up = refl;
        },
      )

  append_behind :
      (c : ℕ) (cs : List ℕ)
      → IsParent ast parent (c ∷ cs)
      → IsNew ast parent child (c ∷ cs)
      → (ast' : Ast) × (append_child ast parent child ≡ some ast')
        × IsAdopted ast ast' parent child (c ∷ cs)
  unfolding next_of
  append_behind c cs v new =
      let p = v.node in
      let n = new.node in
      let mem = last_or-mem c cs in
      let (nz, l, at) = Chain-mem ast (c ∷ cs) (last_or c cs) v.childs mem in
      let there : node_at ast p.last_child ≡ some l = ap (node_at ast) v.last ∙ at in
      let ne₁ : p.last_child ≢ child = λ e. ne_of_mem (c ∷ cs) mem new.outside (sym v.last ∙ e) in
      let ne₂ : p.last_child ≢ parent = λ e. ne_of_mem (c ∷ cs) mem new.no_loop (sym v.last ∙ e) in
      let ast' = behind_added ast parent p l child n in
      let node =
        λ (t : ℕ). behind_added-node ast parent child p n v.at new.at new.other l there ne₁ ne₂ t in
      let ok =
        asserts_lem parent child p.last_child new.not_root new.parent_not_null new.not_null
          new.other ne₁ ne₂ in
      let same : (t : ℕ) → t ≢ p.last_child → next_of ast' t ≡ next_of ast t =
        λ t ne. let h = node t in ground arith in
      let last : next_of ast' p.last_child ≡ some child =
        let h = node p.last_child in ground arith in
      let single : next_of ast' child ≡ some node_null =
        same child (λ e. ne₁ (sym e)) ∙ (next_of_node ast child n new.at ∙ ap some new.single) in
      let keeps : (q : ℕ) → q ≢ parent → KeepsChilds ast ast' q = λ q ne m at.
        let h = node q in
        elim (Bool-cases (q == child)) [
          | inl e ↦ (record n { parent = parent }, ground arith, ground arith, ground arith)
          | inr e ↦ elim (Bool-cases (q == p.last_child)) [
            | inl e' ↦ (record l { next_sibling = child }, ground arith, ground arith, ground arith)
            | inr e' ↦ (m, ground arith, refl, refl)
          ]
        ] in
      (
        ast',
        behind_added_lem ast parent child p n v.at new.at new.other l there ok
            (λ e. nz (sym v.last ∙ e)) ne₁ ne₂,
        record {
          childs = record {
            node = record p { last_child = child };
            at = let h = node parent in ground arith;
            childs =
                extend ast ast' child v.childs (λ t i ne. same t (λ e. ne (e ∙ v.last)))
                  (ap (next_of ast') (sym v.last) ∙ last) new.outside
                  (cons new.not_null single refl nil);
            last = sym (last_or-snoc node_null child (c ∷ cs));
          };
          others = λ q ds ne apart w.
              IsParent-frame ast ast' q ds (keeps q ne)
                (λ t i. same t (λ e. ne_of_mem (c ∷ cs) mem (apart t i) (sym (e ∙ v.last)))) w;
          node = record n { parent = parent };
          at = let h = node child in ground arith;
          up = refl;
        },
      )

  -- For a parent whose children are a list, and a child that is another node, neither the root nor
  -- null, has no sibling and is not in the list, where the parent is not null and not in the list,
  -- nulang__append_child succeeds and puts the child behind the others; it has the parent, and
  -- every other node whose children are not in the list has the children that it had.
  pub append_child_lem :
      (cs : List ℕ)
      → IsParent ast parent cs
      → IsNew ast parent child cs
      → (ast' : Ast) × (append_child ast parent child ≡ some ast')
        × IsAdopted ast ast' parent child cs
  append_child_lem [] v new = append_first v new
  append_child_lem (c ∷ cs) v new = append_behind c cs v new
