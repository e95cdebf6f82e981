-- ===== src/Lang/Ast/Sound.antt =====
-- The arena of nucleus/lang/ast.h while a parser fills it: no operation on nodes in use faults.
use nextnucleus.Base.{
  ℕ, ◌+◌, ◌≤◌, ◌<◌, ◌≡◌, refl, sym, ap, ◌∙◌, ◌≢◌, ◌⊎◌, inl, inr, true, none, some, arith, leb, ◌==◌,
  if◌then◌else◌, ==_iff, Bool-cases, length, set, length-set, get_elem?_total, u32_mod, u32,
}
use nextnucleus.Lang.Ast.{
  Ast, Node, node_null, alone, node_at, put_node, change_node, add_node, append_child,
}
use nextnucleus.Lang.Ast.Childs.{
  asserts_lem, first_added, first_added-node, first_added_lem, behind_added, behind_added-node,
  behind_added_lem,
}
use nextnucleus.Lang.Ast.Arena.{IsArena, added, add_node-eq}
use nextnucleus.Lang.Ast.Chain.{node_at-put_node, change_node_lem}

-- The block has the capacity, whose ids are not null; the root is in use; and the last child of a node
-- in use is another node in use.
pub record IsSound (ast : Ast) : Type 0 where
  pub block : length ast.nodes ≡ ast.node_capacity
  pub fits : ast.node_capacity < u32_mod
  pub bound : ast.node_count ≤ ast.node_capacity
  pub rooted : 0 < ast.node_count
  pub last :
      (id : ℕ) (n : Node)
      → id < ast.node_count
      → node_at ast id ≡ some n
      → (n.last_child ≡ node_null) ⊎ ((n.last_child < ast.node_count) × (n.last_child ≢ id))

-- The arena grows, and the nodes below `k` keep their last child.
pub record IsGrown (k : ℕ) (ast ast' : Ast) : Type 0 where
  pub sound : IsSound ast'
  pub count : ast.node_count ≤ ast'.node_count
  pub same :
      (id : ℕ) (n : Node)
      → id < k
      → node_at ast id ≡ some n
      → (n' : Node) × (node_at ast' id ≡ some n') × (n'.last_child ≡ n.last_child)

pub IsGrown-refl : (k : ℕ) (ast : Ast) → IsSound ast → IsGrown k ast ast
IsGrown-refl k ast v = record { sound = v; count = omega arith; same = λ id n lt at. (n, at, refl) }

pub IsGrown-trans :
    {k m j : ℕ} {a b c : Ast} → k ≤ m → k ≤ j → IsGrown m a b → IsGrown j b c → IsGrown k a c
IsGrown-trans le le' v w = record {
  sound = w.sound;
  count = (let x = v.count in let y = w.count in omega arith);
  same = λ id n lt at.
      let (n', at', e) = v.same id n (omega arith) at in
      let (n'', at'', e') = w.same id n' (omega arith) at' in (n'', at'', e' ∙ e);
}

module _ (ast : Ast) (v : IsSound ast) where
  pub node_at-total : (id : ℕ) → id < ast.node_count → (n : Node) × (node_at ast id ≡ some n)
  unfolding node_at
  node_at-total id lt =
      let x = v.block in let y = v.bound in get_elem?_total ast.nodes id (omega arith)

  same_last :
      (t id : ℕ) (m n : Node)
      → (t == id) ≡ true
      → node_at ast t ≡ some m
      → node_at ast id ≡ some n
      → n.last_child ≡ m.last_child
  same_last t id m n e there at = ground arith

  of_kept :
      (ast' : Ast)
      → ((t : ℕ) (m : Node)
          → node_at ast t ≡ some m
          → (m' : Node) × (node_at ast' t ≡ some m') × (m'.last_child ≡ m.last_child))
      → length ast'.nodes ≡ length ast.nodes
      → ast'.node_capacity ≡ ast.node_capacity
      → ast'.node_count ≡ ast.node_count
      → (k : ℕ) → IsGrown k ast ast'
  of_kept ast' kept block capacity count k = record {
    sound = record {
      block = block ∙ (v.block ∙ sym capacity);
      fits = (let x = v.fits in omega arith);
      bound = (let x = v.bound in omega arith);
      rooted = (let x = v.rooted in omega arith);
      last = λ id n lt at.
          let (m, there) = node_at-total id (omega arith) in
          let (m', at', e) = kept id m there in
          let same : m' ≡ n = ground arith in
          let is : n.last_child ≡ m.last_child = ap (λ (x : Node). x.last_child) (sym same) ∙ e in
          elim (v.last id m (omega arith) there) [
            | inl z ↦ inl (is ∙ z)
            | inr (a, b) ↦ inr (omega arith, λ x. b (sym is ∙ x))
          ];
    };
    count = omega arith;
    same = λ id n lt at. kept id n at;
  }

  -- A write that keeps the last child.
  pub change_node-IsGrown :
      (id : ℕ) (f : Node → Node) (k : ℕ)
      → id < ast.node_count
      → ((n : Node) → (f n).last_child ≡ n.last_child)
      → (ast' : Ast) × (change_node ast id f ≡ some ast')
        × IsGrown k ast ast'
        × (ast'.node_count ≡ ast.node_count)
        × (n : Node) × (node_at ast id ≡ some n)
        × (node_at ast' id ≡ some (f n))
  unfolding put_node
  change_node-IsGrown id f k lt keep =
      let (n, at) = node_at-total id lt in
      let ast' = put_node ast id (f n) in
      let node = λ (t : ℕ). node_at-put_node ast id t n (f n) at in
      let kept : (t : ℕ) (m : Node)
          → node_at ast t ≡ some m
          → (m' : Node) × (node_at ast' t ≡ some m') × (m'.last_child ≡ m.last_child) =
        λ t m there.
          let h = node t in
          elim (Bool-cases (t == id)) [
            | inl e ↦ (f n, ground arith, keep n ∙ same_last t id m n e there at)
            | inr e ↦ (m, ground arith, refl)
          ] in
      (
        ast',
        change_node_lem ast id f n at,
        of_kept ast' kept (length-set ast.nodes id (f n)) refl refl k,
        refl,
        n,
        at,
        (let h = node id in ground arith),
      )

  of_count : ast.node_count < ast.node_capacity → u32 (ast.node_count + 1) ≡ ast.node_count + 1
  of_count le = let x = v.fits in omega arith

  added-IsGrown :
      (n : Node)
      → node_at ast ast.node_count ≡ some n
      → ast.node_count < ast.node_capacity
      → IsGrown ast.node_count ast (added ast n)
  unfolding node_at put_node
  added-IsGrown n at le =
      let one = of_count le in
      let node : (t : ℕ)
          → node_at (added ast n) t
            ≡ (if t == ast.node_count then some (alone n) else node_at ast t) =
        λ t. node_at-put_node ast ast.node_count t n (alone n) at in
      let kept : (t : ℕ) (m : Node)
          → t < ast.node_count
          → node_at ast t ≡ some m
          → node_at (added ast n) t ≡ some m =
        λ t m lt there. let h = node t in ground arith in
      record {
        sound = record {
          block = length-set ast.nodes ast.node_count (alone n) ∙ v.block;
          fits = v.fits;
          bound = omega arith;
          rooted = omega arith;
          last = λ id m lt there. elim (Bool-cases (id == ast.node_count)) [
            | inl e ↦
                let h = node id in
                let is : alone n ≡ m = ground arith in
                inl (ap (λ (x : Node). x.last_child) (sym is))
            | inr e ↦
                let h = node id in
                let old : node_at ast id ≡ some m = ground arith in
                let below : id < ast.node_count = ground arith in
                elim (v.last id m below old) [ inl z ↦ inl z | inr (a, b) ↦ inr (omega arith, b) ]
          ];
        };
        count = omega arith;
        same = λ id m lt there. (m, kept id m lt there, refl);
      }

  pub add_node-IsGrown :
      (add_node ast ≡ some none)
      ⊎ ((ast' : Ast) × (n : Node) × (add_node ast ≡ some (some (ast', ast.node_count)))
          × IsGrown ast.node_count ast ast'
          × (ast'.node_count ≡ ast.node_count + 1)
          × (node_at ast' ast.node_count ≡ some n)
          × (n.last_child ≡ node_null))
  unfolding add_node node_at put_node
  add_node-IsGrown = elim (Bool-cases (leb ast.node_capacity ast.node_count)) [
    | inl h ↦ inl (ground arith)
    | inr h ↦
        let le : ast.node_count < ast.node_capacity = ground arith in
        let block = v.block in
        let (n, at) = get_elem?_total ast.nodes ast.node_count (omega arith) in
        let arena : IsArena ast = record { block = v.block; fits = v.fits; bound = v.bound } in
        let here : node_at (added ast n) ast.node_count ≡ some (alone n) =
          let e = node_at-put_node ast ast.node_count ast.node_count n (alone n) at in
          ground arith in
        inr (
          added ast n,
          alone n,
          add_node-eq ast arena n at le,
          added-IsGrown n at le,
          of_count le,
          here,
          refl,
        )
  ]

  not_null : (id : ℕ) → id < ast.node_count → id ≢ node_null
  not_null id lt e = let x = v.fits in let y = v.bound in omega arith

  -- A tree in which only the parent has another last child.
  of_adopted :
      (parent child : ℕ) (p' : Node) (ast' : Ast)
      → parent < ast.node_count
      → child < ast.node_count
      → child ≢ parent
      → ((t : ℕ) (m : Node)
          → t ≢ parent
          → node_at ast t ≡ some m
          → (m' : Node) × (node_at ast' t ≡ some m') × (m'.last_child ≡ m.last_child))
      → node_at ast' parent ≡ some p'
      → p'.last_child ≡ child
      → length ast'.nodes ≡ length ast.nodes
      → ast'.node_capacity ≡ ast.node_capacity
      → ast'.node_count ≡ ast.node_count
      → IsGrown parent ast ast'
  of_adopted parent child p' ast' lt lt' other kept here is block capacity count = record {
    sound = record {
      block = block ∙ (v.block ∙ sym capacity);
      fits = (let x = v.fits in omega arith);
      bound = (let x = v.bound in omega arith);
      rooted = (let x = v.rooted in omega arith);
      last = λ id n lt at. elim (Bool-cases (id == parent)) [
        | inl e ↦
            let same : p' ≡ n = ground arith in
            let q : n.last_child ≡ child = ap (λ (x : Node). x.last_child) (sym same) ∙ is in
            inr (omega arith, λ x. other (sym q ∙ (x ∙ (==_iff id parent).0 e)))
        | inr e ↦
            let out : id ≢ parent = λ x. ground arith in
            let (m, there) = node_at-total id (omega arith) in
            let (m', at', e') = kept id m out there in
            let same : m' ≡ n = ground arith in
            let q : n.last_child ≡ m.last_child = ap (λ (x : Node). x.last_child) (sym same) ∙ e' in
            elim (v.last id m (omega arith) there) [
              | inl z ↦ inl (q ∙ z)
              | inr (a, b) ↦ inr (omega arith, λ x. b (sym q ∙ x))
            ]
      ];
    };
    count = omega arith;
    same = λ id n lt at. kept id n (λ e. omega arith) at;
  }

  pub append_child-IsGrown :
      (parent child : ℕ) (p : Node)
      → parent < ast.node_count
      → child < ast.node_count
      → child ≢ 0
      → child ≢ parent
      → node_at ast parent ≡ some p
      → p.last_child ≢ child
      → (ast' : Ast) × (append_child ast parent child ≡ some ast')
        × IsGrown parent ast ast'
        × (ast'.node_count ≡ ast.node_count)
        × ((p' : Node) × (node_at ast' parent ≡ some p')
            × (p'.last_child ≡ child)
            × (p'.type ≡ p.type)
            × (p'.value ≡ p.value))
  unfolding put_node
  append_child-IsGrown parent child p lt lt' nz other at ne =
      let (n, new) = node_at-total child lt' in
      elim (v.last parent p lt at) [
        | inl z ↦
            let node = λ (t : ℕ). first_added-node ast parent child p n at new other t in
            let ast' = first_added ast parent p child n in
            let ok =
              asserts_lem parent child p.last_child nz (not_null parent lt) (not_null child lt')
                other ne (λ e. not_null parent lt (sym e ∙ z)) in
            let kept : (t : ℕ) (m : Node)
                → t ≢ parent
                → node_at ast t ≡ some m
                → (m' : Node) × (node_at ast' t ≡ some m') × (m'.last_child ≡ m.last_child) =
              λ t m out there.
                let h = node t in
                elim (Bool-cases (t == child)) [
                  | inl e ↦ (
                    record n { parent = parent },
                    ground arith,
                    same_last t child m n e there new,
                  )
                  | inr e ↦ (m, ground arith, refl)
                ] in
            let here : node_at ast' parent
                ≡ some (record p { first_child = child; last_child = child }) =
              let h = node parent in ground arith in
            (
              ast',
              first_added_lem ast parent child p n at new other ok z,
              of_adopted parent child _ ast' lt lt' other kept here refl
                  (length-set
                      (set ast.nodes parent (record p { first_child = child; last_child = child }))
                      child (record n { parent = parent })
                    ∙ length-set ast.nodes parent
                        (record p { first_child = child; last_child = child }))
                  refl refl,
              refl,
              (_, here, refl, refl, refl),
            )
        | inr (below, apart) ↦
            let (l, there) = node_at-total p.last_child below in
            let node =
              λ (t : ℕ). behind_added-node ast parent child p n at new other l there ne apart t in
            let ast' = behind_added ast parent p l child n in
            let ok =
              asserts_lem parent child p.last_child nz (not_null parent lt) (not_null child lt')
                other ne apart in
            let kept : (t : ℕ) (m : Node)
                → t ≢ parent
                → node_at ast t ≡ some m
                → (m' : Node) × (node_at ast' t ≡ some m') × (m'.last_child ≡ m.last_child) =
              λ t m out there'.
                let h = node t in
                elim (Bool-cases (t == child)) [
                  | inl e ↦ (
                    record n { parent = parent },
                    ground arith,
                    same_last t child m n e there' new,
                  )
                  | inr e ↦ elim (Bool-cases (t == p.last_child)) [
                    | inl e' ↦ (
                      record l { next_sibling = child },
                      ground arith,
                      same_last t p.last_child m l e' there' there,
                    )
                    | inr e' ↦ (m, ground arith, refl)
                  ]
                ] in
            let here : node_at ast' parent ≡ some (record p { last_child = child }) =
              let h = node parent in ground arith in
            let block₁ = set ast.nodes p.last_child (record l { next_sibling = child }) in
            let block₂ = set block₁ parent (record p { last_child = child }) in
            (
              ast',
              behind_added_lem ast parent child p n at new other l there ok
                  (not_null p.last_child below) ne apart,
              of_adopted parent child _ ast' lt lt' other kept here refl
                  (length-set block₂ child (record n { parent = parent })
                    ∙ (length-set block₁ parent (record p { last_child = child })
                        ∙ length-set ast.nodes p.last_child (record l { next_sibling = child })))
                  refl refl,
              refl,
              (_, here, refl, refl, refl),
            )
      ]
