-- ===== src/Lang/Parser/Chains.antt =====
-- nucleus/lang/parser.h: symbols, member chains and calls end without a fault.
use nextnucleus.Base.{
  ℕ, ◌≤◌, ◌<◌, ◌≡◌, refl, sym, ap, subst, ◌∙◌, ◌≢◌, inl, inr, Bool, true, false, ◌||◌, none, some,
  arith, if◌then◌else◌, Option-cases,
}
use nextnucleus.Lang.Token.{Token, TokenType, LangError}
use nextnucleus.Lang.Token
use nextnucleus.Lang.Builtin.{
  SourceString, Builtin, constructor, constant, function, find_builtin_function,
}
use nextnucleus.Lang.Action.{Reply, done, fault, bind, pure, again, stop}
use nextnucleus.Lang.Ast.{
  Ast, Node, NodeType, NodeValue, node_at, node_null, n_symref, n_member, n_builtin,
}
use nextnucleus.Lang.Ast.Tables.{same_token, same_node}
use nextnucleus.Lang.Parser.{Parser, M, write_node, raise_at}
use nextnucleus.Lang.Parser.Expr.{
  parse_symbol, member_node, builtin_member, member_switch, member_round, parse_member_chain,
  try_parse_member_chain, read_node,
}
use nextnucleus.Lang.Parser.Loops.{Goes, forever-Post}
use nextnucleus.Lang.Parser.Post.{
  IsGood, Went, Went-trans, Went-then, Post, ends, stops, Post-bind, Post-map, Post-if,
  parser_expect-Post, parser_peek-Post,
}
use nextnucleus.Lang.Parser.Nodes.{
  identifier_of-typed, fresh_node-Post, write_node-Post, adopt-Post,
}

-- A function that parses a node: it takes a token at least, answers a new node, and leaves the last
-- children of the others.
abbrev pub NodePost : Parser → ℕ → Reply Parser ℕ → Type 0
NodePost p k = Post λ id q.
    (j : ℕ) × Went p.ast.node_count p j q
    × (j < k)
    × (p.ast.node_count ≤ id)
    × (id < q.ast.node_count)

-- A value that is there.
pub Post-value :
    {A B : Type 0} {Q : B → Parser → Type 0} {x : Reply Parser A} (f : A → M B) (a : A) (q : Parser)
    → x ≡ done a q
    → Post Q (f a q)
    → Post Q (bind x f)
Post-value {Q = Q} f a q e h = subst (λ r. Post Q (bind r f)) (sym e) h

-- A node that a member can be taken of.
unfoldable has_builtin : NodeValue → Bool
has_builtin (NodeValue.builtin b) = true
has_builtin _ = false

unfoldable pub can_chain : Node → Bool
unfolding same_node has_builtin
can_chain n =
    if same_node n.type n_member || same_node n.type n_symref
    then true
    else if same_node n.type n_builtin
    then has_builtin n.value
    else false

abbrev pub Chainable : Ast → ℕ → Type 0
Chainable ast id = (n : Node) × (node_at ast id ≡ some n) × (can_chain n ≡ true)

abbrev pub ChainPost : ℕ → Parser → ℕ → Reply Parser ℕ → Type 0
ChainPost c p k = Post λ id q.
    (j : ℕ) × Went c p j q × (j ≤ k) × (c ≤ id) × (id < q.ast.node_count) × Chainable q.ast id

module _ (p : Parser) (k : ℕ) (v : IsGood p k) where
  pub parse_symbol-Post :
      Post
        (λ id q.
          (j : ℕ) × Went p.ast.node_count p j q
          × (j < k)
          × (p.ast.node_count ≤ id)
          × (id < q.ast.node_count)
          × Chainable q.ast id)
        (parse_symbol p)
  unfolding parse_symbol can_chain same_node same_token
  parse_symbol-Post =
      let c = p.ast.node_count in
      Post-bind (parser_expect-Post c p k v Token.t_identifier refl)
        λ t q (typed, is, j, w, tree, lt).
          Post-bind (fresh_node-Post q j w.good) λ id r (e, w₁, count, n, at, last).
            let (s, named) = identifier_of-typed t r typed is in
            Post-value _ s r named (
              Post-bind (write_node-Post r j w₁.good c id _ n at (omega arith) (λ n. refl))
                λ _ u (w₂, count₂, here).
                  let grew = w.grown.count in
                  ends (
                    j,
                    Went-trans (omega arith) (omega arith) (Went-trans (omega arith) grew w w₁) w₂,
                    lt,
                    omega arith,
                    omega arith,
                    (_, here, refl),
                  ))

pub null_is_new :
    (p : Parser) {k : ℕ}
    → IsGood p k
    → (child : ℕ) (n : Node) → child < p.ast.node_count
    → n.last_child ≡ node_null
    → n.last_child ≢ child
null_is_new p v child n lt last e = let x = v.sound.fits in let y = v.sound.bound in omega arith

has_builtin-eq : (v : NodeValue) → has_builtin v ≡ true → (b : Builtin) × (v ≡ NodeValue.builtin b)
unfolding has_builtin
has_builtin-eq (NodeValue.builtin b) h = (b, refl)
has_builtin-eq _ h = cc

same_node-eq : (a b : NodeType) → same_node a b ≡ true → a ≡ b
unfolding same_node
same_node-eq a b h = ground arith

module _ (c : ℕ) (pos : 0 < c) (p : Parser) (k : ℕ) (v : IsGood p k) (child : ℕ) (low : c ≤ child)
    (lt : child < p.ast.node_count) where
  member_node-Post :
      (t : Token) (name : SourceString) → ChainPost c p k (member_node child t name p)
  unfolding member_node can_chain same_node
  member_node-Post t name = Post-bind (fresh_node-Post p k v) λ id r (e, w₁, count, n, at, last).
      Post-bind (write_node-Post r k w₁.good c id _ n at (omega arith) (λ n. refl))
        λ _ u (w₂, count₂, here).
          Post-bind
            (adopt-Post u k w₂.good id child _ (omega arith) (omega arith) (λ z. omega arith)
              (λ z. omega arith) here (λ z. null_is_new u w₂.good child n (omega arith) last z))
            λ _ s (w₃, count₃, n', at', last', type, value). ends (
              k,
              Went-trans (omega arith) (omega arith)
                  (Went-trans {n = c} (omega arith) (omega arith) w₁ w₂) w₃,
              omega arith,
              omega arith,
              omega arith,
              (n', at', ground arith),
            )

  builtin_member-Post :
      (t : Token) (name : SourceString) (b : Builtin) (n : Node)
      → node_at p.ast child ≡ some n
      → n.type ≡ n_builtin
      → ChainPost c p k (builtin_member child t name b p)
  unfolding builtin_member can_chain same_node raise_at
  builtin_member-Post t name constant n at is = stops
  builtin_member-Post t name (function f) n at is = stops
  builtin_member-Post t name (constructor q) n at is =
      elim (Option-cases (find_builtin_function p.lexer.source q name)) [
        | inl e ↦
            let run : builtin_member child t name (constructor q) p
                ≡ raise_at t.span LangError.unknown_symbol_type p =
              rw (builtin_member, e) refl in
            subst (Post _) (sym run) stops
        | inr (f, e) ↦
            let run : builtin_member child t name (constructor q) p
                ≡ bind
                    (write_node child (λ n. record n { value = NodeValue.builtin (function f) }) p)
                    (λ _. pure child) =
              rw (builtin_member, e) refl in
            subst (Post _) (sym run) (
              Post-bind (write_node-Post p k v c child _ n at lt (λ n. refl))
                λ _ u (w, count, here).
                  ends (k, w, omega arith, low, omega arith, (_, here, ground arith)))
      ]

  member_switch-Post :
      (t : Token) (name : SourceString) (n : Node)
      → node_at p.ast child ≡ some n
      → can_chain n ≡ true
      → ChainPost c p k (member_switch child t name n p)
  unfolding member_switch can_chain
  member_switch-Post t name n at ok =
      Post-if (same_node n.type n_member || same_node n.type n_symref) _ _
        (λ _. member_node-Post t name)
        λ h.
          Post-if (same_node n.type n_builtin) _ _
            (λ h'.
              let (b, is) = has_builtin-eq n.value (ground arith) in
              subst (Post _)
                (sym (
                  ap
                    (λ (x : NodeValue).
                      (elim x as (λ _. M ℕ) [
                        | NodeValue.builtin b ↦ builtin_member child t name b
                        | _ ↦ (λ _. fault)
                      ])
                        p)
                    is))
                (builtin_member-Post t name b n at (same_node-eq n.type n_builtin h')))
            (λ h'. absurd (ground arith))

-- A node from `c` on that a member can be taken of.
abbrev pub InChain : ℕ → ℕ → Parser → Type 0
InChain c id p = (c ≤ id) × (id < p.ast.node_count) × Chainable p.ast id

-- The chain goes on with a node that a member can be taken of.
module _ (c : ℕ) (pos : 0 < c) where
  InChain-ast : (id : ℕ) (p q : Parser) → q.ast ≡ p.ast → InChain c id p → InChain c id q
  InChain-ast id p q e i =
      subst (λ (a : Ast). (c ≤ id) × (id < a.node_count) × Chainable a id) (sym e) i

  goes :
      (b : Bool) (id : ℕ) (p : Parser) (k : ℕ) (q : Parser) (j : ℕ)
      → Went c p j q
      → j < k
      → InChain c id q
      → Goes c p k (InChain c) (InChain c) (if b then again id else stop id) q
  goes true id p k q j w lt i = (j, w, lt, i)
  goes false id p k q j w lt i = (j, w, omega arith, i)

  member_round-Post :
      (child : ℕ) (p : Parser) (k : ℕ)
      → IsGood p k
      → InChain c child p
      → Post (Goes c p k (InChain c) (InChain c)) (member_round child p)
  unfolding member_round same_token read_node
  member_round-Post child p k v (low, lt, chain) =
      let (n, at, ok) = chain in
      Post-bind (parser_expect-Post c p k v Token.t_dot refl) λ _ q (_, _, j, w, tree, le).
        Post-bind (parser_expect-Post c q j w.good Token.t_identifier refl)
          λ t r (typed, is, i, w₁, tree₁, le₁).
            let same = tree₁ ∙ tree in
            let at' : node_at r.ast child ≡ some n = ap (λ a. node_at a child) same ∙ at in
            let lt' : child < r.ast.node_count =
              let e = ap (λ (a : Ast). a.node_count) same in omega arith in
            let (name, named) = identifier_of-typed t r typed is in
            Post-value _ n r
              (ap (λ o. elim o as (λ _. Reply Parser Node) [ none ↦ fault | some n ↦ done n r ])
                at')
              (Post-value _ name r named (
                Post-bind (member_switch-Post c pos r i w₁.good child low lt' t name n at' ok)
                  λ id s (l, w₂, le₂, low₂, lt₂, chain).
                    Post-bind (parser_peek-Post c s l w₂.good) λ u x (_, _, m, w₃, tree₃, _, le₃).
                      let moved = Went-then (Went-then (Went-then w w₁) w₂) w₃ in
                      ends (
                        goes (same_token u.type Token.t_dot) id p k x m moved (omega arith)
                          (InChain-ast id s x tree₃ (low₂, lt₂, chain)))))

  parse_member_chain-Post :
      (child : ℕ) (p : Parser) (k : ℕ)
      → IsGood p k
      → InChain c child p
      → Post
          (λ id q. (j : ℕ) × Went c p j q × (j ≤ k) × InChain c id q)
          (parse_member_chain child p)
  unfolding parse_member_chain
  parse_member_chain-Post child p k v i =
      forever-Post c (InChain c) (InChain c) member_round member_round-Post child p k v i

  pub try_parse_member_chain-Post :
      (node : ℕ) (p : Parser) (k : ℕ)
      → IsGood p k
      → InChain c node p
      → Post
          (λ id q. (j : ℕ) × Went c p j q × (j ≤ k) × InChain c id q)
          (try_parse_member_chain node p)
  unfolding try_parse_member_chain
  try_parse_member_chain-Post node p k v i =
      Post-bind (parser_peek-Post c p k v) λ t q (_, _, j, w, tree, _, le).
        let here = InChain-ast node p q tree i in
        Post-if (same_token t.type Token.t_dot) _ _
          (λ _.
            Post-map (parse_member_chain-Post node q j w.good here)
              λ id r (l, w₁, le₁, chain). (l, Went-then w w₁, omega arith, chain))
          (λ _. ends (j, w, le, here))

-- For a parser with at most one token peeked, whose lexer is at an offset of a source as in
-- Lang.Lexer.Parse.Laws.parse_token_lem, and whose tree is sound, nulang__parse_symbol and
-- nulang__try_parse_member_chain behind it end, with an error or with a node that they have added;
-- they fault at no access to the tree and run out of no fuel, take at least one token, and leave a
-- sound tree, in which the nodes that were there have the last child that they had.
pub try_parse_member_chain-parse_symbol :
    (p : Parser) (k : ℕ)
    → IsGood p k
    → Post
        (λ id q. (j : ℕ) × Went p.ast.node_count p j q × (j < k) × InChain p.ast.node_count id q)
        (bind (parse_symbol p) try_parse_member_chain)
try_parse_member_chain-parse_symbol p k v =
    let c = p.ast.node_count in
    Post-bind (parse_symbol-Post p k v) λ node q (j, w, less, low, high, chain).
      Post-map (try_parse_member_chain-Post c v.sound.rooted node q j w.good (low, high, chain))
        λ id r (i, w', le, last). (i, Went-then w w', omega arith, last)
