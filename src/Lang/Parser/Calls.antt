-- ===== src/Lang/Parser/Calls.antt =====
-- nucleus/lang/parser.h: calls end without a fault, if the parser of the arguments does.
use nextnucleus.Base.{
  ℕ, ◌≤◌, ◌<◌, ◌≡◌, refl, ap, subst, ◌∙◌, ◌≢◌, inl, inr, not, arith, if◌then◌else◌,
}
use nextnucleus.Lang.Token.{Token, TokenType, LangError}
use nextnucleus.Lang.Token
use nextnucleus.Lang.Action.{pure, again, stop, ◌>>◌}
use nextnucleus.Lang.Ast.{Ast}
use nextnucleus.Lang.Ast.Tables.{same_token}
use nextnucleus.Lang.Ast.Sound.{node_at-total}
use nextnucleus.Lang.Parser.{Parser, M, adopt}
use nextnucleus.Lang.Parser.Expr.{argument, argument_round, parse_call, try_parse_call}
use nextnucleus.Lang.Parser.Loops.{Goes, forever-Post}
use nextnucleus.Lang.Parser.Post.{
  IsGood, Went, Went-trans, Went-then, Went-below, Went-refl, Post, ends, Post-bind, Post-map,
  Post-if, both, parser_expect-Post, parser_peek-Post, Accepted, accept-Post, Post-option,
}
use nextnucleus.Lang.Parser.Nodes.{fresh_node-Post, write_node-Post, adopt-Post}
use nextnucleus.Lang.Parser.Chains.{NodePost, null_is_new}

-- A new node goes behind the children of a node that was there before.
pub adopt-new :
    {k : ℕ} (parent child : ℕ) (p q : Parser) (j : ℕ)
    → Went p.ast.node_count p j q
    → IsGood p k
    → parent < p.ast.node_count
    → p.ast.node_count ≤ child
    → child < q.ast.node_count
    → Post (λ _ r. Went parent q j r × (r.ast.node_count ≡ q.ast.node_count)) (adopt parent child q)
adopt-new parent child p q j w v lt low lt' =
    let (n, at) = node_at-total p.ast v.sound parent lt in
    let (m, at', e) = w.grown.same parent n lt at in
    let fits = w.good.sound.fits in
    let bound = w.good.sound.bound in
    let ne : m.last_child ≢ child = λ x. elim (v.sound.last parent n lt at) [
      | inl z ↦ omega (arith, e, z, x)
      | inr (below, _) ↦ omega (arith, e, below, x)
    ] in
    Post-map
      (adopt-Post q j w.good parent child m (omega arith) lt' (λ z. omega arith) (λ z. omega arith)
        at' ne)
      λ _ r (w', count, _, _, _, _, _). (w', count)

-- A parser of expressions that ends without a fault while fewer tokens are left than the limit.
abbrev pub Parses : ℕ → (ℕ → M ℕ) → Type 0
Parses limit expr =
    (min : ℕ) (p : Parser) (k : ℕ) → IsGood p k → k < limit → NodePost p k (expr min p)

module _ (limit : ℕ) (expr : ℕ → M ℕ) (run : Parses limit expr) where
  argument-Post :
      (node : ℕ) (p : Parser) (k : ℕ)
      → IsGood p k
      → k < limit
      → node < p.ast.node_count
      → Post
          (λ _ q. (j : ℕ) × Went node p j q × (j < k) × (node < q.ast.node_count))
          (argument expr node p)
  unfolding argument
  argument-Post node p k v le lt = Post-bind (run 0 p k v le) λ e q (j, w, less, low, high).
      let grew = w.grown.count in
      Post-map (adopt-new node e p q j w v lt low high)
        λ _ r (w', count). (j, Went-trans (omega arith) (omega arith) w w', less, omega arith)

  -- A node in use, while fewer tokens are left than the limit.
  abbrev Open : ℕ → ℕ → Parser → Type 0
  Open c node q = (c ≤ node) × (node < q.ast.node_count) × (m : ℕ) × IsGood q m × (m < limit)

  argument_round-Post :
      (c node : ℕ) (p : Parser) (k : ℕ)
      → IsGood p k
      → Open c node p
      → Post (Goes c p k (Open c) (λ (_ : Unit {0}) _. Unit {0})) (argument_round expr node p)
  unfolding argument_round same_token
  argument_round-Post c node p k v (low, lt, m, good, short) =
      let (i, v', le, le') = both p v good in
      Post-bind (accept-Post c p i v' Token.t_comma refl) λ o q a.
        Post-option o (pure (stop tt)) (λ _. argument expr node >> pure (again node)) q
          (λ e. ends (i, subst (λ o. Accepted c p i Token.t_comma o q) e a, le, tt))
          λ t e.
            let (j, _, _, w, less) = subst (λ o. Accepted c p i Token.t_comma o q) e a in
            let grew = w.grown.count in
            Post-bind (argument-Post node q j w.good (omega arith) (omega arith))
              λ _ r (l, w₁, less₁, lt₁). ends (
                l,
                Went-trans (omega arith) low w w₁,
                omega arith,
                (low, lt₁, l, w₁.good, omega arith),
              )

  first_argument-Post :
      (c node : ℕ) (u : Token) (p : Parser) (k : ℕ)
      → IsGood p k
      → k < limit
      → c ≤ node
      → node < p.ast.node_count
      → Post
          (λ _ q. (j : ℕ) × Went c p j q × (j ≤ k))
          ((if not (same_token u.type Token.t_rparen) then argument expr node else pure tt) p)
  first_argument-Post c node u p k v le low lt =
      Post-if (not (same_token u.type Token.t_rparen)) _ _
        (λ _.
          Post-map (argument-Post node p k v le lt)
            λ _ q (j, w, less, _). (j, Went-below low w, omega arith))
        λ _. ends (k, Went-refl c p k v, omega arith)

  pub parse_call-Post :
      (ident : ℕ) (p : Parser) (k : ℕ)
      → IsGood p k
      → k < limit
      → 0 < ident
      → ident < p.ast.node_count
      → NodePost p k (parse_call expr ident p)
  unfolding parse_call same_token
  parse_call-Post ident p k v le pos lt =
      let c = p.ast.node_count in
      Post-bind (fresh_node-Post p k v) λ id q (e, w, count, n, at, last).
        Post-bind (write_node-Post q k w.good c id _ n at (omega arith) (λ n. refl))
          λ _ r (w₁, count₁, here).
            Post-bind
              (adopt-Post r k w₁.good id ident _ (omega arith) (omega arith) (λ z. omega arith)
                (λ z. omega arith) here (λ z. null_is_new r w₁.good ident n (omega arith) last z))
              λ _ s (w₂, count₂, _, _, _, _, _).
                Post-bind (parser_expect-Post c s k w₂.good Token.t_lparen refl)
                  λ _ t (_, _, j, w₃, tree, less).
                    Post-bind (parser_peek-Post c t j w₃.good) λ u x (_, _, i, w₄, tree₁, _, le₁).
                      let size = ap (λ (a : Ast). a.node_count) (tree₁ ∙ tree) in
                      Post-bind
                        (first_argument-Post c id u x i w₄.good (omega arith) (omega arith)
                          (omega arith))
                        λ _ y (l, w₅, le₅).
                          let grew = w₅.grown.count in
                          Post-bind
                            (forever-Post c (Open c) (λ _ _. Unit {0}) (argument_round expr)
                              (argument_round-Post c) id y l w₅.good
                              (omega arith, omega arith, l, w₅.good, omega arith))
                            λ _ z (a, w₆, le₆, _).
                              let grew' = w₆.grown.count in
                              Post-bind (parser_expect-Post c z a w₆.good Token.t_rparen refl)
                                λ _ o (_, _, b, w₇, tree₇, less₇).
                                  let grew₇ = w₇.grown.count in
                                  ends (
                                    b,
                                    Went-then w (
                                        Went-then w₁ (
                                          Went-then (Went-below (omega arith) w₂) (
                                            Went-then w₃
                                              (Went-then w₄ (Went-then w₅ (Went-then w₆ w₇)))))),
                                    omega arith,
                                    omega arith,
                                    omega arith,
                                  )

  pub try_parse_call-Post :
      (c node : ℕ) (p : Parser) (k : ℕ)
      → IsGood p k
      → k < limit
      → 0 < c
      → c ≤ node
      → node < p.ast.node_count
      → Post
          (λ id q. (j : ℕ) × Went c p j q × (j ≤ k) × (c ≤ id) × (id < q.ast.node_count))
          (try_parse_call expr node p)
  unfolding try_parse_call
  try_parse_call-Post c node p k v le pos low lt =
      Post-bind (parser_peek-Post c p k v) λ t q (_, _, j, w, tree, _, le₁).
        let size = ap (λ (a : Ast). a.node_count) tree in
        Post-if (same_token t.type Token.t_lparen) _ _
          (λ _.
            Post-map (parse_call-Post node q j w.good (omega arith) (omega arith) (omega arith))
              λ id r (i, w₁, less, new, high).
                (i, Went-then w (Went-below (omega arith) w₁), omega arith, omega arith, high))
          λ _. ends (j, w, le₁, low, omega arith)
