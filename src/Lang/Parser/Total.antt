-- ===== src/Lang/Parser/Total.antt =====
-- nucleus/lang/parser.h: expressions end without a fault, with more fuel than tokens.
use nextnucleus.Base.{
  ℕ, zero, suc, ◌+◌, ◌≤◌, ◌<◌, ◌≡◌, refl, sym, ap, ◌∙◌, ◌≢◌, true, false, none, some, [], ◌∷◌,
  arith, ltb, ◌==◌, if◌then◌else◌,
}
use nextnucleus.Lang.Token.{Token, TokenType, LangError, t_eof}
use nextnucleus.Lang.Token
use nextnucleus.Lang.Action.{Reply, give_up, Next, again, stop}
use nextnucleus.Lang.Ast.{Ast}
use nextnucleus.Lang.Ast.Tables.{
  same_token, is_unop, is_binop, binop_precedence, binop_is_left_associative,
}
use nextnucleus.Lang.Parser.{Parser, M, raise_at}
use nextnucleus.Lang.Parser.Expr.{
  parse_parens, unop_node, parse_primary, binop_node, operator_round, expr_round, parse_expr,
}
use nextnucleus.Lang.Parser.Loops.{Goes, forever-Post}
use nextnucleus.Lang.Parser.Post.{
  IsGood, Went, Went-then, Went-below, Went-refl, Post, ends, stops, Post-bind, Post-map, Post-if,
  Post-option, weight-type, consume-peeked, parser_expect-Post, parser_peek-Post, both,
  same_token-eq,
}
use nextnucleus.Lang.Parser.Nodes.{fresh_node-Post, write_node-Post, adopt-Post}
use nextnucleus.Lang.Parser.Chains.{NodePost, null_is_new}
use nextnucleus.Lang.Parser.Calls.{Parses}
use nextnucleus.Lang.Parser.Atoms.{parse_atom-Post, NodePost-peeked}

is_unop-real : (type : TokenType) → is_unop type ≡ true → same_token type t_eof ≡ false
unfolding is_unop same_token
is_unop-real Token.t_eof h = cc
is_unop-real _ h = refl

is_binop-real : (type : TokenType) → is_binop type ≡ true → same_token type t_eof ≡ false
unfolding is_binop same_token
is_binop-real Token.t_eof h = cc
is_binop-real _ h = refl

-- Every operator that nulang__is_binop has is one for nulang__binop_precedence.
binop_precedence-is_binop :
    (type : TokenType)
    → is_binop type ≡ true
    → (prec : ℕ) × (binop_precedence type ≡ some prec) × ((prec == 0) ≡ false)
unfolding is_binop same_token binop_precedence
binop_precedence-is_binop Token.t_add h = (1, refl, refl)
binop_precedence-is_binop Token.t_mul h = (2, refl, refl)
binop_precedence-is_binop Token.t_div h = (2, refl, refl)
binop_precedence-is_binop Token.t_equal h = (3, refl, refl)
binop_precedence-is_binop Token.t_nequal h = (3, refl, refl)
binop_precedence-is_binop Token.t_lequal h = (3, refl, refl)
binop_precedence-is_binop Token.t_gequal h = (3, refl, refl)
binop_precedence-is_binop Token.t_less h = (3, refl, refl)
binop_precedence-is_binop Token.t_greater h = (3, refl, refl)
binop_precedence-is_binop Token.t_and h = (3, refl, refl)
binop_precedence-is_binop Token.t_or h = (3, refl, refl)
binop_precedence-is_binop _ h = cc

-- A function that makes a node of old ones: it takes no token.
abbrev MakesPost : Parser → ℕ → Reply Parser ℕ → Type 0
MakesPost p k =
    Post λ id q. Went p.ast.node_count p k q × (p.ast.node_count ≤ id) × (id < q.ast.node_count)

module _ (p : Parser) (k : ℕ) (v : IsGood p k) where
  unop_node-Post :
      (t : Token) (e : ℕ) → 0 < e → e < p.ast.node_count → MakesPost p k (unop_node t e p)
  unfolding unop_node
  unop_node-Post t e pos lt =
      let c = p.ast.node_count in
      Post-bind (fresh_node-Post p k v) λ id q (is, w, count, n, at, last).
        Post-bind (write_node-Post q k w.good c id _ n at (omega arith) (λ n. refl))
          λ _ r (w₁, count₁, here).
            Post-bind
              (adopt-Post r k w₁.good id e _ (omega arith) (omega arith) (λ z. omega arith)
                (λ z. omega arith) here (λ z. null_is_new r w₁.good e n (omega arith) last z))
              λ _ s (w₂, count₂, _, _, _, _, _).
                ends (
                  Went-then w (Went-then w₁ (Went-below (omega arith) w₂)),
                  omega arith,
                  omega arith,
                )

  -- The right operand is newer than the left one.
  binop_node-Post :
      (t : Token) (lhs rhs : ℕ)
      → 0 < lhs
      → lhs < rhs
      → rhs < p.ast.node_count
      → MakesPost p k (binop_node t lhs rhs p)
  unfolding binop_node
  binop_node-Post t lhs rhs pos newer lt =
      let c = p.ast.node_count in
      Post-bind (fresh_node-Post p k v) λ id q (is, w, count, n, at, last).
        Post-bind (write_node-Post q k w.good c id _ n at (omega arith) (λ n. refl))
          λ _ r (w₁, count₁, here).
            Post-bind
              (adopt-Post r k w₁.good id lhs _ (omega arith) (omega arith) (λ z. omega arith)
                (λ z. omega arith) here (λ z. null_is_new r w₁.good lhs n (omega arith) last z))
              λ _ s (w₂, count₂, n', at', last', _, _).
                Post-bind
                  (adopt-Post s k w₂.good id rhs n' (omega arith) (omega arith) (λ z. omega arith)
                    (λ z. omega arith) at' (λ z. omega (arith, last', z)))
                  λ _ u (w₃, count₃, _, _, _, _, _). ends (
                    Went-then w (
                        Went-then w₁
                          (Went-then (Went-below (omega arith) w₂) (Went-below (omega arith) w₃))),
                    omega arith,
                    omega arith,
                  )

  -- In parentheses, behind a peek of the first one.
  parse_parens-Post :
      (limit : ℕ) (expr : ℕ → M ℕ)
      → Parses limit expr
      → k ≤ limit
      → (t : Token) → p.lexer.peeks ≡ t ∷ []
      → same_token t.type Token.t_lparen ≡ true
      → NodePost p k (parse_parens expr p)
  unfolding parse_parens same_token
  parse_parens-Post limit expr run le t peeks h =
      let c = p.ast.node_count in
      let one_less = weight-type t Token.t_lparen (same_token-eq t.type Token.t_lparen h) refl in
      Post-bind (consume-peeked c p k t v peeks) λ _ q (_, j, w, tree, le₁).
        let size = ap (λ (a : Ast). a.node_count) tree in
        Post-bind (run 1 q j w.good (omega arith)) λ id r (i, w₁, less, low, high).
          Post-bind (parser_expect-Post c r i w₁.good Token.t_rparen refl)
            λ _ s (_, _, l, w₂, tree₂, less₂).
              let size₂ = ap (λ (a : Ast). a.node_count) tree₂ in
              ends (
                l,
                Went-then w (Went-then (Went-below (omega arith) w₁) w₂),
                omega arith,
                omega arith,
                omega arith,
              )

none-some {ℓ} : {A : Type ℓ} {a : A} → none ≢ some a
none-some h = cc

some-eq {ℓ} : {A : Type ℓ} {a b : A} → some a ≡ some b → a ≡ b
some-eq h = cc

r_pos : (p : Parser) (k : ℕ) → IsGood p k → 0 < p.ast.node_count
r_pos p k v = v.sound.rooted

-- A left operand in use, while no more tokens are left than the limit.
abbrev Operand : ℕ → ℕ → ℕ → Parser → Type 0
Operand limit c lhs q = (c ≤ lhs) × (lhs < q.ast.node_count) × (m : ℕ) × IsGood q m × (m ≤ limit)

abbrev Result : ℕ → ℕ → Parser → Type 0
Result c id q = (c ≤ id) × (id < q.ast.node_count)

Goes-then :
    {R T : Type 0} (I : R → Parser → Type 0) (Q : T → Parser → Type 0) (c : ℕ) (p q : Parser)
    (j k : ℕ) (a : Next R T) (r : Parser)
    → Went c p j q
    → j ≤ k
    → Goes c q j I Q a r
    → Goes c p k I Q a r
Goes-then I Q c p q j k (again x) r w le (l, w₁, less, h) = (l, Went-then w w₁, omega arith, h)
Goes-then I Q c p q j k (stop x) r w le (l, w₁, less, h) = (l, Went-then w w₁, omega arith, h)

module _ (limit : ℕ) (expr : ℕ → M ℕ) (run : Parses limit expr) where
  parse_primary-Post :
      (fuel : ℕ) (p : Parser) (k : ℕ)
      → IsGood p k
      → k < fuel
      → k ≤ limit
      → NodePost p k (parse_primary fuel expr p)
  unfolding parse_primary raise_at
  parse_primary-Post zero p k v lt le = absurd (omega arith)
  parse_primary-Post (suc fuel) p k v lt le =
      Post-bind (parser_peek-Post p.ast.node_count p k v) λ t q (typed, peeks, j, w, tree, _, le₁).
        NodePost-peeked p q j k _ w tree le₁ (
          Post-if (same_token t.type Token.t_lparen) _ _
            (λ h. parse_parens-Post q j w.good limit expr run (omega arith) t peeks h)
            λ _.
              Post-if (is_unop t.type) _ _
                (λ h.
                  let c = q.ast.node_count in
                  let one_less = weight-type t t.type refl (is_unop-real t.type h) in
                  Post-bind (consume-peeked c q j t w.good peeks) λ u r (_, i, w₁, tree₁, le₂).
                    let size = ap (λ (a : Ast). a.node_count) tree₁ in
                    Post-bind (parse_primary-Post fuel r i w₁.good (omega arith) (omega arith))
                      λ e s (l, w₂, less, low, high).
                        let grew = w₂.grown.count in
                        let pos = r_pos r i w₁.good in
                        Post-map (unop_node-Post s l w₂.good u e (omega arith) high)
                          λ id x (w₃, low₃, high₃). (
                            l,
                            Went-then w₁ (
                                Went-then (Went-below (omega arith) w₂)
                                  (Went-below (omega arith) w₃)),
                            omega arith,
                            omega arith,
                            high₃,
                          ))
                λ _.
                  Post-if (is_binop t.type) _ _ (λ _. stops)
                    λ _. parse_atom-Post limit expr run q j w.good (omega arith))

  operator_round-Post :
      (c min : ℕ) (t : Token) (prec lhs : ℕ) (p : Parser) (k : ℕ)
      → 0 < c
      → IsGood p k
      → k ≤ limit
      → c ≤ lhs
      → lhs < p.ast.node_count
      → p.lexer.peeks ≡ t ∷ []
      → is_binop t.type ≡ true
      → Post (Goes c p k (Operand limit c) (Result c)) (operator_round expr min t.type prec lhs p)
  unfolding operator_round
  operator_round-Post c min t prec lhs p k pos v le low lt peeks is =
      Post-if (ltb prec min) _ _ (λ _. ends (k, Went-refl c p k v, omega arith, (low, lt)))
        λ _.
          let one_less = weight-type t t.type refl (is_binop-real t.type is) in
          Post-bind (consume-peeked c p k t v peeks) λ u q (_, j, w, tree, le₁).
            let size = ap (λ (a : Ast). a.node_count) tree in
            Post-bind
              (run (if binop_is_left_associative t.type then prec + 1 else prec) q j w.good
                (omega arith))
              λ rhs r (i, w₁, less, newer, high).
                Post-bind (binop_node-Post r i w₁.good u lhs rhs (omega arith) (omega arith) high)
                  λ id s (w₂, low₂, high₂).
                    let grew = w₁.grown.count in
                    ends (
                      i,
                      Went-then w
                          (Went-then (Went-below (omega arith) w₁) (Went-below (omega arith) w₂)),
                      omega arith,
                      (omega arith, high₂, i, w₂.good, omega arith),
                    )

  expr_round-Post :
      (c min : ℕ)
      → 0 < c
      → (lhs : ℕ) (p : Parser) (k : ℕ) → IsGood p k
      → Operand limit c lhs p
      → Post (Goes c p k (Operand limit c) (Result c)) (expr_round expr min lhs p)
  unfolding expr_round
  expr_round-Post c min pos lhs p k v (low, lt, m, good, short) =
      let (i, v', le, le') = both p v good in
      Post-bind (parser_peek-Post c p i v') λ t q (typed, peeks, j, w, tree, _, le₁).
        let size = ap (λ (a : Ast). a.node_count) tree in
        Post-if (is_binop t.type) _ _
          (λ h.
            let (prec, is, positive) = binop_precedence-is_binop t.type h in
            Post-option (binop_precedence t.type) give_up
              (λ prec. if prec == 0 then give_up else operator_round expr min t.type prec lhs) q
              (λ e. absurd (none-some (sym e ∙ is)))
              λ prec' e.
                let same : prec ≡ prec' = some-eq (sym is ∙ e) in
                Post-if (prec' == 0) _ _ (λ z. absurd (ground arith))
                  λ _.
                    Post-map
                      (operator_round-Post c min t prec' lhs q j pos w.good (omega arith) low
                        (omega arith) peeks h)
                      λ a r g.
                        Goes-then (Operand limit c) (Result c) c p q j k a r w (omega arith) g)
          λ _. ends (j, w, omega arith, (low, omega arith))

-- For a parser with at most one token peeked, whose lexer is at an offset of a source as in
-- Lang.Lexer.Parse.Laws.parse_token_lem, and whose tree is sound, nulang__parse_expr with more fuel
-- than tokens are left ends, with an error or with a node that it has added; it faults at no access
-- to the tree and in no assertion, takes at least one token, and leaves a sound tree, in which the
-- nodes that were there have the last child that they had.
pub parse_expr-Post :
    (fuel min : ℕ) (p : Parser) (k : ℕ)
    → IsGood p k
    → k < fuel
    → NodePost p k (parse_expr fuel min p)
unfolding parse_expr
parse_expr-Post zero min p k v lt = absurd (omega arith)
parse_expr-Post (suc fuel) min p k v lt =
    let c = p.ast.node_count in
    let run = parse_expr-Post fuel in
    let pos = v.sound.rooted in
    Post-bind (parse_primary-Post fuel (parse_expr fuel) run (suc fuel) p k v lt (omega arith))
      λ lhs q (j, w, less, low, high).
        Post-map
          (forever-Post c (Operand fuel c) (Result c) (expr_round (parse_expr fuel) min)
            (expr_round-Post fuel (parse_expr fuel) run c min pos) lhs q j w.good
            (low, high, j, w.good, omega arith))
          λ id r (i, w₁, le, (low₁, high₁)). (i, Went-then w w₁, omega arith, low₁, high₁)
