-- ===== src/Lang/Parser/Simple.antt =====
-- nucleus/lang/parser.h: the statements without statements in them end without a fault.
use nextnucleus.Base.{ℕ, ◌≤◌, ◌<◌, refl, ap, subst, none, some, arith}
use nextnucleus.Lang.Token.{Token, TokenType, LangError}
use nextnucleus.Lang.Token
use nextnucleus.Lang.Action.{Reply, done, fault, pure, ◌>>=◌}
use nextnucleus.Vm.Types.{entity}
use nextnucleus.Lang.Ast.{Ast, Node, Vartype}
use nextnucleus.Lang.Ast.Tables.{same_token}
use nextnucleus.Lang.Ast.Sound.{node_at-total}
use nextnucleus.Lang.Parser.{
  Parser, M, raise_at, primitive_of, identifier_of, parser_accept, parser_consume,
}
use nextnucleus.Lang.Parser.Expr.{parse_vartype, try_parse_vartype, read_node}
use nextnucleus.Lang.Parser.Stmt.{
  no_type, parse_vardecl, add_compound, parse_assign_stmt, parse_return_stmt, parse_name_stmt,
}
use nextnucleus.Lang.Parser.Post.{
  IsGood, Went, Went-then, Went-below, Post, ends, stops, Post-bind, Post-map, Post-if, Post-option,
  Accepted, accept-Post, parser_expect-Post, parser_peek-Post, parser_consume-Post,
}
use nextnucleus.Lang.Parser.Nodes.{
  fresh_node-Post, write_node-Post, adopt-Post, primitive_of-typed, identifier_of-typed,
}
use nextnucleus.Lang.Parser.Chains.{
  NodePost, null_is_new, Post-value, parse_symbol-Post, try_parse_member_chain-Post,
}
use nextnucleus.Lang.Parser.Calls.{Parses, adopt-new, parse_call-Post}

module _ (n : ℕ) (p : Parser) (k : ℕ) (v : IsGood p k) where
  pub parse_vartype-Post :
      (old : Vartype) → Post (λ _ q. (j : ℕ) × Went n p j q × (j < k)) (parse_vartype old p)
  unfolding parse_vartype same_token raise_at
  parse_vartype-Post old =
      Post-bind (parser_expect-Post n p k v Token.t_colon refl) λ _ q (_, _, j, w, _, less).
        Post-bind (accept-Post n q j w.good Token.t_primitive refl) λ o r a.
          Post-option o
            (do
              found ← parser_accept Token.t_identifier
              elim found as (λ _. M Vartype) [
                | some t ↦ (do
                  name ← identifier_of t
                  pure (record {
                    primitive = entity;
                    archetype = some 0;
                    archetype_name = some name;
                  }))
                | none ↦ (do t ← parser_consume; raise_at t.span LangError.invalid_vartype)
              ])
            (λ t. do x ← primitive_of t; pure (record old { primitive = x })) r
            (λ e.
              let w₁ = subst (λ o. Accepted n q j Token.t_primitive o r) e a in
              Post-bind (accept-Post n r j w₁.good Token.t_identifier refl) λ o' s a'.
                Post-option o' (do t ← parser_consume; raise_at t.span LangError.invalid_vartype)
                  (λ t. do
                    name ← identifier_of t
                    pure (record {
                      primitive = entity;
                      archetype = some 0;
                      archetype_name = some name;
                    }))
                  s
                  (λ e'.
                    let w₂ = subst (λ o. Accepted n r j Token.t_identifier o s) e' a' in
                    Post-bind (parser_consume-Post n s j w₂.good) λ _ _ _. stops)
                  λ t e'.
                    let (i, typed, is, w₂, less₂) =
                      subst (λ o. Accepted n r j Token.t_identifier o s) e' a' in
                    let (name, named) = identifier_of-typed t s typed is in
                    Post-value _ name s named
                      (ends (i, Went-then w (Went-then w₁ w₂), omega arith)))
            λ t e.
              let (i, typed, is, w₁, less₁) =
                subst (λ o. Accepted n q j Token.t_primitive o r) e a in
              let (x, valued) = primitive_of-typed t r typed is in
              Post-value _ x r valued (ends (i, Went-then w w₁, omega arith))

module _ (n : ℕ) (p : Parser) (k : ℕ) (v : IsGood p k) where
  pub try_parse_vartype-Post :
      (old : Vartype) → Post (λ _ q. (j : ℕ) × Went n p j q × (j ≤ k)) (try_parse_vartype old p)
  unfolding try_parse_vartype
  try_parse_vartype-Post old = Post-bind (parser_peek-Post n p k v) λ t q (_, _, j, w, _, _, le).
      Post-if (same_token t.type Token.t_colon) _ _
        (λ _.
          Post-bind (parse_vartype-Post n q j w.good old)
            λ _ r (i, w₁, less). ends (i, Went-then w w₁, omega arith))
        λ _. ends (j, w, le)

module _ (p : Parser) (k : ℕ) (v : IsGood p k) where
  -- A compound becomes the last child of a node that was there.
  pub add_compound-Post :
      (parent : ℕ)
      → parent < p.ast.node_count
      → Post
          (λ id q. Went parent p k q × (p.ast.node_count ≤ id) × (id < q.ast.node_count))
          (add_compound parent p)
  unfolding add_compound read_node
  add_compound-Post parent lt =
      let c = p.ast.node_count in
      Post-bind (fresh_node-Post p k v) λ id q (e, w, count, m, at, last).
        let (x, there) = node_at-total q.ast w.good.sound parent (omega arith) in
        Post-value _ x q
          (ap (λ o. elim o as (λ _. Reply Parser Node) [ none ↦ fault | some n ↦ done n q ]) there)
          (Post-bind (write_node-Post q k w.good c id _ m at (omega arith) (λ n. refl))
            λ _ r (w₁, count₁, _).
              Post-bind
                (adopt-new parent id p r k (Went-then w w₁) v lt (omega arith) (omega arith))
                λ _ s (w₂, count₂). ends (
                  Went-then (Went-below (omega arith) w)
                      (Went-then (Went-below (omega arith) w₁) w₂),
                  omega arith,
                  omega arith,
                ))

module _ (limit : ℕ) (expr : ℕ → M ℕ) (run : Parses limit expr) (p : Parser) (k : ℕ)
    (v : IsGood p k) where
  pub parse_vardecl-Post : k ≤ limit → NodePost p k (parse_vardecl expr p)
  unfolding parse_vardecl same_token
  parse_vardecl-Post le =
      let c = p.ast.node_count in
      Post-bind (parser_expect-Post c p k v Token.t_let refl) λ _ q (_, _, j, w, _, less).
        Post-bind (parser_expect-Post c q j w.good Token.t_identifier refl)
          λ t r (typed, is, i, w₁, _, less₁).
            Post-bind (try_parse_vartype-Post c r i w₁.good no_type) λ (type, _) s (l, w₂, le₂).
              Post-bind (parser_expect-Post c s l w₂.good Token.t_assign refl)
                λ _ u (_, _, m, w₃, _, less₃).
                  let moved = Went-then w (Went-then w₁ (Went-then w₂ w₃)) in
                  Post-bind (run 0 u m w₃.good (omega arith)) λ e x (a, w₄, less₄, low, high).
                    Post-bind (fresh_node-Post x a w₄.good) λ id y (is_id, w₅, count, n, at, last).
                      let (name, named) = identifier_of-typed t y typed is in
                      let grew = moved.grown.count in
                      let grew₄ = w₄.grown.count in
                      let pos = v.sound.rooted in
                      Post-value _ name y named (
                        Post-bind
                          (write_node-Post y a w₅.good c id _ n at (omega arith) (λ n. refl))
                          λ _ z (w₆, count₆, here).
                            Post-bind
                              (adopt-Post z a w₆.good id e _ (omega arith) (omega arith)
                                (λ o. omega arith) (λ o. omega arith) here
                                (λ o. null_is_new z w₆.good e n (omega arith) last o))
                              λ _ b (w₇, count₇, _, _, _, _, _). ends (
                                a,
                                Went-then moved (
                                    Went-then (Went-below (omega arith) w₄) (
                                      Went-then (Went-below (omega arith) w₅)
                                        (Went-then w₆ (Went-below (omega arith) w₇)))),
                                omega arith,
                                omega arith,
                                omega arith,
                              ))

  pub parse_return_stmt-Post : k ≤ limit → NodePost p k (parse_return_stmt expr p)
  unfolding parse_return_stmt same_token
  parse_return_stmt-Post le =
      let c = p.ast.node_count in
      Post-bind (parser_expect-Post c p k v Token.t_return refl) λ t q (_, _, j, w, _, less).
        Post-bind (run 0 q j w.good (omega arith)) λ e r (i, w₁, less₁, low, high).
          Post-bind (fresh_node-Post r i w₁.good) λ id s (is_id, w₂, count, n, at, last).
            let grew = w.grown.count in
            let grew₁ = w₁.grown.count in
            let pos = v.sound.rooted in
            Post-bind (write_node-Post s i w₂.good c id _ n at (omega arith) (λ n. refl))
              λ _ u (w₃, count₃, here).
                Post-bind
                  (adopt-Post u i w₃.good id e _ (omega arith) (omega arith) (λ o. omega arith)
                    (λ o. omega arith) here (λ o. null_is_new u w₃.good e n (omega arith) last o))
                  λ _ x (w₄, count₄, _, _, _, _, _). ends (
                    i,
                    Went-then w (
                        Went-then (Went-below (omega arith) w₁) (
                          Went-then (Went-below (omega arith) w₂)
                            (Went-then w₃ (Went-below (omega arith) w₄)))),
                    omega arith,
                    omega arith,
                    omega arith,
                  )

  -- An assignment to a node that was there.
  parse_assign_stmt-Post :
      (ident : ℕ)
      → k ≤ limit
      → 0 < ident
      → ident < p.ast.node_count
      → NodePost p k (parse_assign_stmt expr ident p)
  unfolding parse_assign_stmt same_token
  parse_assign_stmt-Post ident le pos lt =
      let c = p.ast.node_count in
      Post-bind (parser_expect-Post c p k v Token.t_assign refl) λ t q (_, _, j, w, _, less).
        Post-bind (run 0 q j w.good (omega arith)) λ e r (i, w₁, less₁, low, high).
          Post-bind (fresh_node-Post r i w₁.good) λ id s (is_id, w₂, count, n, at, last).
            let grew = w.grown.count in
            let grew₁ = w₁.grown.count in
            Post-bind (write_node-Post s i w₂.good c id _ n at (omega arith) (λ n. refl))
              λ _ u (w₃, count₃, here).
                Post-bind
                  (adopt-Post u i w₃.good id ident _ (omega arith) (omega arith) (λ o. omega arith)
                    (λ o. omega arith) here
                    (λ o. null_is_new u w₃.good ident n (omega arith) last o))
                  λ _ x (w₄, count₄, n', at', last', _, _).
                    Post-bind
                      (adopt-Post x i w₄.good id e n' (omega arith) (omega arith) (λ o. omega arith)
                        (λ o. omega arith) at' (λ o. omega (arith, last', o)))
                      λ _ y (w₅, count₅, _, _, _, _, _). ends (
                        i,
                        Went-then w (
                            Went-then (Went-below (omega arith) w₁) (
                              Went-then (Went-below (omega arith) w₂) (
                                Went-then w₃ (
                                  Went-then (Went-below (omega arith) w₄)
                                    (Went-below (omega arith) w₅))))),
                        omega arith,
                        omega arith,
                        omega arith,
                      )

module _ (limit : ℕ) (expr : ℕ → M ℕ) (run : Parses limit expr) (p : Parser) (k : ℕ)
    (v : IsGood p k) where
  -- An assignment or a call, behind a name with its members.
  pub parse_name_stmt-Post : k ≤ limit → NodePost p k (parse_name_stmt expr p)
  unfolding parse_name_stmt raise_at
  parse_name_stmt-Post le =
      let c = p.ast.node_count in
      let pos = v.sound.rooted in
      Post-bind (parse_symbol-Post p k v) λ ident q (j, w, less, low, high, chain).
        Post-bind (try_parse_member_chain-Post c pos ident q j w.good (low, high, chain))
          λ id r (i, w₁, le₁, (low₁, high₁, _)).
            Post-bind (parser_peek-Post c r i w₁.good) λ t s (_, _, l, w₂, tree, _, le₂).
              let size = ap (λ (a : Ast). a.node_count) tree in
              let moved = Went-then w (Went-then w₁ w₂) in
              let grew = moved.grown.count in
              Post-if (same_token t.type Token.t_assign) _ _
                (λ _.
                  Post-map
                    (parse_assign_stmt-Post limit expr run s l w₂.good id (omega arith)
                      (omega arith) (omega arith))
                    λ e u (m, w₃, less₃, low₃, high₃). (
                      m,
                      Went-then moved (Went-below (omega arith) w₃),
                      omega arith,
                      omega arith,
                      high₃,
                    ))
                λ _.
                  Post-if (same_token t.type Token.t_lparen) _ _
                    (λ _.
                      Post-map
                        (parse_call-Post limit expr run id s l w₂.good (omega arith) (omega arith)
                          (omega arith))
                        λ e u (m, w₃, less₃, low₃, high₃). (
                          m,
                          Went-then moved (Went-below (omega arith) w₃),
                          omega arith,
                          omega arith,
                          high₃,
                        ))
                    λ _. stops
