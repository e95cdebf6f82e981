-- ===== src/Lang/Parser/Blocks.antt =====
-- nucleus/lang/parser.h: the statements with a body, if the parser of the statements in it ends.
use nextnucleus.Base.{ℕ, ◌≤◌, ◌<◌, refl, ap, subst, Bool, arith}
use nextnucleus.Lang.Lexer.{Lexer}
use nextnucleus.Lang.Token.{Token, TokenType, LangError}
use nextnucleus.Lang.Token
use nextnucleus.Lang.Lexer.Parse.Ready.{Follows, Follows-trans}
use nextnucleus.Lang.Action.{Reply, pure, again, stop, ◌>>◌}
use nextnucleus.Lang.Ast.{Ast}
use nextnucleus.Lang.Ast.Tables.{same_token}
use nextnucleus.Lang.Parser.{Parser, M, forever}
use nextnucleus.Lang.Parser.Stmt.{
  body_round, ends_branch, ends_block, parse_and_append_if_body, condition, elif_round, else_body,
  parse_if_stmt, parse_while_stmt,
}
use nextnucleus.Lang.Parser.Loops.{Goes}
use nextnucleus.Lang.Parser.Post.{
  IsGood, Went, Went-then, Went-below, Accepted, accept-Post, both, parser_expect-Post,
  parser_peek-Post,
}
use nextnucleus.Lang.Parser.Nodes.{fresh_node-Post, write_node-Post, adopt-Post}
use nextnucleus.Lang.Parser.Chains.{null_is_new}
use nextnucleus.Lang.Parser.Calls.{Parses, adopt-new}
use nextnucleus.Lang.Parser.Simple.{add_compound-Post}
use nextnucleus.Lang.Parser.Runs.{
  Runs, returns, Runs-bind, Runs-step, Runs-map, Runs-if, Runs-option, forever-Runs,
}

-- A function that parses a statement: it takes a token at least, answers a new node, and leaves the
-- last children of the others.
abbrev pub NodeRuns : Lexer → Parser → ℕ → Reply Parser ℕ → Type 0
NodeRuns start p k = Runs start λ id q.
    (j : ℕ) × Went p.ast.node_count p j q
    × (j < k)
    × (p.ast.node_count ≤ id)
    × (id < q.ast.node_count)

abbrev pub ParsesStmt : Lexer → ℕ → M ℕ → Type 0
ParsesStmt start limit stmt =
    (p : Parser) (k : ℕ)
    → Follows start p.lexer
    → IsGood p k
    → k < limit
    → NodeRuns start p k (stmt p)

-- A node in use, while fewer tokens are left than the limit.
abbrev pub Open : ℕ → ℕ → ℕ → Parser → Type 0
Open limit c node q = (c ≤ node) × (node < q.ast.node_count) × (m : ℕ) × IsGood q m × (m < limit)

module _ (start : Lexer) (limit : ℕ) (stmt : M ℕ) (runs : ParsesStmt start limit stmt) where
  pub body_round-Runs :
      (ends : TokenType → Bool) (c body : ℕ) (p : Parser) (k : ℕ)
      → Follows start p.lexer
      → IsGood p k
      → Open limit c body p
      → Runs start
          (Goes c p k (Open limit c) (λ (_ : Unit {0}) _. Unit {0}))
          (body_round stmt ends body p)
  unfolding body_round
  body_round-Runs ends c body p k same v (low, lt, m, good, short) =
      let (i, v', le, le') = both p v good in
      Runs-step (parser_peek-Post c p i v') λ t q (_, _, j, w, tree, _, le₁).
        let size = ap (λ (a : Ast). a.node_count) tree in
        Runs-if (ends t.type) _ _ (λ _. returns (j, w, omega arith, tt))
          λ _.
            Runs-bind (runs q j (Follows-trans same w.read) w.good (omega arith))
              λ s r (l, w₁, less, new, high).
                let grew = w₁.grown.count in
                Runs-step (adopt-new body s q r l w₁ w.good (omega arith) new high)
                  λ _ u (w₂, count). returns (
                    l,
                    Went-then w (Went-then (Went-below (omega arith) w₁) (Went-below low w₂)),
                    omega arith,
                    (low, omega arith, l, w₂.good, omega arith),
                  )

  -- The statements of a body that has just been added to a node.
  pub body-Runs :
      (ends : TokenType → Bool) (node body : ℕ) (p : Parser) (k : ℕ)
      → Follows start p.lexer
      → IsGood p k
      → k < limit
      → node < body
      → body < p.ast.node_count
      → Runs start
          (λ _ q. (j : ℕ) × Went node p j q × (j ≤ k) × (node < q.ast.node_count))
          (forever (body_round stmt ends) body p)
  body-Runs ends node body p k same v le low high =
      Runs-map
        (forever-Runs start node (Open limit node) (λ _ _. Unit {0}) (body_round stmt ends)
          (body_round-Runs ends node) body p k same v (omega arith, high, k, v, le))
        λ _ r (j, w, le₁, _). let grew = w.grown.count in (j, w, le₁, omega arith)

  if_body-Runs :
      (node : ℕ) (p : Parser) (k : ℕ)
      → Follows start p.lexer
      → IsGood p k
      → k < limit
      → node < p.ast.node_count
      → Runs start
          (λ _ q. (j : ℕ) × Went node p j q × (j ≤ k) × (node < q.ast.node_count))
          (parse_and_append_if_body stmt node p)
  unfolding parse_and_append_if_body
  if_body-Runs node p k same v le lt =
      Runs-step (add_compound-Post p k v node lt) λ body q (w, low, high).
        Runs-map
          (body-Runs ends_branch node body q k (Follows-trans same w.read) w.good le (omega arith)
            high)
          λ _ r (j, w₁, le₁, lt₁). (j, Went-then w w₁, le₁, lt₁)

  else_body-Runs :
      (node : ℕ) (p : Parser) (k : ℕ)
      → Follows start p.lexer
      → IsGood p k
      → k < limit
      → node < p.ast.node_count
      → Runs start
          (λ _ q. (j : ℕ) × Went node p j q × (j ≤ k) × (node < q.ast.node_count))
          (else_body stmt node p)
  unfolding else_body same_token
  else_body-Runs node p k same v le lt =
      Runs-step (accept-Post node p k v Token.t_else refl) λ o q a.
        Runs-option o (pure tt) (λ _. parse_and_append_if_body stmt node) q
          (λ e.
            let w = subst (λ o. Accepted node p k Token.t_else o q) e a in
            let grew = w.grown.count in returns (k, w, omega arith, omega arith))
          λ t e.
            let (j, _, _, w, less) = subst (λ o. Accepted node p k Token.t_else o q) e a in
            let grew = w.grown.count in
            Runs-map
              (if_body-Runs node q j (Follows-trans same w.read) w.good (omega arith) (omega arith))
              λ _ r (i, w₁, le₁, lt₁). (i, Went-then w w₁, omega arith, lt₁)

module _ (start : Lexer) (limit : ℕ) (expr : ℕ → M ℕ) (run : Parses limit expr) (stmt : M ℕ)
    (runs : ParsesStmt start limit stmt) where
  condition-Runs :
      (node : ℕ) (p : Parser) (k : ℕ)
      → Follows start p.lexer
      → IsGood p k
      → k < limit
      → node < p.ast.node_count
      → Runs start
          (λ _ q. (j : ℕ) × Went node p j q × (j < k) × (node < q.ast.node_count))
          (condition expr stmt node p)
  unfolding condition same_token
  condition-Runs node p k same v le lt = Runs-step (run 0 p k v le) λ e q (j, w, less, low, high).
      let grew = w.grown.count in
      Runs-step (adopt-new node e p q j w v lt low high) λ _ r (w₁, count).
        Runs-step (parser_expect-Post node r j w₁.good Token.t_then refl)
          λ _ s (_, _, i, w₂, tree, less₂).
            let size = ap (λ (a : Ast). a.node_count) tree in
            let moved = Went-then (Went-below (omega arith) w) (Went-then w₁ w₂) in
            Runs-map
              (if_body-Runs start limit stmt runs node s i (Follows-trans same moved.read) w₂.good
                (omega arith) (omega arith))
              λ _ u (l, w₃, le₃, lt₃). (l, Went-then moved w₃, omega arith, lt₃)

  elif_round-Runs :
      (c node : ℕ) (p : Parser) (k : ℕ)
      → Follows start p.lexer
      → IsGood p k
      → Open limit c node p
      → Runs start
          (Goes c p k (Open limit c) (λ (_ : Unit {0}) _. Unit {0}))
          (elif_round expr stmt node p)
  unfolding elif_round same_token
  elif_round-Runs c node p k same v (low, lt, m, good, short) =
      let (i, v', le, le') = both p v good in
      Runs-step (accept-Post c p i v' Token.t_elif refl) λ o q a.
        Runs-option o (pure (stop tt)) (λ _. condition expr stmt node >> pure (again node)) q
          (λ e. returns (i, subst (λ o. Accepted c p i Token.t_elif o q) e a, le, tt))
          λ t e.
            let (j, _, _, w, less) = subst (λ o. Accepted c p i Token.t_elif o q) e a in
            let grew = w.grown.count in
            Runs-bind
              (condition-Runs node q j (Follows-trans same w.read) w.good (omega arith)
                (omega arith))
              λ _ r (l, w₁, less₁, lt₁). returns (
                l,
                Went-then w (Went-below low w₁),
                omega arith,
                (low, lt₁, l, w₁.good, omega arith),
              )

  pub parse_if_stmt-Runs :
      (p : Parser) (k : ℕ)
      → Follows start p.lexer
      → IsGood p k
      → k ≤ limit
      → NodeRuns start p k (parse_if_stmt expr stmt p)
  unfolding parse_if_stmt same_token
  parse_if_stmt-Runs p k same v le =
      let c = p.ast.node_count in
      Runs-step (parser_expect-Post c p k v Token.t_if refl) λ t q (_, _, j, w, tree, less).
        let size = ap (λ (a : Ast). a.node_count) tree in
        Runs-step (fresh_node-Post q j w.good) λ id r (is_id, w₁, count, n, at, last).
          Runs-step (write_node-Post r j w₁.good c id _ n at (omega arith) (λ n. refl))
            λ _ s (w₂, count₂, _).
              let moved = Went-then w (Went-then (Went-below (omega arith) w₁) w₂) in
              Runs-bind
                (condition-Runs id s j (Follows-trans same moved.read) w₂.good (omega arith)
                  (omega arith))
                λ _ u (i, w₃, less₃, lt₃).
                  let moved₃ = Went-then moved (Went-below (omega arith) w₃) in
                  Runs-bind
                    (forever-Runs start c (Open limit c) (λ _ _. Unit {0}) (elif_round expr stmt)
                      (elif_round-Runs c) id u i (Follows-trans same moved₃.read) w₃.good
                      (omega arith, lt₃, i, w₃.good, omega arith))
                    λ _ x (l, w₄, le₄, _).
                      let grew₄ = w₄.grown.count in
                      let moved₄ = Went-then moved₃ w₄ in
                      Runs-bind
                        (else_body-Runs start limit stmt runs id x l
                          (Follows-trans same moved₄.read) w₄.good (omega arith) (omega arith))
                        λ _ y (m, w₅, le₅, lt₅).
                          Runs-step (parser_expect-Post c y m w₅.good Token.t_end refl)
                            λ _ z (_, _, b, w₆, tree₆, less₆).
                              let size₆ = ap (λ (a : Ast). a.node_count) tree₆ in
                              returns (
                                b,
                                Went-then moved₄ (Went-then (Went-below (omega arith) w₅) w₆),
                                omega arith,
                                omega arith,
                                omega arith,
                              )

  pub parse_while_stmt-Runs :
      (p : Parser) (k : ℕ)
      → Follows start p.lexer
      → IsGood p k
      → k ≤ limit
      → NodeRuns start p k (parse_while_stmt expr stmt p)
  unfolding parse_while_stmt same_token
  parse_while_stmt-Runs p k same v le =
      let c = p.ast.node_count in
      Runs-step (parser_expect-Post c p k v Token.t_while refl) λ t q (_, _, j, w, _, less).
        Runs-step (run 0 q j w.good (omega arith)) λ e r (i, w₁, less₁, low, high).
          let grew = w.grown.count in
          let grew₁ = w₁.grown.count in
          let pos = v.sound.rooted in
          Runs-step (fresh_node-Post r i w₁.good) λ id s (is_id, w₂, count, n, at, last).
            Runs-step (write_node-Post s i w₂.good c id _ n at (omega arith) (λ n. refl))
              λ _ u (w₃, count₃, here).
                Runs-step
                  (adopt-Post u i w₃.good id e _ (omega arith) (omega arith) (λ o. omega arith)
                    (λ o. omega arith) here (λ o. null_is_new u w₃.good e n (omega arith) last o))
                  λ _ x (w₄, count₄, _, _, _, _, _).
                    Runs-step (parser_expect-Post c x i w₄.good Token.t_do refl)
                      λ _ y (_, _, l, w₅, tree₅, less₅).
                        let size₅ = ap (λ (a : Ast). a.node_count) tree₅ in
                        let moved = Went-then w (
                          Went-then (Went-below (omega arith) w₁) (
                            Went-then (Went-below (omega arith) w₂)
                              (Went-then w₃ (Went-then (Went-below (omega arith) w₄) w₅)))) in
                        Runs-step (add_compound-Post y l w₅.good id (omega arith))
                          λ body a (w₆, low₆, high₆).
                            Runs-bind
                              (body-Runs start limit stmt runs ends_block id body a l
                                (Follows-trans (Follows-trans same moved.read) w₆.read) w₆.good
                                (omega arith) (omega arith) high₆)
                              λ _ z (m, w₇, le₇, lt₇).
                                Runs-step (parser_expect-Post c z m w₇.good Token.t_end refl)
                                  λ _ o (_, _, b, w₈, tree₈, less₈).
                                    let size₈ = ap (λ (a : Ast). a.node_count) tree₈ in
                                    returns (
                                      b,
                                      Went-then moved (
                                          Went-then (Went-below (omega arith) w₆)
                                            (Went-then (Went-below (omega arith) w₇) w₈)),
                                      omega arith,
                                      omega arith,
                                      omega arith,
                                    )
