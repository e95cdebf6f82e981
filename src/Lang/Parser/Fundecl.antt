-- ===== src/Lang/Parser/Fundecl.antt =====
-- nucleus/lang/parser.h: function declarations, if the parser of the statements in them ends.
use nextnucleus.Base.{
  ℕ, ◌≤◌, ◌<◌, ◌≡◌, refl, ap, ◌∙◌, Bool, not, Option, none, some, arith, if◌then◌else◌,
}
use nextnucleus.Lang.Lexer.{Lexer}
use nextnucleus.Lang.Token.{Token, TokenType, LangError}
use nextnucleus.Lang.Token
use nextnucleus.Lang.Lexer.Parse.Ready.{Follows, Follows-trans}
use nextnucleus.Lang.Action.{pure, Next, again, stop, ◌>>=◌, ◌>>◌}
use nextnucleus.Lang.Ast.{Ast, Node, NodeValue, Vartype}
use nextnucleus.Lang.Ast.Tables.{same_token}
use nextnucleus.Lang.Ast.Sound.{node_at-total}
use nextnucleus.Lang.Parser.{Parser, M, write_node, forever, parser_expect}
use nextnucleus.Lang.Parser.Stmt.{
  no_type, argdecl_round, parse_argdecls, parse_fundecl, add_compound, body_round, ends_block,
}
use nextnucleus.Lang.Builtin.{SourceString}
use nextnucleus.Lang.Parser.Expr.{try_parse_vartype}
use nextnucleus.Lang.Parser.Loops.{Goes, forever-Post}
use nextnucleus.Lang.Parser.Post.{
  IsGood, Went, Went-then, Went-below, Went-refl, Post, ends, Post-bind, Post-if, Accepted,
  accept-Post, parser_expect-Post, parser_peek-Post, Post-map,
}
use nextnucleus.Lang.Parser.Nodes.{fresh_node-Post, write_node-Post, identifier_of-typed}
use nextnucleus.Lang.Parser.Chains.{Post-value}
use nextnucleus.Lang.Parser.Calls.{adopt-new}
use nextnucleus.Lang.Parser.Simple.{parse_vartype-Post, try_parse_vartype-Post, add_compound-Post}
use nextnucleus.Lang.Parser.Runs.{Runs, returns, Runs-bind, Runs-step, Runs-value}
use nextnucleus.Lang.Parser.Blocks.{NodeRuns, ParsesStmt, body-Runs}

module _ (node : ℕ) where
  -- The function's node stays in use.
  abbrev Declares : Vartype → Parser → Type 0
  Declares _ q = node < q.ast.node_count

  Goes-comma :
      (p : Parser) (k : ℕ) (q r : Parser) (j : ℕ) (type : Vartype) (o : Option Token)
      → Went node p j q
      → j < k
      → node < q.ast.node_count
      → Accepted node q j Token.t_comma o r
      → Goes node p k Declares Declares
          (elim o as (λ _. Next Vartype Vartype) [ none ↦ stop type | some _ ↦ again type ])
          r
  Goes-comma p k q r j type none w less lt w₁ =
      let grew = w₁.grown.count in (j, Went-then w w₁, omega arith, omega arith)
  Goes-comma p k q r j type (some t) w less lt (i, _, _, w₁, less₁) =
      let grew = w₁.grown.count in (i, Went-then w w₁, omega arith, omega arith)

  argdecl_round-Post :
      (old : Vartype) (p : Parser) (k : ℕ)
      → IsGood p k
      → Declares old p
      → Post (Goes node p k Declares Declares) (argdecl_round node old p)
  unfolding argdecl_round same_token
  argdecl_round-Post old p k v lt =
      let c = p.ast.node_count in
      Post-bind (parser_expect-Post c p k v Token.t_identifier refl)
        λ t q (typed, is, j, w, _, less).
          Post-bind (parse_vartype-Post c q j w.good old) λ type r (i, w₁, less₁).
            Post-bind (fresh_node-Post r i w₁.good) λ id s (is_id, w₂, count, n, at, last).
              let (name, named) = identifier_of-typed t s typed is in
              let grew = w.grown.count in
              let grew₁ = w₁.grown.count in
              Post-value _ name s named (
                Post-bind (write_node-Post s i w₂.good c id _ n at (omega arith) (λ n. refl))
                  λ _ u (w₃, count₃, here).
                    let moved =
                      Went-then w (Went-then w₁ (Went-then (Went-below (omega arith) w₂) w₃)) in
                    Post-bind (adopt-new node id p u i moved v lt (omega arith) (omega arith))
                      λ _ x (w₄, count₄).
                        Post-bind (accept-Post node x i w₄.good Token.t_comma refl) λ o y a. ends (
                          Goes-comma p k x y i type o
                            (Went-then (Went-below (omega arith) moved) w₄) (omega arith)
                            (omega arith) a))

  parse_argdecls-Post :
      (p : Parser) (k : ℕ)
      → IsGood p k
      → node < p.ast.node_count
      → Post
          (λ _ q. (j : ℕ) × Went node p j q × (j ≤ k) × (node < q.ast.node_count))
          (parse_argdecls node p)
  unfolding parse_argdecls
  parse_argdecls-Post p k v lt =
      Post-bind (parser_peek-Post node p k v) λ t q (_, _, j, w, tree, _, le).
        let size = ap (λ (a : Ast). a.node_count) tree in
        Post-if (not (same_token t.type Token.t_rparen)) _ _
          (λ _.
            Post-map
              (forever-Post node Declares Declares (argdecl_round node) argdecl_round-Post no_type q
                j w.good (omega arith))
              λ _ r (i, w₁, le₁, lt₁). (i, Went-then w w₁, omega arith, lt₁))
          λ _. ends (j, w, le, omega arith)

-- The type of the result, if there is one, is written to the function's node.
write_type-Post :
    (c node : ℕ) (b : Bool) (f : Node → Node) (p : Parser) (k : ℕ)
    → IsGood p k
    → node < p.ast.node_count
    → ((n : Node) → (f n).last_child ≡ n.last_child)
    → Post
        (λ _ q. Went c p k q × (q.ast.node_count ≡ p.ast.node_count))
        ((if b then write_node node f else pure tt) p)
write_type-Post c node b f p k v lt keep =
    Post-if b _ _
      (λ _.
        let (n, at) = node_at-total p.ast v.sound node lt in
        Post-map (write_node-Post p k v c node f n at lt keep) λ _ q (w, count, _). (w, count))
      λ _. ends (Went-refl c p k v, refl)

-- Behind the arguments: the type of the result, and the body.
fundecl_body :
    (start : Lexer) (limit : ℕ) (stmt : M ℕ)
    → ParsesStmt start limit stmt
    → (c id : ℕ) (name : SourceString) (exported : Bool) (old : Vartype) (p : Parser) (k : ℕ)
      {Q : ℕ → Parser → Type 0}
    → Follows start p.lexer
    → IsGood p k
    → k < limit
    → c ≤ id
    → id < p.ast.node_count
    → ((j : ℕ) (q : Parser) → Went c p j q → j < k → id < q.ast.node_count → Q id q)
    → Runs start Q (
        (try_parse_vartype old >>= λ (type, found).
        (if found
          then write_node id (λ n. record n { value = NodeValue.fundecl name type exported })
          else pure tt)
        >> (add_compound id >>= λ body.
            forever (body_round stmt ends_block) body
            >> (parser_expect Token.t_end >>= λ _. pure id)))
          p)
unfolding same_token
fundecl_body start limit stmt runs c id name exported old p k {Q} same v le low high end =
    Runs-step (try_parse_vartype-Post c p k v old) λ (type, found) q (j, w, le₁).
      let grew = w.grown.count in
      Runs-step (write_type-Post c id found _ q j w.good (omega arith) (λ n. refl))
        λ _ r (w₁, count₁).
          Runs-step (add_compound-Post r j w₁.good id (omega arith)) λ body s (w₂, low₂, high₂).
            let moved = Went-then w (Went-then w₁ (Went-below low w₂)) in
            Runs-bind
              (body-Runs start limit stmt runs ends_block id body s j
                (Follows-trans same moved.read) w₂.good (omega arith) (omega arith) high₂)
              λ _ u (i, w₃, le₃, lt₃).
                Runs-step (parser_expect-Post c u i w₃.good Token.t_end refl)
                  λ _ x (_, _, l, w₄, tree₄, less₄).
                    let size₄ = ap (λ (a : Ast). a.node_count) tree₄ in
                    returns (
                      end l x (Went-then moved (Went-then (Went-below low w₃) w₄)) (omega arith)
                        (omega arith))

pub parse_fundecl-Runs :
    (start : Lexer) (limit : ℕ) (stmt : M ℕ)
    → ParsesStmt start limit stmt
    → (exported : Bool) (p : Parser) (k : ℕ) → Follows start p.lexer
    → IsGood p k
    → k ≤ limit
    → NodeRuns start p k (parse_fundecl stmt exported p)
unfolding parse_fundecl same_token
parse_fundecl-Runs start limit stmt runs exported p k same v le =
    let c = p.ast.node_count in
    Runs-step (parser_expect-Post c p k v Token.t_function refl) λ _ q (_, _, j, w, tree, less).
      Runs-step (parser_expect-Post c q j w.good Token.t_identifier refl)
        λ t r (typed, is, i, w₁, tree₁, less₁).
          let size = ap (λ (a : Ast). a.node_count) (tree₁ ∙ tree) in
          Runs-step (fresh_node-Post r i w₁.good) λ id s (is_id, w₂, count, n, at, last).
            let (name, named) = identifier_of-typed t s typed is in
            Runs-value _ name s named (
              Runs-step (write_node-Post s i w₂.good c id _ n at (omega arith) (λ n. refl))
                λ _ u (w₃, count₃, _).
                  Runs-step (parser_expect-Post c u i w₃.good Token.t_lparen refl)
                    λ _ x (_, _, l, w₄, tree₄, less₄).
                      let size₄ = ap (λ (a : Ast). a.node_count) tree₄ in
                      let moved = Went-then w (
                        Went-then w₁ (Went-then (Went-below (omega arith) w₂) (Went-then w₃ w₄))) in
                      Runs-step (parse_argdecls-Post id x l w₄.good (omega arith))
                        λ old y (m, w₅, le₅, lt₅).
                          Runs-step (parser_expect-Post c y m w₅.good Token.t_rparen refl)
                            λ _ z (_, _, a, w₆, tree₆, less₆).
                              let size₆ = ap (λ (a : Ast). a.node_count) tree₆ in
                              let moved₆ =
                                Went-then moved (Went-then (Went-below (omega arith) w₅) w₆) in
                              fundecl_body start limit stmt runs c id name exported old z a
                                (Follows-trans same moved₆.read) w₆.good (omega arith) (omega arith)
                                (omega arith)
                                λ b o w₇ less₇ high.
                                  (b, Went-then moved₆ w₇, omega arith, omega arith, high))
