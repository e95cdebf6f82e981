-- ===== src/Lang/Parser/Atoms.antt =====
-- nucleus/lang/parser.h: the atoms of expressions end without a fault, if the parser of the
-- arguments of calls does.
use nextnucleus.Base.{ℕ, ◌≤◌, ◌<◌, ◌≡◌, refl, sym, ap, subst, ◌∙◌, [], ◌∷◌, arith}
use nextnucleus.Lang.Token.{Token, TokenType, LangError}
use nextnucleus.Lang.Token
use nextnucleus.Lang.Builtin.{SourceString}
use nextnucleus.Lang.Action.{Reply, done, raised, fault, exhausted, bind}
use nextnucleus.Lang.Ast.{Ast, NodeType, NodeValue, n_insert, n_singleton}
use nextnucleus.Lang.Ast.Tables.{same_token, same_node}
use nextnucleus.Lang.Lexer.Parse.Typed.{IsTyped}
use nextnucleus.Lang.Parser.{Parser, M, parser_expect, raise_at}
use nextnucleus.Lang.Parser.Expr.{
  try_parse_member_chain, try_parse_call, ignore, parse_insert_or_singleton, parse_name,
  parse_constructor, parse_literal, no_atom, parse_atom,
}
use nextnucleus.Lang.Parser.Post.{
  IsGood, Went, Went-then, Went-below, Post, ends, stops, Post-bind, Post-map, weight-type,
  consume-peeked, parser_expect-Post, parser_peek-Post, parser_consume-Post,
}
use nextnucleus.Lang.Parser.Stays.{Moved, Stays, expect-Stays}
use nextnucleus.Lang.Parser.Nodes.{
  fresh_node-Post, write_node-Post, literal_of-typed, primitive_of-typed, identifier_of-typed,
}
use nextnucleus.Lang.Parser.Chains.{
  NodePost, Post-value, can_chain, InChain, parse_symbol-Post, try_parse_member_chain-Post,
}
use nextnucleus.Lang.Parser.Calls.{Parses, try_parse_call-Post}

ignored :
    {A : Type 0} (n : ℕ) (p : Parser) (k : ℕ) (r : Reply Parser A)
    → Stays n p k r
    → Post
        (λ _ q. Moved n p k q)
        (elim r as (λ _. Reply Parser (Unit {0})) [
          | done a q ↦ done tt q
          | raised e q ↦ done tt q
          | fault ↦ fault
          | exhausted ↦ exhausted
        ])
ignored n p k (done a q) h = ends h
ignored n p k (raised e q) h = ends h
ignored n p k fault h = absurd h
ignored n p k exhausted h = absurd h

ignore-Post :
    (n : ℕ) (p : Parser) (k : ℕ)
    → IsGood p k
    → (type : TokenType) → Post (λ _ q. Moved n p k q) (ignore (parser_expect type) p)
unfolding ignore
ignore-Post n p k v type = ignored n p k (parser_expect type p) (expect-Stays n p k v type)

module _ (p : Parser) (k : ℕ) (v : IsGood p k) where
  parse_insert_or_singleton-Post :
      (type : NodeType) (value : SourceString → NodeValue)
      → NodePost p k (parse_insert_or_singleton type value p)
  unfolding parse_insert_or_singleton same_token
  parse_insert_or_singleton-Post type value =
      let c = p.ast.node_count in
      Post-bind (parser_consume-Post c p k v) λ _ q (_, j, w, tree, le).
        Post-bind (parser_expect-Post c q j w.good Token.t_lparen refl)
          λ _ r (_, _, i, w₁, tree₁, less).
            Post-bind (parser_expect-Post c r i w₁.good Token.t_identifier refl)
              λ t s (typed, is, l, w₂, tree₂, less₂).
                let size = ap (λ (a : Ast). a.node_count) (tree₂ ∙ (tree₁ ∙ tree)) in
                Post-bind (fresh_node-Post s l w₂.good) λ id u (e, w₃, count, n, at, last).
                  let (name, named) = identifier_of-typed t u typed is in
                  Post-value _ name u named (
                    Post-bind (write_node-Post u l w₃.good c id _ n at (omega arith) (λ n. refl))
                      λ _ x (w₄, count₄, _).
                        Post-bind (ignore-Post c x l w₄.good Token.t_rparen)
                          λ _ y (m, w₅, le₅, tree₅).
                            let size₅ = ap (λ (a : Ast). a.node_count) tree₅ in
                            ends (
                              m,
                              Went-then w (
                                  Went-then w₁ (
                                    Went-then w₂
                                      (Went-then (Went-below (omega arith) w₃) (Went-then w₄ w₅)))),
                              omega arith,
                              omega arith,
                              omega arith,
                            ))

  parse_literal-Post :
      (t : Token)
      → IsTyped t
      → t.type ≡ Token.t_literal
      → p.lexer.peeks ≡ t ∷ []
      → NodePost p k (parse_literal p)
  unfolding parse_literal same_token
  parse_literal-Post t typed is peeks =
      let c = p.ast.node_count in
      let one_less = weight-type t Token.t_literal is refl in
      Post-bind (consume-peeked c p k t v peeks) λ u q (same, j, w, tree, le).
        let size = ap (λ (a : Ast). a.node_count) tree in
        Post-bind (fresh_node-Post q j w.good) λ id r (e, w₁, count, n, at, last).
          let (x, valued) =
            literal_of-typed u r (subst IsTyped (sym same) typed)
              (ap (λ (x : Token). x.type) same ∙ is) in
          Post-value _ x r valued (
            Post-bind (write_node-Post r j w₁.good c id _ n at (omega arith) (λ n. refl))
              λ _ s (w₂, count₂, _). ends (
                j,
                Went-then w (Went-then (Went-below (omega arith) w₁) w₂),
                omega arith,
                omega arith,
                omega arith,
              ))

  module _ (limit : ℕ) (expr : ℕ → M ℕ) (run : Parses limit expr) (le : k ≤ limit) where
    -- A chain of members from a node on, and a call of it.
    chain_call-Post :
        (c node : ℕ) (q : Parser) (j : ℕ)
        → 0 < c
        → IsGood q j
        → j < k
        → InChain c node q
        → Post
            (λ id r. (i : ℕ) × Went c q i r × (i ≤ j) × (c ≤ id) × (id < r.ast.node_count))
            (bind (try_parse_member_chain node q) (try_parse_call expr))
    chain_call-Post c node q j pos good less chain =
        Post-bind (try_parse_member_chain-Post c pos node q j good chain)
          λ id r (i, w, le₁, (low, high, _)).
            Post-map (try_parse_call-Post limit expr run c id r i w.good (omega arith) pos low high)
              λ id' s (l, w₁, le₂, low', high'). (l, Went-then w w₁, omega arith, low', high')

    parse_name-Post : NodePost p k (parse_name expr p)
    unfolding parse_name
    parse_name-Post =
        let c = p.ast.node_count in
        Post-bind (parse_symbol-Post p k v) λ id q (j, w, less, low, high, chain).
          Post-map (chain_call-Post c id q j v.sound.rooted w.good less (low, high, chain))
            λ id' r (i, w₁, le₁, low', high'). (i, Went-then w w₁, omega arith, low', high')

    parse_constructor-Post : NodePost p k (parse_constructor expr p)
    unfolding parse_constructor same_token can_chain same_node
    parse_constructor-Post =
        let c = p.ast.node_count in
        Post-bind (parser_expect-Post c p k v Token.t_primitive refl)
          λ t q (typed, is, j, w, tree, less).
            let size = ap (λ (a : Ast). a.node_count) tree in
            Post-bind (fresh_node-Post q j w.good) λ id r (e, w₁, count, n, at, last).
              let (x, valued) = primitive_of-typed t r typed is in
              Post-value _ x r valued (
                Post-bind (write_node-Post r j w₁.good c id _ n at (omega arith) (λ n. refl))
                  λ _ s (w₂, count₂, here).
                    Post-map
                      (chain_call-Post c id s j v.sound.rooted w₂.good less
                        (omega arith, omega arith, (_, here, refl)))
                      λ id' u (i, w₃, le₃, low', high'). (
                        i,
                        Went-then w (Went-then (Went-below (omega arith) w₁) (Went-then w₂ w₃)),
                        omega arith,
                        low',
                        high',
                      ))

    -- The cases of nulang__parse_atom, on the type of the token that is peeked.
    atom-Post :
        (t : Token) (type : TokenType)
        → IsTyped t
        → t.type ≡ type
        → p.lexer.peeks ≡ t ∷ []
        → NodePost p k (
            (elim type as (λ _. M ℕ) [
              | Token.t_identifier ↦ parse_name expr
              | Token.t_insert ↦ parse_insert_or_singleton n_insert (NodeValue.insert 0)
              | Token.t_singleton ↦ parse_insert_or_singleton n_singleton (NodeValue.singleton 0)
              | Token.t_primitive ↦ parse_constructor expr
              | Token.t_literal ↦ parse_literal
              | _ ↦ no_atom t
            ])
              p)
    unfolding no_atom raise_at
    atom-Post t Token.t_identifier typed is peeks = parse_name-Post
    atom-Post t Token.t_insert typed is peeks =
        parse_insert_or_singleton-Post n_insert (NodeValue.insert 0)
    atom-Post t Token.t_singleton typed is peeks =
        parse_insert_or_singleton-Post n_singleton (NodeValue.singleton 0)
    atom-Post t Token.t_primitive typed is peeks = parse_constructor-Post
    atom-Post t Token.t_literal typed is peeks = parse_literal-Post t typed is peeks
    atom-Post t _ typed is peeks = stops

-- A node that is parsed behind a peek.
pub NodePost-peeked :
    (p q : Parser) (j k : ℕ) (r : Reply Parser ℕ)
    → Went p.ast.node_count p j q
    → q.ast ≡ p.ast
    → j ≤ k
    → NodePost q j r
    → NodePost p k r
NodePost-peeked p q j k r w tree le h =
    let size = ap (λ (a : Ast). a.node_count) tree in
    Post-map h λ id s (i, w₁, less, low, high).
      (i, Went-then w (Went-below (omega arith) w₁), omega arith, omega arith, high)

pub parse_atom-Post :
    (limit : ℕ) (expr : ℕ → M ℕ)
    → Parses limit expr
    → (p : Parser) (k : ℕ) → IsGood p k
    → k ≤ limit
    → NodePost p k (parse_atom expr p)
unfolding parse_atom
parse_atom-Post limit expr run p k v le =
    Post-bind (parser_peek-Post p.ast.node_count p k v) λ t q (typed, peeks, j, w, tree, _, le₁).
      NodePost-peeked p q j k _ w tree le₁
        (atom-Post q j w.good limit expr run (omega arith) t t.type typed refl peeks)
