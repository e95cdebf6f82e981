-- ===== src/Lang/Parser/Nodes.antt =====
-- nucleus/lang/parser.h: what the operations of the parser on nodes keep, and the values of tokens.
use nextnucleus.Base.{ℕ, ◌+◌, ◌<◌, ◌≡◌, refl, sym, ap, subst, ◌∙◌, ◌≢◌, inl, inr, true, some, arith}
use nextnucleus.Vm.Types.{Primitive}
use nextnucleus.Lang.Token.{
  Token, TokenValue, Literal, t_identifier, t_primitive, t_literal, v_identifier, v_primitive,
  v_literal,
}
use nextnucleus.Lang.Builtin.{SourceString}
use nextnucleus.Lang.Action.{done, fault}
use nextnucleus.Lang.Lexer.Parse.Typed.{fits, IsTyped}
use nextnucleus.Lang.Ast.{Ast, Node, node_at, node_null}
use nextnucleus.Lang.Ast.Sound.{
  IsGrown, change_node-IsGrown, add_node-IsGrown, append_child-IsGrown,
}
use nextnucleus.Lang.Parser.{
  Parser, M, from_add, from_tree, fresh_node, adopt, write_node, identifier_of, primitive_of,
  literal_of,
}
use nextnucleus.Lang.Lexer.Parse.Ready.{unmoved}
use nextnucleus.Lang.Parser.Post.{IsGood, Went, Post, ends, stops}

-- The value that the type of a token says is there.
pub identifier_of-typed :
    (t : Token) (p : Parser)
    → IsTyped t
    → t.type ≡ t_identifier
    → (s : SourceString) × (identifier_of t p ≡ done s p)
unfolding fits
identifier_of-typed t p typed is = value t.value (subst (λ x. fits x t.value ≡ true) is typed)
  where
    value :
        (v : TokenValue)
        → fits t_identifier v ≡ true
        → (s : SourceString) × ((elim v as (λ _. M SourceString) [
          | v_identifier q n ↦ (λ r. done (record { p = q; n = n }) r)
          | _ ↦ (λ r. fault)
        ])
              p
            ≡ done s p)
    value (v_identifier q n) h = (record { p = q; n = n }, refl)
    value _ h = cc

pub literal_of-typed :
    (t : Token) (p : Parser)
    → IsTyped t
    → t.type ≡ t_literal
    → (s : Literal) × (literal_of t p ≡ done s p)
unfolding fits
literal_of-typed t p typed is = value t.value (subst (λ x. fits x t.value ≡ true) is typed)
  where
    value :
        (v : TokenValue)
        → fits t_literal v ≡ true
        → (s : Literal) × ((elim v as (λ _. M Literal) [
          | v_literal q ↦ (λ r. done q r)
          | _ ↦ (λ r. fault)
        ])
              p
            ≡ done s p)
    value (v_literal q) h = (q, refl)
    value _ h = cc

pub primitive_of-typed :
    (t : Token) (p : Parser)
    → IsTyped t
    → t.type ≡ t_primitive
    → (s : Primitive) × (primitive_of t p ≡ done s p)
unfolding fits
primitive_of-typed t p typed is = value t.value (subst (λ x. fits x t.value ≡ true) is typed)
  where
    value :
        (v : TokenValue)
        → fits t_primitive v ≡ true
        → (s : Primitive) × ((elim v as (λ _. M Primitive) [
          | v_primitive q ↦ (λ r. done q r)
          | _ ↦ (λ r. fault)
        ])
              p
            ≡ done s p)
    value (v_primitive q) h = (q, refl)
    value _ h = cc

module _ (p : Parser) (k : ℕ) (v : IsGood p k) where
  -- The parser with another tree.
  of_tree : (n : ℕ) (ast : Ast) → IsGrown n p.ast ast → Went n p k (record p { ast = ast })
  of_tree n ast grown = record {
    good = record {
      left = v.left;
      ready = v.ready;
      ahead = v.ahead;
      le = v.le;
      sound = grown.sound;
    };
    grown = grown;
    source = refl;
    read = unmoved;
  }

  pub fresh_node-Post :
      Post
        (λ id q.
          (id ≡ p.ast.node_count)
          × Went p.ast.node_count p k q
          × (q.ast.node_count ≡ p.ast.node_count + 1)
          × (n : Node) × (node_at q.ast id ≡ some n)
          × (n.last_child ≡ node_null))
        (fresh_node p)
  unfolding fresh_node
  fresh_node-Post = elim (add_node-IsGrown p.ast v.sound) [
    | inl e ↦ subst (Post _) (sym (ap (λ r. from_add r p) e)) stops
    | inr (ast', n, e, grown, count, at, last) ↦
        subst (Post _) (sym (ap (λ r. from_add r p) e))
          (ends (refl, of_tree p.ast.node_count ast' grown, count, n, at, last))
  ]

  pub write_node-Post :
      (m id : ℕ) (f : Node → Node) (n : Node)
      → node_at p.ast id ≡ some n
      → id < p.ast.node_count
      → ((n : Node) → (f n).last_child ≡ n.last_child)
      → Post
          (λ _ q.
            Went m p k q × (q.ast.node_count ≡ p.ast.node_count) × (node_at q.ast id ≡ some (f n)))
          (write_node id f p)
  unfolding write_node
  write_node-Post m id f n at lt keep =
      let (ast', e, grown, count, n', at', here) =
        change_node-IsGrown p.ast v.sound id f m lt keep in
      subst (Post _) (sym (ap (λ r. from_tree r p) e)) (
        ends (
          of_tree m ast' grown,
          count,
          (let same : n' ≡ n = ground arith in here ∙ ap (λ x. some (f x)) same),
        ))

  pub adopt-Post :
      (parent child : ℕ) (n : Node)
      → parent < p.ast.node_count
      → child < p.ast.node_count
      → child ≢ 0
      → child ≢ parent
      → node_at p.ast parent ≡ some n
      → n.last_child ≢ child
      → Post
          (λ _ q.
            Went parent p k q
            × (q.ast.node_count ≡ p.ast.node_count)
            × (n' : Node) × (node_at q.ast parent ≡ some n')
            × (n'.last_child ≡ child)
            × (n'.type ≡ n.type)
            × (n'.value ≡ n.value))
          (adopt parent child p)
  unfolding adopt
  adopt-Post parent child n lt lt' nz other at ne =
      let (ast', e, grown, count, here) =
        append_child-IsGrown p.ast v.sound parent child n lt lt' nz other at ne in
      let (n', at', last, type, value) = here in
      subst (Post _) (sym (ap (λ r. from_tree r p) e))
        (ends (of_tree parent ast' grown, count, n', at', last, type, value))
