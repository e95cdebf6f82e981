-- ===== src/Lang/Parser/Program.antt =====
-- nucleus/lang/parser.h: nulang__parse as the parsing of the statements of a source, one by one.
use nextnucleus.Base.{
  ◌+◌, ℕ, zero, suc, ◌≤◌, ◌<◌, ◌≡◌, refl, sym, ap, subst, ◌∙◌, ◌⊎◌, inl, inr, true, false, ◌||◌,
  Option, none, some, [], ◌∷◌, arith, Bool-cases, length,
}
use native.Mathlib.Numerals.{add-two}
use nextnucleus.Lang.Token.{Token, TokenType, LangError, t_eof}
use nextnucleus.Lang.Token
use nextnucleus.Lang.Action.{Reply, done, raised, fault, bind, ◌>>=◌, pure, rounds}
use nextnucleus.Lang.Lexer.{Lexer}
use nextnucleus.Lang.Lexer.Parse.Ready.{Follows, unmoved, peek-one}
use nextnucleus.Lang.Ast.{Ast, append_child}
use nextnucleus.Lang.Ast.Tables.{same_token}
use nextnucleus.Lang.Parser.{
  Parser, M, from_tree, adopt, parser_peek, parser_consume, parser_expect, forever,
}
use nextnucleus.Lang.Parser.Stmt.{
  parse_stmt, import_round, body_round, ends_module, parse_fuel, parse,
}
use nextnucleus.Lang.Parser.Post.{
  IsGood, Went, Post-cases, parser_peek-Post, consume-peeked-eq, same_token-eq,
}
use nextnucleus.Lang.Parser.Loops.{ready-left}
use nextnucleus.Lang.Parser.Calls.{adopt-new}
use nextnucleus.Lang.Parser.Runs.{has_no_node, Runs, returns, fails, sticks}
use nextnucleus.Lang.Parser.Modules.{HasNoImport, parse_stmt-Runs, parse-Runs}

-- The answer of the parser, from statement to statement of the module `body`: it ends at the end of the
-- source alone; it fails with the error of a token or of a statement that it comes to; and it faults in
-- a statement, in which it stands at a token without a node.
pub data Program (limit body : ℕ) : Parser → Reply Parser (Unit {0}) → Type 0 where
  ended :
      {p q r : Parser} (t : Token)
      → parser_peek p ≡ done t q
      → t.type ≡ t_eof
      → parser_consume q ≡ done t r
      → Program limit body p (done tt r)
  unreadable :
      {p q : Parser} {e : LangError}
      → parser_peek p ≡ raised e q
      → Program limit body p (raised e q)
  rejected :
      {p q r : Parser} {e : LangError} (t : Token)
      → parser_peek p ≡ done t q
      → same_token t.type t_eof ≡ false
      → parse_stmt limit q ≡ raised e r
      → Program limit body p (raised e r)
  stuck :
      {p q : Parser} (t u : Token) (l : Lexer)
      → parser_peek p ≡ done t q
      → parse_stmt limit q ≡ fault
      → Follows q.lexer l
      → l.peeks ≡ u ∷ []
      → has_no_node u.type ≡ true
      → Program limit body p fault
  further :
      {p q r s : Parser} {x : Reply Parser (Unit {0})} (t : Token) (node : ℕ)
      → parser_peek p ≡ done t q
      → same_token t.type t_eof ≡ false
      → parse_stmt limit q ≡ done node r
      → adopt body node r ≡ done tt s
      → Program limit body s x
      → Program limit body p x

from_tree-done : (o : Option Ast) (p q : Parser) (e : LangError) → ¬ (from_tree o p ≡ raised e q)
from_tree-done none p q e h = cc
from_tree-done (some ast) p q e h = cc

adopt-done : (body node : ℕ) (p q : Parser) (e : LangError) → ¬ (adopt body node p ≡ raised e q)
unfolding adopt
adopt-done body node p q e h = from_tree-done (append_child p.ast body node) p q e h

Runs-cases :
    {A : Type 0} {start : Lexer} {Q : A → Parser → Type 0} (x : Reply Parser A)
    → Runs start Q x
    → ((a : A) × (q : Parser) × (x ≡ done a q) × Q a q)
      ⊎ (((e : LangError) × (q : Parser) × (x ≡ raised e q))
          ⊎ ((t : Token) × (l : Lexer) × (x ≡ fault)
              × Follows start l
              × (l.peeks ≡ t ∷ [])
              × (has_no_node t.type ≡ true)))
Runs-cases x (returns {a = a} {q = q} h) = inl (a, q, refl, h)
Runs-cases x (fails {e = e} {q = q}) = inr (inl (e, q, refl))
Runs-cases x (sticks t l f h is) = inr (inr (t, l, refl, f, h, is))

module _ (limit body : ℕ) where
  -- The loop over the statements, and what comes behind it.
  abbrev finish : M (Unit {0})
  finish = parser_expect t_eof >>= λ _. pure tt

  abbrev from_here : ℕ → M (Unit {0})
  from_here fuel p =
      bind (rounds fuel (body_round (parse_stmt limit) ends_module) body p) λ _. finish

  at_unreadable :
      (fuel : ℕ) (p q : Parser) (e : LangError)
      → parser_peek p ≡ raised e q
      → from_here (suc fuel) p ≡ raised e q
  unfolding rounds body_round
  at_unreadable fuel p q e h = rw h refl

  at_end :
      (fuel : ℕ) (p q r : Parser) (t : Token)
      → parser_peek p ≡ done t q
      → same_token t.type t_eof ≡ true
      → parser_consume q ≡ done t r
      → from_here (suc fuel) p ≡ done tt r
  unfolding rounds body_round ends_module parser_expect
  at_end fuel p q r t h is c = rw (h, is, c, is) refl

  at_rejected :
      (fuel : ℕ) (p q r : Parser) (t : Token) (e : LangError)
      → parser_peek p ≡ done t q
      → same_token t.type t_eof ≡ false
      → parse_stmt limit q ≡ raised e r
      → from_here (suc fuel) p ≡ raised e r
  unfolding rounds body_round ends_module
  at_rejected fuel p q r t e h is c = rw (h, is, c) refl

  at_stuck :
      (fuel : ℕ) (p q : Parser) (t : Token)
      → parser_peek p ≡ done t q
      → same_token t.type t_eof ≡ false
      → parse_stmt limit q ≡ fault
      → from_here (suc fuel) p ≡ fault
  unfolding rounds body_round ends_module
  at_stuck fuel p q t h is c = rw (h, is, c) refl

  at_statement :
      (fuel : ℕ) (p q r s : Parser) (t : Token) (node : ℕ)
      → parser_peek p ≡ done t q
      → same_token t.type t_eof ≡ false
      → parse_stmt limit q ≡ done node r
      → adopt body node r ≡ done tt s
      → from_here (suc fuel) p ≡ from_here fuel s
  unfolding rounds body_round ends_module
  at_statement fuel p q r s t node h is c d = rw (h, is, c, d) refl

  -- A round that parses a statement.
  statement :
      (fuel : ℕ) (p : Parser) (k : ℕ)
      → ((s : Parser) (l : ℕ)
          → l < k
          → IsGood s l
          → body < s.ast.node_count
          → Program limit body s (from_here fuel s))
      → k < limit
      → (t : Token) (q : Parser) (j : ℕ) → parser_peek p ≡ done t q
      → IsGood q j
      → j ≤ k
      → body < q.ast.node_count
      → same_token t.type t_eof ≡ false
      → Program limit body p (from_here (suc fuel) p)
  statement fuel p k rest le t q j h good low high more =
      let Q = Program limit body p in
      let run = parse_stmt-Runs q.lexer limit q j unmoved good (omega arith) in
      elim (Runs-cases (parse_stmt limit q) run) [
        | inr (inl (e, r, c)) ↦
            subst Q (sym (at_rejected fuel p q r t e h more c)) (rejected t h more c)
        | inr (inr (u, l, c, f, is, sets)) ↦
            subst Q (sym (at_stuck fuel p q t h more c)) (stuck t u l h c f is sets)
        | inl (node, r, c, (l, w₁, less, new, high₁)) ↦
            let grew = w₁.grown.count in
            elim (Post-cases (adopt body node r)
              (adopt-new body node q r l w₁ good (omega arith) new high₁)) [
                | inr (e, s, d) ↦ absurd (adopt-done body node r s e d)
                | inl (_, s, d, (w₂, count)) ↦
                    subst Q (sym (at_statement fuel p q r s t node h more c d))
                      (further t node h more c d (rest s l (omega arith) w₂.good (omega arith)))
              ]
      ]

  -- With more fuel than tokens are left, the loop goes from statement to statement.
  from_here-Program :
      (fuel : ℕ) (p : Parser) (k : ℕ)
      → k < fuel
      → IsGood p k
      → k < limit
      → body < p.ast.node_count
      → Program limit body p (from_here fuel p)
  from_here-Program zero p k lt v le used = absurd (omega arith)
  from_here-Program (suc fuel) p k lt v le used =
      let Q = Program limit body p in
      elim (Post-cases (parser_peek p) (parser_peek-Post body p k v)) [
        | inr (e, q, h) ↦ subst Q (sym (at_unreadable fuel p q e h)) (unreadable h)
        | inl (t, q, h, (_, is, j, w, tree, _, low)) ↦
            let size = ap (λ (a : Ast). a.node_count) tree in
            elim (Bool-cases (same_token t.type t_eof)) [
              | inl end ↦
                  let r = record q { lexer = record q.lexer { peeks = [] } } in
                  let c : parser_consume q ≡ done t r = consume-peeked-eq q t is in
                  subst Q (sym (at_end fuel p q r t h end c))
                    (ended t h (same_token-eq t.type t_eof end) c)
              | inr more ↦
                  statement fuel p k
                    (λ s l less good used.
                      from_here-Program fuel s l (omega arith) good (omega arith) used)
                    le t q j h w.good (omega arith) (omega arith) more
            ]
      ]

-- The parser has peeked the first token in the loop over the imports.
Program-first :
    (limit body : ℕ) {p q : Parser} {x : Reply Parser (Unit {0})}
    → parser_peek p ≡ parser_peek q
    → Program limit body q x
    → Program limit body p x
Program-first limit body e (ended t h is c) = ended t (e ∙ h) is c
Program-first limit body e (unreadable h) = unreadable (e ∙ h)
Program-first limit body e (rejected t h is c) = rejected t (e ∙ h) is c
Program-first limit body e (stuck t u l h c f is sets) = stuck t u l (e ∙ h) c f is sets
Program-first limit body e (further t node h is c d rest) = further t node (e ∙ h) is c d rest

imports-done :
    (p q : Parser) (t : Token)
    → parser_peek p ≡ done t q
    → (same_token t.type Token.t_import || same_token t.type Token.t_from) ≡ false
    → forever import_round tt p ≡ done tt q
unfolding forever rounds import_round
imports-done p q t h first = rw (add-two, h, first) refl

imports-raised :
    (p q : Parser) (e : LangError)
    → parser_peek p ≡ raised e q
    → forever import_round tt p ≡ raised e q
unfolding forever rounds import_round
imports-raised p q e h = rw (add-two, h) refl

parse-eq :
    (p q : Parser)
    → forever import_round tt p ≡ done tt q
    → parse p ≡ from_here (parse_fuel p) p.ast.root (length q.lexer.source + 2) q
unfolding parse forever
parse-eq p q h = rw h refl

parse-raised :
    (p q : Parser) (e : LangError) → forever import_round tt p ≡ raised e q → parse p ≡ raised e q
unfolding parse
parse-raised p q e h = rw h refl

peek_again : (q : Parser) (t : Token) → q.lexer.peeks ≡ t ∷ [] → parser_peek q ≡ done t q
unfolding parser_peek
peek_again q t is = rw (peek-one q.lexer t is) refl

parse-Program :
    (p : Parser) (k : ℕ)
    → IsGood p k
    → p.ast.root < p.ast.node_count
    → HasNoImport p
    → Program (parse_fuel p) p.ast.root p (parse p)
parse-Program p k v rooted first =
    let Q = Program (parse_fuel p) p.ast.root p in
    let short = ready-left p.lexer v.left v.ready v.ahead in
    let at_left : IsGood p v.left = record {
      left = v.left;
      ready = v.ready;
      ahead = v.ahead;
      le = omega arith;
      sound = v.sound;
    } in
    elim (Post-cases (parser_peek p) (parser_peek-Post p.ast.root p v.left at_left)) [
      | inr (e, q, h) ↦ subst Q (sym (parse-raised p q e (imports-raised p q e h))) (unreadable h)
      | inl (t, q, h, (_, is, j, w, tree, _, low)) ↦
          let size = ap length w.source in
          let nodes = ap (λ (a : Ast). a.node_count) tree in
          let again_peeked : parser_peek p ≡ parser_peek q = h ∙ sym (peek_again q t is) in
          subst Q (sym (parse-eq p q (imports-done p q t h (first t q h)))) (
            Program-first (parse_fuel p) p.ast.root again_peeked (
              from_here-Program (parse_fuel p) p.ast.root (length q.lexer.source + 2) q j
                (omega arith) w.good (omega arith) (omega arith)))
    ]

-- For a parser with at most one token peeked, whose lexer is at an offset of a source as in
-- Lang.Lexer.Parse.Laws.parse_token_lem, whose tree is sound with its root in use, and whose next
-- token does not begin an import, nulang__parse ends within its fuel. It answers what the
-- statements come to, parsed one after the other and made children of the root: it ends at the end
-- of the source alone, and then the tree is sound and the nodes below the root's id have the last
-- child that they had; it fails with the error of a token or of a statement that it comes to; and
-- it faults only in a statement, where a run of nulang__lexer_peek and nulang__lexer_next from its
-- start has peeked an `export`, a `for`, a `break` or a `continue`, for which nulang__parse_stmt
-- sets no node.
pub parse_lem :
    (p : Parser) (k : ℕ)
    → IsGood p k
    → p.ast.root < p.ast.node_count
    → HasNoImport p
    → Program (parse_fuel p) p.ast.root p (parse p)
      × Runs p.lexer (λ _ q. (j : ℕ) × Went p.ast.root p j q × (j ≤ k)) (parse p)
parse_lem p k v rooted first = (parse-Program p k v rooted first, parse-Runs p k v rooted first)
