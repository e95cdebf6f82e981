-- ===== src/Lang/Parser/Modules.antt =====
-- nucleus/lang/parser.h: statements end, and modules that begin with no import;
-- a statement may fault at an `export`, a `for`, a `break` or a `continue`.
use nextnucleus.Base.{
  ℕ, zero, suc, ◌≤◌, ◌<◌, ◌≡◌, refl, sym, ap, subst, true, false, not, ◌||◌, [], ◌∷◌, arith, length,
}
use native.Mathlib.Numerals.{add-two}
use nextnucleus.Lang.Lexer.{Lexer}
use nextnucleus.Lang.Token.{Token, TokenType, LangError, t_eof}
use nextnucleus.Lang.Token
use nextnucleus.Lang.Action.{Reply, done, exhausted, bind, give_up, again, stop, rounds}
use nextnucleus.Lang.Ast.{Ast}
use nextnucleus.Lang.Ast.Tables.{same_token}
use nextnucleus.Lang.Lexer.Parse.Ready.{Follows, Follows-trans, peek-one}
use nextnucleus.Lang.Parser.{Parser, M, parser_peek, parser_expect, unexpected, raise_at, forever}
use nextnucleus.Lang.Parser.Expr.{parse_expr}
use nextnucleus.Lang.Parser.Stmt.{
  parse_vardecl, parse_fundecl, parse_return_stmt, parse_if_stmt, parse_while_stmt, parse_name_stmt,
  no_stmt, stmt_switch, parse_stmt, import_round, body_round, ends_module, parse_fuel, parse,
}
use nextnucleus.Lang.Parser.Loops.{ready-left}
use nextnucleus.Lang.Parser.Post.{
  IsGood, Went, Went-then, Went-below, Post, ends, stops, Post-bind, Post-done, Post-if,
  parser_consume-Post, parser_peek-Post, same_token-eq,
}
use nextnucleus.Lang.Parser.Calls.{Parses}
use nextnucleus.Lang.Parser.Total.{parse_expr-Post}
use nextnucleus.Lang.Parser.Simple.{
  parse_vardecl-Post, parse_return_stmt-Post, parse_name_stmt-Post,
}
use nextnucleus.Lang.Parser.Runs.{
  has_no_node, Runs, returns, fails, sticks, of_Post, Runs-bind, Runs-step, Runs-map, forever-Runs,
}
use nextnucleus.Lang.Parser.Blocks.{
  NodeRuns, ParsesStmt, Open, body_round-Runs, parse_if_stmt-Runs, parse_while_stmt-Runs,
}
use nextnucleus.Lang.Parser.Fundecl.{parse_fundecl-Runs}

module _ (start : Lexer) (limit : ℕ) (expr : ℕ → M ℕ) (run : Parses limit expr) (stmt : M ℕ)
    (runs : ParsesStmt start limit stmt) (p : Parser) (k : ℕ) (same : Follows start p.lexer)
    (v : IsGood p k) (le : k ≤ limit) where
  -- The cases of nulang__parse_stmt, on the type of the token that is peeked.
  stmt-Runs :
      (t : Token) (type : TokenType)
      → t.type ≡ type
      → ((l : Lexer) × Follows start l × (l.peeks ≡ t ∷ []))
      → NodeRuns start p k (
          (elim type as (λ _. M ℕ) [
            | Token.t_let ↦ parse_vardecl expr
            | Token.t_export ↦ give_up
            | Token.t_function ↦ parse_fundecl stmt false
            | Token.t_return ↦ parse_return_stmt expr
            | Token.t_if ↦ parse_if_stmt expr stmt
            | Token.t_for ↦ give_up
            | Token.t_while ↦ parse_while_stmt expr stmt
            | Token.t_break ↦ give_up
            | Token.t_continue ↦ give_up
            | Token.t_identifier ↦ parse_name_stmt expr
            | _ ↦ no_stmt t
          ])
            p)
  unfolding no_stmt raise_at has_no_node
  stmt-Runs t Token.t_let is token = of_Post (parse_vardecl-Post limit expr run p k v le)
  stmt-Runs t Token.t_export is token = sticks t token.0 token.1 token.2 (ap has_no_node is)
  stmt-Runs t Token.t_function is token =
      parse_fundecl-Runs start limit stmt runs false p k same v le
  stmt-Runs t Token.t_return is token = of_Post (parse_return_stmt-Post limit expr run p k v le)
  stmt-Runs t Token.t_if is token = parse_if_stmt-Runs start limit expr run stmt runs p k same v le
  stmt-Runs t Token.t_for is token = sticks t token.0 token.1 token.2 (ap has_no_node is)
  stmt-Runs t Token.t_while is token =
      parse_while_stmt-Runs start limit expr run stmt runs p k same v le
  stmt-Runs t Token.t_break is token = sticks t token.0 token.1 token.2 (ap has_no_node is)
  stmt-Runs t Token.t_continue is token = sticks t token.0 token.1 token.2 (ap has_no_node is)
  stmt-Runs t Token.t_identifier is token = of_Post (parse_name_stmt-Post limit expr run p k v le)
  stmt-Runs t _ is token = fails

-- With more fuel than tokens, nulang__parse_stmt ends.
pub parse_stmt-Runs : (start : Lexer) (fuel : ℕ) → ParsesStmt start fuel (parse_stmt fuel)
unfolding parse_stmt stmt_switch
parse_stmt-Runs start zero p k same v lt = absurd (omega arith)
parse_stmt-Runs start (suc fuel) p k same v lt =
    let c = p.ast.node_count in
    Runs-step (parser_peek-Post c p k v) λ t q (_, peeks, j, w, tree, _, le).
      let token : (l : Lexer) × Follows start l × (l.peeks ≡ t ∷ []) =
        (q.lexer, Follows-trans same w.read, peeks) in
      let size = ap (λ (a : Ast). a.node_count) tree in
      Runs-map
        (stmt-Runs start fuel (parse_expr fuel) (parse_expr-Post fuel) (parse_stmt fuel)
          (parse_stmt-Runs start fuel) q j (Follows-trans same w.read) w.good (omega arith) t t.type
          refl token)
        λ id r (i, w₁, less, low, high).
          (i, Went-then w (Went-below (omega arith) w₁), omega arith, omega arith, high)

-- The end of the source.
expect_eof-Post :
    (n : ℕ) (p : Parser) (k : ℕ)
    → IsGood p k
    → Post (λ t q. (t.type ≡ t_eof) × (j : ℕ) × Went n p j q × (j ≤ k)) (parser_expect t_eof p)
unfolding parser_expect unexpected
expect_eof-Post n p k v = Post-bind (parser_consume-Post n p k v) λ t q (_, j, w, _, le).
    Post-if (not (same_token t.type t_eof)) _ _ (λ _. stops)
      λ h. ends (same_token-eq t.type t_eof (ground arith), j, w, omega arith)

-- The next token does not begin an import.
abbrev pub HasNoImport : Parser → Type 0
HasNoImport p =
    (t : Token) (q : Parser)
    → parser_peek p ≡ done t q
    → (same_token t.type Token.t_import || same_token t.type Token.t_from) ≡ false

-- A step whose answer is kept.
Post-step :
    {A B : Type 0} {P : A → Parser → Type 0} {Q : B → Parser → Type 0} {x : Reply Parser A}
    {f : A → M B}
    → Post P x
    → ((a : A) (q : Parser) → x ≡ done a q → P a q → Post Q (f a q))
    → Post Q (bind x f)
Post-step (ends {a = a} {q = q} h) go = go a q refl h
Post-step stops go = stops

-- The first round over the imports is the last.
import_rounds-Post :
    (fuel : ℕ) (p : Parser) (k : ℕ)
    → IsGood p k
    → HasNoImport p
    → Post
        (λ _ q. (j : ℕ) × Went p.ast.root p j q × (j ≤ k) × (q.ast ≡ p.ast))
        (rounds (suc fuel) import_round tt p)
unfolding rounds import_round
import_rounds-Post fuel p k v first =
    Post-bind
      {P = λ a q. (a ≡ stop tt) × (j : ℕ) × Went p.ast.root p j q × (j ≤ k) × (q.ast ≡ p.ast)}
      (Post-step (parser_peek-Post p.ast.root p k v)
        λ t q e (_, _, j, w, tree, _, le). rw (first t q e) (ends (refl, j, w, le, tree)))
      λ a q (e, j, w, le, tree).
        subst
          (λ a.
            Post (λ _ q. (j : ℕ) × Went p.ast.root p j q × (j ≤ k) × (q.ast ≡ p.ast))
              (elim a as (λ _. Reply Parser (Unit {0})) [
                | again r ↦ rounds fuel import_round r q
                | stop t ↦ done t q
              ]))
          (sym e) (ends (j, w, le, tree))

imports-Post :
    (p : Parser) (k : ℕ)
    → IsGood p k
    → HasNoImport p
    → Post
        (λ _ q. (j : ℕ) × Went p.ast.root p j q × (j ≤ k) × (q.ast ≡ p.ast))
        (forever import_round tt p)
unfolding forever
imports-Post p k v first = rw add-two (import_rounds-Post (suc (length p.lexer.source)) p k v first)

-- nulang__parse ends, or faults in front of a statement without a node.
pub parse-Runs :
    (p : Parser) (k : ℕ)
    → IsGood p k
    → p.ast.root < p.ast.node_count
    → HasNoImport p
    → Runs p.lexer (λ _ q. (j : ℕ) × Went p.ast.root p j q × (j ≤ k)) (parse p)
unfolding parse
parse-Runs p k v rooted first =
    let c = p.ast.root in
    let limit = parse_fuel p in
    let short = ready-left p.lexer v.left v.ready v.ahead in
    let low = v.le in
    let at_left : IsGood p v.left = record {
      left = v.left;
      ready = v.ready;
      ahead = v.ahead;
      le = omega arith;
      sound = v.sound;
    } in
    Runs-step (imports-Post p v.left at_left first) λ _ q (j, w, le, tree).
      let size = ap (λ (a : Ast). a.node_count) tree in
      Runs-bind
        (forever-Runs p.lexer c (Open limit c) (λ _ _. Unit {0})
          (body_round (parse_stmt limit) ends_module)
          (body_round-Runs p.lexer limit (parse_stmt limit) (parse_stmt-Runs p.lexer limit)
            ends_module c)
          c q j w.read w.good (omega arith, omega arith, j, w.good, omega arith))
        λ _ r (i, w₁, le₁, _).
          Runs-step (expect_eof-Post c r i w₁.good)
            λ t s (_, l, w₂, le₂). returns (l, Went-then w (Went-then w₁ w₂), omega arith)

-- A round at an import peeks the same token again.
import_rounds-exhausted :
    (fuel : ℕ) (p : Parser) (t : Token)
    → p.lexer.peeks ≡ t ∷ []
    → (same_token t.type Token.t_import || same_token t.type Token.t_from) ≡ true
    → rounds fuel import_round tt p ≡ exhausted
unfolding rounds import_round parser_peek
import_rounds-exhausted zero p t is h = refl
import_rounds-exhausted (suc fuel) p t is h =
    rw (peek-one p.lexer t is, h) (import_rounds-exhausted fuel p t is h)

import_first :
    (fuel : ℕ) (p : Parser) (k : ℕ) (t : Token) (q : Parser)
    → IsGood p k
    → parser_peek p ≡ done t q
    → (same_token t.type Token.t_import || same_token t.type Token.t_from) ≡ true
    → rounds fuel import_round tt p ≡ exhausted
unfolding rounds import_round
import_first zero p k t q v e h = refl
import_first (suc fuel) p k t q v e h =
    let (_, is, _, _, _, _, _) = Post-done (subst (Post _) e (parser_peek-Post p.ast.root p k v)) in
    rw (e, h) (import_rounds-exhausted fuel q t is h)

-- For a parser as in Lang.Parser.Total.parse_expr-Post whose next token is `import` or `from`, the
-- first loop of nulang__parse runs out of every fuel, and so does nulang__parse: it does not end.
pub parse-import :
    (p : Parser) (k : ℕ) (t : Token) (q : Parser)
    → IsGood p k
    → parser_peek p ≡ done t q
    → (same_token t.type Token.t_import || same_token t.type Token.t_from) ≡ true
    → ((fuel : ℕ) → rounds fuel import_round tt p ≡ exhausted) × (parse p ≡ exhausted)
unfolding parse forever
parse-import p k t q v peeks h =
    let endless = λ (fuel : ℕ). import_first fuel p k t q v peeks h in (endless, rw endless refl)
