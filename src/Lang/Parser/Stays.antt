-- ===== src/Lang/Parser/Stays.antt =====
-- nucleus/lang/parser.h: an expected token moves the parser on, also when it is another one.
use nextnucleus.Base.{ℕ, ◌≤◌, ◌≡◌, refl, Bool, true, false, not, Option, arith, if◌then◌else◌}
use nextnucleus.Lang.Token.{Token, TokenType, Span}
use nextnucleus.Lang.Action.{Reply, done, raised, fault, exhausted, bind, pure}
use nextnucleus.Lang.Lexer.{Lexer}
use nextnucleus.Lang.Lexer.Laws.{At, peeked, unread, ended}
use nextnucleus.Lang.Lexer.Scan.{Outcome}
use nextnucleus.Lang.Lexer.Parse.{next}
use nextnucleus.Lang.Lexer.Parse.Ready.{
  unmoved, taken, noted, IsAhead, nothing, one, Reads, reads, fails, Behind, next-Reads,
}
use nextnucleus.Lang.Ast.Tables.{same_token}
use nextnucleus.Lang.Parser.{Parser, M, from_lexer, parser_consume, parser_expect, unexpected}
use nextnucleus.Lang.Parser.Post.{IsGood, Went, of_lexer}

-- The parser has moved on in the source, by a token at most or to an error.
abbrev pub Moved : ℕ → Parser → ℕ → Parser → Type 0
Moved n p k q = (j : ℕ) × Went n p j q × (j ≤ k) × (q.ast ≡ p.ast)

-- A run ends, also with an error, in a state that has moved on.
abbrev pub Stays : {A : Type 0} → ℕ → Parser → ℕ → Reply Parser A → Type 0
Stays n p k (done a q) = Moved n p k q
Stays n p k (raised e q) = Moved n p k q
Stays n p k fault = ⊥
Stays n p k exhausted = ⊥

At-error : (l : Lexer) (span : Span) (q : ℕ) → At l q → At (record l { error = span }) q
At-error l span q (peeked h e lt c) = peeked h e lt c
At-error l span q (unread h e le) = unread h e le
At-error l span q (ended h e z) = ended h e z

IsAhead-error : (l : Lexer) (span : Span) → IsAhead l → IsAhead (record l { error = span })
IsAhead-error l span (nothing e) = nothing e
IsAhead-error l span (one t typed e) = one t typed e

reported :
    (n : ℕ) (p q : Parser) (k : ℕ) (span : Span) (expect got_type : TokenType)
    → Moved n p k q
    → Moved n p k (record q {
      lexer = record q.lexer { error = span };
      token_expect = expect;
      token_got = got_type;
    })
reported n p q k span expect got_type (j, w, le, tree) =
    let r = w.good.ready in
    (
      j,
      record {
        good = record {
          left = w.good.left;
          ready = record {
            offset = r.offset;
            at = At-error q.lexer span r.offset r.at;
            text = r.text;
            parsed = r.parsed;
            count = r.count;
          };
          ahead = IsAhead-error q.lexer span w.good.ahead;
          le = w.good.le;
          sound = w.good.sound;
        };
        grown = w.grown;
        source = w.source;
        read = noted span w.read;
      },
      le,
      tree,
    )

Stays-bind :
    {A B : Type 0} {n : ℕ} {p : Parser} {k : ℕ} (x : Reply Parser A) (f : A → M B)
    → Stays n p k x
    → ((a : A) (q : Parser) → Moved n p k q → Stays n p k (f a q))
    → Stays n p k (bind x f)
Stays-bind (done a q) f h go = go a q h
Stays-bind (raised e q) f h go = h
Stays-bind fault f h go = h
Stays-bind exhausted f h go = h

module _ (n : ℕ) (p : Parser) (k : ℕ) (v : IsGood p k) where
  consume-Stays : Stays n p k (parser_consume p)
  unfolding parser_consume
  consume-Stays = step (next p.lexer) refl (next-Reads p.lexer v.left v.ready v.ahead)
    where
      step :
          (r : Option (Lexer × Outcome))
          → next p.lexer ≡ r
          → Reads p.lexer v.left (Behind v.left) r
          → Stays n p k (from_lexer r p)
      step r is (reads {l' = l'} t typed source (j, ready, left, le)) =
          let x = v.le in
          (
            j,
            of_lexer n p k v l' j ready (nothing left) source (taken unmoved is),
            omega arith,
            refl,
          )
      step r is (fails {l' = l'} e source (j, ready, left, le)) =
          let x = v.le in
          (
            j,
            of_lexer n p k v l' j ready (nothing left) source (taken unmoved is),
            omega arith,
            refl,
          )

  pub expect-Stays : (type : TokenType) → Stays n p k (parser_expect type p)
  unfolding parser_expect unexpected
  expect-Stays type =
      Stays-bind (parser_consume p) _ consume-Stays
        λ t q h. expected type t q h (not (same_token t.type type))
    where
      expected :
          (type : TokenType) (t : Token) (q : Parser)
          → Moved n p k q
          → (b : Bool) → Stays n p k ((if b then unexpected type t else pure t) q)
      expected type t q h true = reported n p q k t.span type t.type h
      expected type t q h false = h
