-- ===== src/Lang/Parser/Tests.antt =====
-- Runs and witnesses for the parser.
use nextnucleus.Base.{
  ℕ, zero, suc, ◌≤◌, ◌<◌, ◌≡◌, refl, sym, ap, subst, ◌+◌, ◌≢◌, ◌⊎◌, inl, false, ◌||◌, Option, none,
  some, List, [], ◌∷◌, arith,
}
use nextnucleus.Lang.Token.{
  Location, Token, TokenType, t_eof, t_import, t_from, t_comma, no_value, LangError,
  unexpected_token,
}
use nextnucleus.Lang.Action.{Reply, done, raised, exhausted, rounds}
use nextnucleus.Lang.Lexer.Laws.{unread}
use nextnucleus.Lang.Lexer.Scan.Progress.{IsParsed-short}
use nextnucleus.Lang.Lexer.Parse.Ready.{nothing}
use nextnucleus.Lang.Ast.{Node, n_module, unset, node_null, node_at}
use nextnucleus.Lang.Lexer.Parse.{next, peek, parse_token, one_round}
use nextnucleus.Lang.Lexer.{look, read_char, advance, start_of, consume_char}
use nextnucleus.Lang.Lexer.Keyword.{
  classify, keyword, early_keywords, late_keywords, literals, primitives,
}
use nextnucleus.Lang.Lexer.Scan.{consume_identifier, single_char_token}
use nextnucleus.Lang.Ast.Tables.{same_token}
use nextnucleus.Lang.Parser.{Parser, parser_peek, parser_accept, parser_expect, parser_consume}
use nextnucleus.Lang.Parser.Expr.{parse_expr}
use nextnucleus.Lang.Parser.Stmt.{import_round, parse}
use nextnucleus.Lang.Parser.Idents.{parse_identifier_list}
use nextnucleus.Lang.Parser.Total.{parse_expr-Post}
use nextnucleus.Lang.Parser.Runs.{Runs}
use nextnucleus.Lang.Parser.Modules.{HasNoImport, parse-import}
use nextnucleus.Lang.Parser.Program.{Program, parse_lem}
use nextnucleus.Lang.Parser.Post.{IsGood, Went}
use nextnucleus.Lang.Parser.Chains.{NodePost}

-- The text `x.y`.
abbrev text : List ℕ
text = 120 ∷ 46 ∷ 121 ∷ []

abbrev start : Location
start = record { line = 1; column = 1; index = 0 }

abbrev root : Node
root = record {
  type = n_module;
  value = unset;
  span = record { start = start; stop = start };
  parent = node_null;
  first_child = node_null;
  last_child = node_null;
  next_sibling = node_null;
}

abbrev parser_of : List ℕ → Parser
parser_of source = record {
  lexer = record {
    error = record { start = start; stop = start };
    source = source;
    ptr = some 0;
    next_loc = start;
    peek_char = 0;
    peek_loc = start;
    has_peek = false;
    peeks = [];
  };
  ast = record {
    root = 0;
    nodes = root ∷ root ∷ root ∷ root ∷ [];
    node_capacity = 4;
    node_count = 1;
  };
  token_expect = t_eof;
  token_got = t_eof;
}

abbrev fresh_parser : Parser
fresh_parser = parser_of text

fresh_parser-last :
    (id : ℕ) (n : Node)
    → id < 1
    → node_at fresh_parser.ast id ≡ some n
    → (n.last_child ≡ node_null) ⊎ ((n.last_child < 1) × (n.last_child ≢ id))
unfolding node_at
fresh_parser-last zero n lt at =
    let is : root ≡ n = ground arith in inl (ap (λ (x : Node). x.last_child) (sym is))
fresh_parser-last (suc id) n lt at = absurd (omega arith)

fresh_parser-IsGood : IsGood fresh_parser 3
fresh_parser-IsGood = record {
  left = 3;
  ready = record {
    offset = 0;
    at = unread refl refl (omega arith);
    text = (
      (omega arith, omega arith),
      ((omega arith, omega arith), ((omega arith, omega arith), tt)),
    );
    parsed = IsParsed-short text (omega arith);
    count = refl;
  };
  ahead = nothing refl;
  le = omega arith;
  sound = record {
    block = refl;
    fits = omega arith;
    bound = omega arith;
    rooted = omega arith;
    last = fresh_parser-last;
  };
}

-- The text `a=b`.
abbrev assignment : Parser
assignment = parser_of (97 ∷ 61 ∷ 98 ∷ [])

assignment-IsGood : IsGood assignment 3
assignment-IsGood = record {
  left = 3;
  ready = record {
    offset = 0;
    at = unread refl refl (omega arith);
    text = (
      (omega arith, omega arith),
      ((omega arith, omega arith), ((omega arith, omega arith), tt)),
    );
    parsed = IsParsed-short (97 ∷ 61 ∷ 98 ∷ []) (omega arith);
    count = refl;
  };
  ahead = nothing refl;
  le = omega arith;
  sound = fresh_parser-IsGood.sound;
}

parse_expr-Post_example : NodePost fresh_parser 3 (parse_expr 4 0 fresh_parser)
parse_expr-Post_example = parse_expr-Post 4 0 fresh_parser 3 fresh_parser-IsGood (omega arith)

-- The type of the token that an action answers.
abbrev answered : Reply Parser Token → TokenType
answered (done t q) = t.type
answered _ = t_eof

assignment-HasNoImport : HasNoImport assignment
unfolding parser_peek peek parse_token same_token look read_char one_round consume_identifier
    start_of consume_char classify keyword early_keywords late_keywords literals primitives
assignment-HasNoImport t q e =
    subst (λ type. (same_token type t_import || same_token type t_from) ≡ false) (ap answered e)
      (refl)

parse_lem_example :
    Program 5 0 assignment (parse assignment)
    × Runs assignment.lexer (λ _ q. (j : ℕ) × Went 0 assignment j q × (j ≤ 3)) (parse assignment)
parse_lem_example = parse_lem assignment 3 assignment-IsGood (omega arith) assignment-HasNoImport

-- The text `import`.
abbrev importing : Parser
importing = parser_of (105 ∷ 109 ∷ 112 ∷ 111 ∷ 114 ∷ 116 ∷ [])

abbrev import_token : Token
import_token = record {
  type = t_import;
  span = record { start = start; stop = record { line = 1; column = 6; index = 5 } };
  value = no_value;
}

abbrev import_peeked : Parser
import_peeked = record importing {
  lexer = record importing.lexer {
    ptr = none;
    next_loc = record { line = 1; column = 7; index = 7 };
    peek_loc = record { line = 1; column = 7; index = 6 };
    peeks = import_token ∷ [];
  };
}

import_peeks : parser_peek importing ≡ done import_token import_peeked
unfolding parser_peek peek parse_token same_token look read_char one_round consume_identifier
    start_of consume_char classify keyword early_keywords late_keywords literals primitives advance
import_peeks = refl

importing-IsGood : IsGood importing 6
importing-IsGood = record {
  left = 6;
  ready = record {
    offset = 0;
    at = unread refl refl (omega arith);
    text = omega arith;
    parsed = IsParsed-short importing.lexer.source (omega arith);
    count = refl;
  };
  ahead = nothing refl;
  le = omega arith;
  sound = fresh_parser-IsGood.sound;
}

parse-import_example :
    ((fuel : ℕ) → rounds fuel import_round tt importing ≡ exhausted) × (parse importing ≡ exhausted)
unfolding same_token
parse-import_example =
    parse-import importing 6 import_token import_peeked importing-IsGood import_peeks refl

-- The text `a,b` is no list of identifiers: behind the comma a literal is expected.
abbrev raises : {S A : Type 0} → Reply S A → Option LangError
raises (raised e s) = some e
raises _ = none

identifier_list-raises :
    raises (
      parse_identifier_list t_comma
        (λ t (n : ℕ). done tt (n + 1))
        (parser_of (97 ∷ 44 ∷ 98 ∷ []), 0))
    ≡ some unexpected_token
unfolding parse_identifier_list parser_accept parser_expect parser_peek parser_consume peek next
    parse_token same_token look read_char one_round consume_identifier start_of consume_char
    single_char_token classify keyword early_keywords late_keywords literals primitives rounds
identifier_list-raises = refl
