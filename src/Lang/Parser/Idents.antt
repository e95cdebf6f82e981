-- ===== src/Lang/Parser/Idents.antt =====
-- nucleus/lang/parser.h: nulang__parse_identifier_list, whose callback has data of its own.
use nextnucleus.Base.{ℕ, ◌+◌, ◌%◌, none, some, length, u64_mod}
use nextnucleus.Lang.Token.{Token, TokenType, t_identifier, t_literal}
use nextnucleus.Lang.Action.{
  Action, done, raised, fault, exhausted, ◌>>=◌, ◌>>◌, pure, Next, again, stop, rounds,
}
use nextnucleus.Lang.Parser.{Parser, M, parser_accept, parser_expect}

-- A step of the parser, and one of the callback, on both states.
unfoldable pub on_parser : {A U : Type 0} → M A → Action (Parser × U) A
on_parser m (p, u) = elim (m p) [
  | done a q ↦ done a (q, u)
  | raised e q ↦ raised e (q, u)
  | fault ↦ fault
  | exhausted ↦ exhausted
]

unfoldable pub on_userdata : {A U : Type 0} → Action U A → Action (Parser × U) A
on_userdata m (p, u) = elim (m u) [
  | done a v ↦ done a (p, v)
  | raised e v ↦ raised e (p, v)
  | fault ↦ fault
  | exhausted ↦ exhausted
]

module _ {U : Type 0} (separator : TokenType) (callback : Token → Action U (Unit {0})) where
  -- A round of the loop, with the count of the tokens so far.
  unfoldable pub separator_round : ℕ → Action (Parser × U) (Next ℕ ℕ)
  unfolding on_parser on_userdata
  separator_round count = do
    found ← on_parser (parser_accept separator)
    elim found [
      | none ↦ pure (stop count)
      | some _ ↦ (do
        t ← on_parser (parser_expect t_literal)
        on_userdata (callback t)
        pure (again ((count + 1) % u64_mod)))
    ]

  -- nulang__parse_identifier_list: it answers the count.
  unfoldable pub parse_identifier_list : Action (Parser × U) ℕ
  unfolding separator_round
  parse_identifier_list (p, u) =
      (do
        found ← on_parser (parser_accept t_identifier)
        elim found [
          | none ↦ pure 0
          | some t ↦ (do
            on_userdata (callback t)
            rounds (length p.lexer.source + 2) separator_round 1)
        ])
        (p, u)
