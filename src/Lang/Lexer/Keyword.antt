-- ===== src/Lang/Lexer/Keyword.antt =====
-- nucleus/lang/lexer.h, the second half of nulang__consume_identifier: which token the text of an
-- identifier is. Each list is a chain of `else if`, in its order; the texts are byte codes.
pub mod Laws
use nextnucleus.Base.{
  [], ℕ, Bool, true, false, ◌&&◌, Option, none, some, List, ◌∷◌, ◌==◌, if◌then◌else◌,
}
use nextnucleus.Vm.Text.{Bytes, strlen, strncmp}
use nextnucleus.Vm.Types.{Primitive, int, fix, vec2, vec3, vec4, ivec2, ivec3, ivec4}
use nextnucleus.Lang.Token.{
  TokenType, TokenValue, Literal, no_value, v_primitive, v_literal, v_identifier, l_nil, l_bool,
  t_identifier, t_primitive, t_literal, t_import, t_from, t_export, t_and, t_or, t_not, t_let, t_if,
  t_then, t_else, t_elif, t_end, t_do, t_for, t_in, t_while, t_function, t_break, t_continue,
  t_return, t_insert, t_delete, t_singleton, t_iter, t_next,
}

-- NULANG_MATCH_TOKEN
unfoldable pub match_token : Bytes → Bytes → ℕ → Bool
unfolding strlen strncmp
match_token s t n = n == strlen t && strncmp s t n == 0

-- A chain of tests that ends at the first text that matches.
unfoldable pub first_match {ℓ} : {A : Type ℓ} → List (Bytes × A) → Bytes → ℕ → Option A
unfolding match_token
first_match [] s n = none
first_match ((t, a) ∷ ts) s n = if match_token s t n then some a else first_match ts s n

-- import, from, export
unfoldable pub early_keywords : List (Bytes × TokenType)
early_keywords =
    (105 ∷ 109 ∷ 112 ∷ 111 ∷ 114 ∷ 116 ∷ [], t_import)
    ∷ (102 ∷ 114 ∷ 111 ∷ 109 ∷ [], t_from)
    ∷ (101 ∷ 120 ∷ 112 ∷ 111 ∷ 114 ∷ 116 ∷ [], t_export)
    ∷ []

-- and
abbrev pub and_text : Bytes
and_text = 97 ∷ 110 ∷ 100 ∷ []

-- or, not, let, if, then, else, elif, end, do, for, in,
-- while, function, break, continue, return, insert, delete, singleton, iter, next
unfoldable pub late_keywords : List (Bytes × TokenType)
late_keywords =
    (111 ∷ 114 ∷ [], t_or)
    ∷ (110 ∷ 111 ∷ 116 ∷ [], t_not)
    ∷ (108 ∷ 101 ∷ 116 ∷ [], t_let)
    ∷ (105 ∷ 102 ∷ [], t_if)
    ∷ (116 ∷ 104 ∷ 101 ∷ 110 ∷ [], t_then)
    ∷ (101 ∷ 108 ∷ 115 ∷ 101 ∷ [], t_else)
    ∷ (101 ∷ 108 ∷ 105 ∷ 102 ∷ [], t_elif)
    ∷ (101 ∷ 110 ∷ 100 ∷ [], t_end)
    ∷ (100 ∷ 111 ∷ [], t_do)
    ∷ (102 ∷ 111 ∷ 114 ∷ [], t_for)
    ∷ (105 ∷ 110 ∷ [], t_in)
    ∷ (119 ∷ 104 ∷ 105 ∷ 108 ∷ 101 ∷ [], t_while)
    ∷ (102 ∷ 117 ∷ 110 ∷ 99 ∷ 116 ∷ 105 ∷ 111 ∷ 110 ∷ [], t_function)
    ∷ (98 ∷ 114 ∷ 101 ∷ 97 ∷ 107 ∷ [], t_break)
    ∷ (99 ∷ 111 ∷ 110 ∷ 116 ∷ 105 ∷ 110 ∷ 117 ∷ 101 ∷ [], t_continue)
    ∷ (114 ∷ 101 ∷ 116 ∷ 117 ∷ 114 ∷ 110 ∷ [], t_return)
    ∷ (105 ∷ 110 ∷ 115 ∷ 101 ∷ 114 ∷ 116 ∷ [], t_insert)
    ∷ (100 ∷ 101 ∷ 108 ∷ 101 ∷ 116 ∷ 101 ∷ [], t_delete)
    ∷ (115 ∷ 105 ∷ 110 ∷ 103 ∷ 108 ∷ 101 ∷ 116 ∷ 111 ∷ 110 ∷ [], t_singleton)
    ∷ (105 ∷ 116 ∷ 101 ∷ 114 ∷ [], t_iter)
    ∷ (110 ∷ 101 ∷ 120 ∷ 116 ∷ [], t_next)
    ∷ []

-- true, false, nil
unfoldable pub literals : List (Bytes × Literal)
literals =
    (116 ∷ 114 ∷ 117 ∷ 101 ∷ [], l_bool true)
    ∷ (102 ∷ 97 ∷ 108 ∷ 115 ∷ 101 ∷ [], l_bool false)
    ∷ (110 ∷ 105 ∷ 108 ∷ [], l_nil)
    ∷ []

-- int, fix, str, vec2, vec3, vec4, ivec2, ivec3, ivec4
unfoldable pub primitives : List (Bytes × Primitive)
primitives =
    (105 ∷ 110 ∷ 116 ∷ [], int)
    ∷ (102 ∷ 105 ∷ 120 ∷ [], fix)
    ∷ (115 ∷ 116 ∷ 114 ∷ [], int)
    ∷ (118 ∷ 101 ∷ 99 ∷ 50 ∷ [], vec2)
    ∷ (118 ∷ 101 ∷ 99 ∷ 51 ∷ [], vec3)
    ∷ (118 ∷ 101 ∷ 99 ∷ 52 ∷ [], vec4)
    ∷ (105 ∷ 118 ∷ 101 ∷ 99 ∷ 50 ∷ [], ivec2)
    ∷ (105 ∷ 118 ∷ 101 ∷ 99 ∷ 51 ∷ [], ivec3)
    ∷ (105 ∷ 118 ∷ 101 ∷ 99 ∷ 52 ∷ [], ivec4)
    ∷ []

-- The first chain: the keywords, where the test for `and` has its arguments the other way round.
unfoldable pub keyword : Bytes → ℕ → Option TokenType
unfolding first_match
keyword s n = elim (first_match early_keywords s n) [
  | some t ↦ some t
  | none ↦ if match_token and_text s n then some t_and else first_match late_keywords s n
]

-- All the chains: the type and the value of the token whose text is the first `n` characters of `s`,
-- which stand at offset `p` of the source.
unfoldable pub classify : ℕ → Bytes → ℕ → TokenType × TokenValue
classify p s n = elim (keyword s n) [
  | some t ↦ (t, no_value)
  | none ↦ elim (first_match literals s n) [
    | some v ↦ (t_literal, v_literal v)
    | none ↦ elim (first_match primitives s n) [
      | some q ↦ (t_primitive, v_primitive q)
      | none ↦ (t_identifier, v_identifier p n)
    ]
  ]
]
