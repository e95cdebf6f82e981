-- ===== src/Lang/Lexer/Parse/Typed.antt =====
-- nucleus/lang/lexer.h: the value of a token is the one that its type says.
use nextnucleus.Base.{
  ℕ, zero, suc, ◌≡◌, refl, sym, ap, ◌∙◌, inl, inr, Bool, true, false, ◌&&◌, Option, none, some,
  List, [], ◌∷◌, arith, ◌==◌, Bool-cases, Option-cases, ◌>>=◌, drop,
}
use nextnucleus.Vm.Text.{Bytes}
use nextnucleus.Lang.Token.{
  t_and, Token, TokenType, TokenValue, Location, t_identifier, t_primitive, t_literal, v_identifier,
  v_primitive, v_literal, no_value, is_identifier, is_numeric,
}
use nextnucleus.Lang.Lexer.{Lexer, look, consume_char, start_of}
use nextnucleus.Lang.Lexer.Keyword.{
  keyword, classify, first_match, early_keywords, late_keywords, match_token, and_text,
}
use nextnucleus.Lang.Lexer.Scan.{
  Outcome, got, failed, fuel_of, consume_spaces, identifier_loop, single_char_token, consume_string,
  string_token, consume_number, number_token, fail_at, consume_identifier, with_equal,
}
use nextnucleus.Lang.Lexer.Parse.Laws.{split, split_option}
use nextnucleus.Lang.Lexer.Parse.{
  single_type, Round, ends, goes_on, minus_or_comment, ends_with, one_round, parse_loop,
  parse_token,
}

-- The type of a token fits its value.
unfoldable pub fits : TokenType → TokenValue → Bool
fits type v = elim type [
  | t_identifier ↦ elim v [ v_identifier p n ↦ true | _ ↦ false ]
  | t_primitive ↦ elim v [ v_primitive q ↦ true | _ ↦ false ]
  | t_literal ↦ elim v [ v_literal l ↦ true | _ ↦ false ]
  | _ ↦ true
]

abbrev pub IsTyped : Token → Type 0
IsTyped t = fits t.type t.value ≡ true

-- A keyword is a type that any value fits.
plain : TokenType → Bool
unfolding fits
plain type = fits type no_value

all_plain : List (Bytes × TokenType) → Bool
all_plain [] = true
all_plain ((w, t) ∷ ts) = plain t && all_plain ts

first_match-plain :
    (ts : List (Bytes × TokenType)) (s : Bytes) (n : ℕ) (t : TokenType)
    → all_plain ts ≡ true
    → first_match ts s n ≡ some t
    → plain t ≡ true
unfolding first_match all_plain
first_match-plain [] s n t all h = cc
first_match-plain ((w, u) ∷ ts) s n t all h = elim (Bool-cases (match_token s w n)) [
  | inl e ↦
      (let same : u ≡ t = ground arith in
        ap plain (sym same) ∙ (let ok : plain u ≡ true = ground arith in ok))
  | inr e ↦
      (let rest : first_match ts s n ≡ some t = ground arith in
        first_match-plain ts s n t (ground arith) rest)
]

keyword-plain : (s : Bytes) (n : ℕ) (t : TokenType) → keyword s n ≡ some t → plain t ≡ true
unfolding keyword early_keywords late_keywords plain all_plain
keyword-plain s n t h = elim (Option-cases (first_match early_keywords s n)) [
  | inr (u, e) ↦
      let same : u ≡ t = ground arith in
      ap plain (sym same) ∙ first_match-plain early_keywords s n u refl e
  | inl e ↦ elim (Bool-cases (match_token and_text s n)) [
    | inl w ↦ (let same : t_and ≡ t = ground arith in ap plain (sym same) ∙ refl)
    | inr w ↦
        let rest : first_match late_keywords s n ≡ some t = ground arith in
        first_match-plain late_keywords s n t refl rest
  ]
]

classify-fits : (p : ℕ) (s : Bytes) (n : ℕ) → fits (classify p s n).0 (classify p s n).1 ≡ true
unfolding fits classify plain
classify-fits p s n = elim (Option-cases (keyword s n)) [
  | inr (t, e) ↦ (let ok = keyword-plain s n t e in ground arith)
  | inl e ↦ ground arith
]

-- What a reader of a token answers.
unfoldable pub answers_typed : Option (Lexer × Outcome) → Bool
unfolding fits
answers_typed none = true
answers_typed (some (l, got t)) = fits t.type t.value
answers_typed (some (l, failed e)) = true

single_char_token-typed :
    (l : Lexer) (type : TokenType) (loc : Location)
    → plain type ≡ true
    → answers_typed (single_char_token l type loc) ≡ true
unfolding single_char_token answers_typed plain
single_char_token-typed l type loc h = elim (Option-cases (consume_char l)) [
  | inl e ↦ ground arith
  | inr (l', e) ↦ ground arith
]

single_type-plain : (c : ℕ) (t : TokenType) → single_type c ≡ some t → plain t ≡ true
unfolding single_type plain
single_type-plain c t h = ground arith

with_equal-typed :
    (l : Lexer) (loc : Location) (type : TokenType) (o : Outcome)
    → plain type ≡ true
    → answers_typed (some (l, o)) ≡ true
    → answers_typed (with_equal l loc type o) ≡ true
unfolding with_equal answers_typed plain
with_equal-typed l loc type o h k = ground arith

consume_string-typed : (l : Lexer) → answers_typed (consume_string l) ≡ true
unfolding consume_string string_token answers_typed
consume_string-typed l = ground arith

consume_number-typed : (l : Lexer) → answers_typed (consume_number l) ≡ true
unfolding consume_number number_token fail_at answers_typed
consume_number-typed l = ground arith

bind-typed :
    {A : Type 0} (o : Option A) (f : A → Option (Lexer × Outcome))
    → ((a : A) → answers_typed (f a) ≡ true)
    → answers_typed (o >>= f) ≡ true
unfolding answers_typed
bind-typed none f h = refl
bind-typed (some a) f h = h a

consume_identifier-typed : (l : Lexer) → answers_typed (consume_identifier l) ≡ true
unfolding consume_identifier answers_typed
consume_identifier-typed l = bind-typed (start_of l) _ λ p. bind-typed (look l) _ λ l₁.
    bind-typed (identifier_loop (fuel_of l) l₁ l₁.peek_loc 0) _
      λ (l₂, stop, n). classify-fits p (drop p l.source) n

-- What a round of the loop answers.
round_typed : Option Round → Bool
round_typed none = true
round_typed (some (ends l o)) = answers_typed (some (l, o))
round_typed (some (goes_on l)) = true

ends_with-typed :
    (r : Option (Lexer × Outcome)) → answers_typed r ≡ true → round_typed (ends_with r) ≡ true
unfolding answers_typed round_typed
ends_with-typed none h = refl
ends_with-typed (some (l, o)) h = h

bind-round :
    {A : Type 0} (o : Option A) (f : A → Option Round)
    → ((a : A) → round_typed (f a) ≡ true)
    → round_typed (o >>= f) ≡ true
unfolding round_typed
bind-round none f h = refl
bind-round (some a) f h = h a

minus-typed : (l : Lexer) (loc : Location) → round_typed (minus_or_comment l loc) ≡ true
unfolding minus_or_comment round_typed answers_typed
minus-typed l loc = ground arith

one_round-typed : (l : Lexer) → round_typed (one_round l) ≡ true
unfolding one_round round_typed answers_typed plain
one_round-typed l =
    let P = λ (r : Option Round). round_typed r ≡ true in
    let c = l.peek_char in
    let loc = l.peek_loc in
    let equal =
      λ (type : TokenType) (o : Outcome) (h : plain type ≡ true)
          (k : answers_typed (some (l, o)) ≡ true).
        ends_with-typed (with_equal l loc type o) (with_equal-typed l loc type o h k) in
    split_option P (single_type c)
      (λ t e. ends_with-typed _ (single_char_token-typed l t loc (single_type-plain c t e)))
      (λ _.
        split P (c == 45) (λ _. minus-typed l loc)
          (λ _.
            split P (c == 61) (λ _. equal _ _ refl refl)
              (λ _.
                split P (c == 60) (λ _. equal _ _ refl refl)
                  (λ _.
                    split P (c == 62) (λ _. equal _ _ refl refl)
                      (λ _.
                        split P (c == 33) (λ _. equal _ _ refl refl)
                          (λ _.
                            split P (c == 32) (λ _. bind-round (consume_spaces l) _ λ _. refl)
                              (λ _.
                                split P (c == 39) (λ _. ends_with-typed _ (consume_string-typed l))
                                  (λ _.
                                    split P (is_numeric c)
                                      (λ _. ends_with-typed _ (consume_number-typed l))
                                      (λ _.
                                        split P (is_identifier c)
                                          (λ _. ends_with-typed _ (consume_identifier-typed l))
                                          (λ _. bind-round (consume_char l) _ λ _. refl))))))))))

after-typed :
    (fuel : ℕ)
    → ((l : Lexer) → answers_typed (parse_loop fuel l) ≡ true)
    → (r : Option Round) → round_typed r ≡ true
    → answers_typed (r >>= λ r. elim r [ ends l o ↦ some (l, o) | goes_on l ↦ parse_loop fuel l ])
      ≡ true
unfolding answers_typed round_typed
after-typed fuel rest none h = refl
after-typed fuel rest (some (ends l o)) h = h
after-typed fuel rest (some (goes_on l)) h = rest l

parse_loop-typed : (fuel : ℕ) (l : Lexer) → answers_typed (parse_loop fuel l) ≡ true
unfolding parse_loop answers_typed round_typed
parse_loop-typed zero l = refl
parse_loop-typed (suc fuel) l = bind-typed (look l) _ λ l₁.
    split (λ r. answers_typed r ≡ true) l₁.has_peek
      (λ _. after-typed fuel (parse_loop-typed fuel) (one_round l₁) (one_round-typed l₁))
      (λ _. refl)

pub parse_token-IsTyped : (l l' : Lexer) (t : Token) → parse_token l ≡ some (l', got t) → IsTyped t
unfolding parse_token answers_typed
parse_token-IsTyped l l' t h = sym (ap answers_typed h) ∙ parse_loop-typed (fuel_of l) l
