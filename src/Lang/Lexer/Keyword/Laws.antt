-- ===== src/Lang/Lexer/Keyword/Laws.antt =====
-- nucleus/lang/lexer.h: which texts the tests for keywords accept.
use nextnucleus.Base.{
  inl, inr, Option-cases, [], ℕ, zero, suc, ◌≤◌, ◌≡◌, refl, sym, ap, ◌∙◌, ◌↔◌, true, ◌∷◌, arith,
  length, take, All, Bool, false, List, none, some, Bool-cases, subst,
}
use nextnucleus.Vm.Text.{Bytes, strlen, strncmp}
use nextnucleus.Vm.Text.Compare.{IsText, strncmp_iff}
use nextnucleus.Vm.Text.Ident.{strlen_lem}
use nextnucleus.Lang.Token.{TokenType, t_and}
use nextnucleus.Lang.Lexer.Keyword.{
  match_token, and_text, first_match, early_keywords, late_keywords, keyword,
}

take-length : (s : Bytes) → take (length s) s ≡ s
take-length [] = refl
take-length (c ∷ s) = ap (λ r. c ∷ r) (take-length s)

length-take : (s : Bytes) (n : ℕ) → n ≤ length s → length (take n s) ≡ n
length-take s zero h = refl
length-take [] (suc n) h = absurd (omega arith)
length-take (c ∷ s) (suc n) h = omega (arith, length-take s n (omega arith))

-- For texts of bytes between 1 and 255, and a count within the first of them, NULANG_MATCH_TOKEN
-- accepts exactly if the counted characters are the second text.
pub match_token_iff :
    (s t : Bytes) (n : ℕ)
    → IsText s
    → IsText t
    → n ≤ length s
    → (match_token s t n ≡ true) ↔ (take n s ≡ t)
unfolding match_token
match_token_iff s t n hs ht le =
    let (to, back) = strncmp_iff s t n hs ht in
    let len : strlen t ≡ length t = strlen_lem t ht in
    (
      λ h.
          (let e : n ≡ length t = ground arith in
            let z : strncmp s t n ≡ 0 = ground arith in
            to z ∙ ap (λ k. take k t) e ∙ take-length t),
      λ h.
          (let e : n ≡ length t = sym (length-take s n le) ∙ ap length h in
            let z : strncmp s t n ≡ 0 =
              back (h ∙ sym (take-length t) ∙ ap (λ k. take k t) (sym e)) in
            ground arith),
    )

-- The test with the arguments of the keyword `and`.
match_token-and :
    (s : Bytes) (n : ℕ)
    → IsText s
    → (match_token and_text s n ≡ true) ↔ ((n ≡ length s) × (take n and_text ≡ s))
unfolding match_token
match_token-and s n hs =
    let (to, back) =
      strncmp_iff and_text s n
        ((omega arith, omega arith), ((omega arith, omega arith), ((omega arith, omega arith), tt)))
        hs in
    let len : strlen s ≡ length s = strlen_lem s hs in
    (
      λ h.
          (let e : n ≡ length s = ground arith in
            let z : strncmp and_text s n ≡ 0 = ground arith in
            (e, to z ∙ ap (λ k. take k s) e ∙ take-length s)),
      λ (e, h).
          (let z : strncmp and_text s n ≡ 0 =
              back (h ∙ sym (take-length s) ∙ ap (λ k. take k s) (sym e)) in
            ground arith),
    )

abbrev is_and : TokenType → Bool
is_and t_and = true
is_and _ = false

-- A chain of tests without `and` does not answer it.
first_match-avoids :
    (ts : List (Bytes × TokenType)) (s : Bytes) (n : ℕ) (t : TokenType)
    → All (λ e. is_and e.1 ≡ false) ts
    → first_match ts s n ≡ some t
    → is_and t ≡ false
unfolding first_match
first_match-avoids [] s n t h e = cc
first_match-avoids ((text, u) ∷ ts) s n t (h, hs) e = elim (Bool-cases (match_token s text n)) [
  | inl b ↦ (let same : u ≡ t = ground arith in subst (λ x. is_and x ≡ false) same h)
  | inr b ↦ first_match-avoids ts s n t hs (ground arith)
]

early_keywords-avoid : All (λ e. is_and e.1 ≡ false) early_keywords
unfolding early_keywords
early_keywords-avoid = (refl, (refl, (refl, tt)))

late_keywords-avoid : All (λ e. is_and e.1 ≡ false) late_keywords
unfolding late_keywords
late_keywords-avoid = (
  refl,
  (
    refl,
    (
      refl,
      (
        refl,
        (
          refl,
          (
            refl,
            (
              refl,
              (
                refl,
                (
                  refl,
                  (
                    refl,
                    (
                      refl,
                      (
                        refl,
                        (refl, (refl, (refl, (refl, (refl, (refl, (refl, (refl, (refl, tt))))))))),
                      ),
                    ),
                  ),
                ),
              ),
            ),
          ),
        ),
      ),
    ),
  ),
)

-- The words in front of `and` have more letters.
early_keywords-short : (s : Bytes) (n : ℕ) → n ≤ 3 → first_match early_keywords s n ≡ none
unfolding early_keywords first_match match_token strlen
early_keywords-short s n le = ground arith

take_le : (n : ℕ) (s : Bytes) → length (take n s) ≤ length s
take_le zero s = omega arith
take_le (suc n) [] = omega arith
take_le (suc n) (c ∷ s) = omega (arith, take_le n s)

and_short : (s : Bytes) (n : ℕ) → n ≡ length s → take n and_text ≡ s → n ≤ 3
and_short s n e h = omega (arith, take_le n and_text, ap length h)

-- On a source text, the chain of keywords answers the token `and` for the next characters exactly
-- if they are all that is left of the source and begin the word `and`: it does not for `and` in
-- front of anything, and does for `a` at the end.
pub keyword-and :
    (s : Bytes) (n : ℕ)
    → IsText s
    → (keyword s n ≡ some t_and) ↔ ((n ≡ length s) × (take n and_text ≡ s))
unfolding keyword
keyword-and s n hs =
    let (to, back) = match_token-and s n hs in
    (
      λ h. elim (Option-cases (first_match early_keywords s n)) [
        | inr (t, e) ↦
            let is : t ≡ t_and = ground arith in
            let other = first_match-avoids early_keywords s n t early_keywords-avoid e in
            absurd (let z : true ≡ false = ap is_and (sym is) ∙ other in cc)
        | inl e ↦ elim (Bool-cases (match_token and_text s n)) [
          | inl b ↦ to b
          | inr b ↦
              let late : first_match late_keywords s n ≡ some t_and = ground arith in
              let z : true ≡ false =
                first_match-avoids late_keywords s n t_and late_keywords-avoid late in
              absurd cc
        ]
      ],
      λ (e, h).
          (let le : n ≤ 3 = and_short s n e h in
            let b = back (e, h) in let none_early = early_keywords-short s n le in ground arith),
    )
