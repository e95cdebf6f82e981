-- ===== src/Lang/Lexer/Parse/Ready.antt =====
-- nucleus/lang/lexer.h, for a parser that looks at most one token ahead: a peek and the next token end,
-- and a token that is not the end of the source leaves less to read.
use nextnucleus.Base.{
  ℕ, ◌+◌, ◌-◌, ◌≤◌, ◌<◌, ◌≡◌, refl, sym, ap, subst, ◌∙◌, ◌⊎◌, inl, inr, Option, some, List, [], ◌∷◌,
  arith, if◌then◌else◌, ◌>>=◌, length, get_elem?,
}
use nextnucleus.Vm.Text.{Bytes}
use nextnucleus.Vm.Text.Compare.{IsText}
use nextnucleus.Lang.Token.{Span, Token, LangError, t_eof, token_eof}
use nextnucleus.Lang.Lexer.{Lexer}
use nextnucleus.Lang.Lexer.Laws.{At, At-bound, peeked, unread, ended, IsSame}
use nextnucleus.Lang.Lexer.Scan.{Outcome, got, failed}
use nextnucleus.Lang.Lexer.Scan.Progress.{IsParsed}
use nextnucleus.Lang.Lexer.Parse.{parse_token, next, fill_peeks, peek}
use nextnucleus.Lang.Lexer.Parse.Laws.{parse_token_lem}
use nextnucleus.Lang.Lexer.Parse.Peek.{peek-eq}
use nextnucleus.Lang.Lexer.Parse.Typed.{IsTyped, parse_token-IsTyped}
use nextnucleus.Lang.Ast.Tables.{same_token}

-- A token counts for one, unless it is the end of the source.
abbrev pub weight : Token → ℕ
weight t = if same_token t.type t_eof then 0 else 1

abbrev pub weights : List Token → ℕ
weights [] = 0
weights (t ∷ ts) = weight t + weights ts

-- At most `k` tokens are left: as many as bytes behind the offset, and those that are peeked.
pub record IsReady (l : Lexer) (k : ℕ) : Type 0 where
  pub offset : ℕ
  pub at : At l offset
  pub text : IsText l.source
  pub parsed : IsParsed l.source
  pub count : length l.source + weights l.peeks ≡ k + offset

-- A token that nulang__lexer_parse_token reads from the source, at an offset of it; its value fits
-- its type.
pub record IsTokenOf (source : Bytes) (t : Token) : Type 0 where
  pub typed : IsTyped t
  pub before : Lexer
  pub after : Lexer
  pub offset : ℕ
  pub same : before.source ≡ source
  pub at : At before offset
  pub lexed : parse_token before ≡ some (after, got t)

-- The lexers that the calls of a parser lead to: nulang__lexer_next and nulang__lexer_peek, the latter
-- with no token between, and the reports of errors at a span. Every token of the source comes in its
-- turn.
pub data Follows (l : Lexer) : Lexer → Type 0 where
  unmoved : Follows l l
  taken : {m n : Lexer} {o : Outcome} → Follows l m → next m ≡ some (n, o) → Follows l n
  seen : {m n : Lexer} {o : Outcome} → Follows l m → peek m 0 ≡ some (n, o) → Follows l n
  noted : {m : Lexer} (span : Span) → Follows l m → Follows l (record m { error = span })

pub Follows-trans : {l m n : Lexer} → Follows l m → Follows m n → Follows l n
Follows-trans f unmoved = f
Follows-trans f (taken g e) = taken (Follows-trans f g) e
Follows-trans f (seen g e) = seen (Follows-trans f g) e
Follows-trans f (noted span g) = noted span (Follows-trans f g)

-- The token that is peeked, if any.
pub data IsAhead (l : Lexer) : Type 0 where
  nothing : l.peeks ≡ [] → IsAhead l
  one : (t : Token) → IsTokenOf l.source t → l.peeks ≡ t ∷ [] → IsAhead l

pub ahead-IsTokenOf : (l : Lexer) (t : Token) → IsAhead l → l.peeks ≡ t ∷ [] → IsTokenOf l.source t
ahead-IsTokenOf l t (nothing e) is = cc
ahead-IsTokenOf l t (one u token e) is =
    let same : u ≡ t = cc in subst (IsTokenOf l.source) same token

-- The lexer has peeked the token, or is behind it; or it stands behind an error.
abbrev pub Peeked : ℕ → Lexer → Token → Type 0
Peeked k l t = (k' : ℕ) × IsReady l k' × (l.peeks ≡ t ∷ []) × (weight t ≤ k') × (k' ≤ k)

abbrev pub Behind : ℕ → Lexer → Token → Type 0
Behind k l t = (k' : ℕ) × IsReady l k' × (l.peeks ≡ []) × (k' + weight t ≤ k)

abbrev pub Broken : ℕ → Lexer → Type 0
Broken k l = (k' : ℕ) × IsReady l k' × (l.peeks ≡ []) × (k' ≤ k)

-- An answer with a token, or an error.
pub data Reads (l : Lexer) (k : ℕ) (P : Lexer → Token → Type 0)
    : Option (Lexer × Outcome) → Type 0 where
  reads :
      {l' : Lexer} (t : Token)
      → IsTokenOf l.source t
      → l'.source ≡ l.source
      → P l' t
      → Reads l k P (some (l', got t))
  fails :
      {l' : Lexer} (e : LangError)
      → l'.source ≡ l.source
      → Broken k l'
      → Reads l k P (some (l', failed e))

weight_lem : (t : Token) → weight t ≤ 1
weight_lem t = ground arith

weight_of : Outcome → ℕ
weight_of (got t) = weight t
weight_of (failed e) = 0

At-peeks : (l : Lexer) (q : ℕ) (ts : List Token) → At l q → At (record l { peeks = ts }) q
At-peeks l q ts (peeked h e lt c) = peeked h e lt c
At-peeks l q ts (unread h e le) = unread h e le
At-peeks l q ts (ended h e z) = ended h e z

peek-failed :
    (l l' : Lexer) (e : LangError)
    → l.peeks ≡ []
    → parse_token l ≡ some (l', failed e)
    → peek l 0 ≡ some (l', failed e)
unfolding peek fill_peeks
peek-failed l l' e unpeeked runs =
    let n : 0 + 1 - length l.peeks ≡ 1 = omega (arith, ap length unpeeked) in
    rw (n, runs, ◌>>=◌) refl

pub peek-one : (l : Lexer) (t : Token) → l.peeks ≡ t ∷ [] → peek l 0 ≡ some (l, got t)
unfolding peek fill_peeks
peek-one l t is =
    let n : 0 + 1 - length l.peeks ≡ 0 = omega (arith, ap length is) in
    let first : get_elem? l.peeks 0 ≡ some t = ap (λ ps. get_elem? ps 0) is in rw (n, first) refl

module _ (l : Lexer) (k : ℕ) (v : IsReady l k) where
  ready :
      (l' : Lexer) (q : ℕ)
      → l.peeks ≡ []
      → IsSame l l'
      → At l' q
      → IsReady l' (length l'.source - q)
  ready l' q unpeeked same at =
      let bound = At-bound l' q at in
      let empty = ap weights (same.peeks ∙ unpeeked) in
      record {
        offset = q;
        at = at;
        text = subst IsText (sym same.source) v.text;
        parsed = subst IsParsed (sym same.source) v.parsed;
        count = omega arith;
      }

  Outcome-Reads :
      (l' : Lexer) (o : Outcome) (q : ℕ)
      → l.peeks ≡ []
      → parse_token l ≡ some (l', o)
      → IsSame l l'
      → At l' q
      → ((o ≡ got token_eof) × (q ≡ length l.source)) ⊎ (v.offset < q)
      → Reads l k (Behind k) (some (l', o))
  unfolding same_token weight_of
  Outcome-Reads l' (got t) q unpeeked e same at moved =
      let bound = At-bound l' q at in
      let w = weight_lem t in
      let size = ap length same.source in
      let empty = ap weights unpeeked in
      let count = v.count in
      let le : length l'.source - q + weight t ≤ k = elim moved [
        | inl (is_eof, z) ↦ (let none_left : weight t ≡ 0 = ap weight_of is_eof in omega arith)
        | inr lt ↦ omega arith
      ] in
      reads t
        (record {
          typed = parse_token-IsTyped l l' t e;
          before = l;
          after = l';
          offset = v.offset;
          same = refl;
          at = v.at;
          lexed = e;
        })
        same.source (length l'.source - q, ready l' q unpeeked same at, same.peeks ∙ unpeeked, le)
  Outcome-Reads l' (failed e') q unpeeked e same at moved =
      let bound = At-bound l' q at in
      let size = ap length same.source in
      let empty = ap weights unpeeked in
      let count = v.count in
      let le : length l'.source - q ≤ k = elim moved [
        | inl (is_eof, z) ↦ omega arith
        | inr lt ↦ omega arith
      ] in
      fails e' same.source
        (length l'.source - q, ready l' q unpeeked same at, same.peeks ∙ unpeeked, le)

  parse_token-Reads : l.peeks ≡ [] → Reads l k (Behind k) (parse_token l)
  parse_token-Reads unpeeked =
      let (l', o, q, e, same, at, moved) = parse_token_lem l v.offset v.text v.parsed v.at in
      subst (Reads l k (Behind k)) (sym e) (Outcome-Reads l' o q unpeeked e same at moved)

  pub next-Reads : IsAhead l → Reads l k (Behind k) (next l)
  unfolding next
  next-Reads (nothing unpeeked) =
      let e : next l ≡ parse_token l =
        ap (λ ps. elim ps [ [] ↦ parse_token l | t ∷ ts ↦ some (record l { peeks = ts }, got t) ])
          unpeeked in
      subst (Reads l k (Behind k)) (sym e) (parse_token-Reads unpeeked)
  next-Reads (one t typed is) =
      let e : next l ≡ some (record l { peeks = [] }, got t) =
        ap (λ ps. elim ps [ [] ↦ parse_token l | t ∷ ts ↦ some (record l { peeks = ts }, got t) ])
          is in
      let count = v.count in
      let w = ap weights is in
      let bound = At-bound l v.offset v.at in
      subst (Reads l k (Behind k)) (sym e) (
        reads t typed refl (
          length l.source - v.offset,
          record {
            offset = v.offset;
            at = At-peeks l v.offset [] v.at;
            text = v.text;
            parsed = v.parsed;
            count = omega arith;
          },
          refl,
          omega arith,
        ))

  Outcome-cases :
      {P : Lexer → Token → Type 0} (r : Option (Lexer × Outcome))
      → Reads l k P r
      → ((l' : Lexer) × (t : Token) × (r ≡ some (l', got t))
          × IsTokenOf l.source t
          × (l'.source ≡ l.source)
          × P l' t)
        ⊎ ((l' : Lexer) × (e : LangError) × (r ≡ some (l', failed e))
            × (l'.source ≡ l.source)
            × Broken k l')
  Outcome-cases r (reads {l' = l'} t typed source h) = inl (l', t, refl, typed, source, h)
  Outcome-cases r (fails {l' = l'} e source h) = inr (l', e, refl, source, h)

  pub peek-Reads : IsAhead l → Reads l k (Peeked k) (peek l 0)
  peek-Reads (nothing unpeeked) =
      elim (Outcome-cases (parse_token l) (parse_token-Reads unpeeked)) [
        | inl (l', t, e, typed, source, behind) ↦
            let (k', ready', left, le) = behind in
            let count = ready'.count in
            let bound = At-bound l' ready'.offset ready'.at in
            let none_left = ap weights left in
            subst (Reads l k (Peeked k)) (sym (peek-eq l l' t unpeeked e left)) (
              reads t typed source (
                k' + weight t,
                record {
                  offset = ready'.offset;
                  at = At-peeks l' ready'.offset (t ∷ []) ready'.at;
                  text = ready'.text;
                  parsed = ready'.parsed;
                  count = omega arith;
                },
                refl,
                omega arith,
                le,
              ))
        | inr (l', e', e, source, broken) ↦
            subst (Reads l k (Peeked k)) (sym (peek-failed l l' e' unpeeked e))
              (fails e' source broken)
      ]
  peek-Reads (one t typed is) =
      let count = v.count in
      let w = ap weights is in
      let bound = At-bound l v.offset v.at in
      subst (Reads l k (Peeked k)) (sym (peek-one l t is))
        (reads t typed refl (k, v, is, omega arith, omega arith))
