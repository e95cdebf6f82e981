-- ===== src/Lang/Lexer/Parse/Peek.antt =====
-- nucleus/lang/lexer.h: a peek does not change what is read next.
use nextnucleus.Base.{
  ◌>>=◌, [], ℕ, ◌+◌, ◌-◌, ◌≡◌, refl, sym, ap, ◌∙◌, Option, none, some, ◌∷◌, ◌++◌, arith, ltb, ◌>>◌,
  assert, length,
}
use nextnucleus.Vm.Text.Compare.{IsText}
use nextnucleus.Lang.Token.{Token}
use nextnucleus.Lang.Lexer.{Lexer}
use nextnucleus.Lang.Lexer.Laws.{At}
use nextnucleus.Lang.Lexer.Scan.{Outcome, got}
use nextnucleus.Lang.Lexer.Scan.Progress.{IsParsed}
use nextnucleus.Lang.Lexer.Parse.{parse_token, next, fill_peeks, add_peek, max_peeks, peek}
use nextnucleus.Lang.Lexer.Parse.Laws.{parse_token_lem}

first-inj :
    {l m : Lexer} {o r : Outcome} {x : Option (Lexer × Outcome)}
    → x ≡ some (l, o)
    → x ≡ some (m, r)
    → l ≡ m
first-inj h k = cc

fill_peeks-one :
    (l l' : Lexer) (t : Token)
    → parse_token l ≡ some (l', got t)
    → l'.peeks ≡ []
    → fill_peeks 1 l ≡ some (record l' { peeks = t ∷ [] }, none)
unfolding fill_peeks
fill_peeks-one l l' t e left =
    let room : add_peek l' t ≡ some (record l' { peeks = t ∷ [] }) =
      ap (λ ps. assert (ltb (length ps) max_peeks) >> some (record l' { peeks = ps ++ t ∷ [] }))
        left in
    rw (e, ◌>>=◌, room) refl

pub peek-eq :
    (l l' : Lexer) (t : Token)
    → l.peeks ≡ []
    → parse_token l ≡ some (l', got t)
    → l'.peeks ≡ []
    → peek l 0 ≡ some (record l' { peeks = t ∷ [] }, got t)
unfolding peek
peek-eq l l' t unpeeked e left =
    let n : 0 + 1 - length l.peeks ≡ 1 = omega (arith, ap length unpeeked) in
    rw (n, fill_peeks-one l l' t e left) refl

-- With no token peeked, and a token next on a source as in Lang.Lexer.Parse.Laws.parse_token_lem,
-- nulang__lexer_peek answers that token, and nulang__lexer_next then answers it and leaves the
-- lexer as without the peek.
pub next-peek :
    (l : Lexer) (p : ℕ) {l' : Lexer} {t : Token}
    → IsText l.source
    → IsParsed l.source
    → At l p
    → l.peeks ≡ []
    → next l ≡ some (l', got t)
    → (l₁ : Lexer) × (peek l 0 ≡ some (l₁, got t))
      × (l₁.peeks ≡ t ∷ [])
      × (next l₁ ≡ some (l', got t))
unfolding next
next-peek l p {l'} {t} text parsed a unpeeked e =
    let (l₂, o, q, runs, same, _, _) = parse_token_lem l p text parsed a in
    let runs' : parse_token l ≡ some (l', got t) =
      sym (
        ap (λ ps. elim ps [ [] ↦ parse_token l | t ∷ ts ↦ some (record l { peeks = ts }, got t) ])
          unpeeked)
      ∙ e in
    let is : l₂ ≡ l' = first-inj runs runs' in
    let left : l'.peeks ≡ [] = ap (λ x. x.peeks) (sym is) ∙ same.peeks ∙ unpeeked in
    (
      record l' { peeks = t ∷ [] },
      peek-eq l l' t unpeeked runs' left,
      refl,
      ap (λ ps. some (record l' { peeks = ps }, got t)) (sym left),
    )
