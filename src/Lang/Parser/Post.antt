-- ===== src/Lang/Parser/Post.antt =====
-- nucleus/lang/parser.h: what the operations of the parser on tokens and on nodes keep.
use nextnucleus.Base.{
  ℕ, ◌+◌, ◌≤◌, ◌<◌, ◌≡◌, refl, sym, ap, subst, ◌∙◌, ◌⊎◌, inl, inr, Bool, true, false, not, Option,
  none, some, [], ◌∷◌, arith, leb, if◌then◌else◌, leb→le, Bool-cases,
}
use nextnucleus.Lang.Token.{Token, TokenType, LangError, t_eof}
use nextnucleus.Lang.Action.{Reply, done, raised, bind}
use nextnucleus.Lang.Lexer.{Lexer}
use nextnucleus.Lang.Lexer.Scan.{Outcome, got}
use nextnucleus.Lang.Lexer.Parse.{next, peek, parse_token}
use nextnucleus.Lang.Lexer.Parse.Typed.{IsTyped}
use nextnucleus.Lang.Lexer.Parse.Ready.{
  Follows, unmoved, taken, seen, Follows-trans, weight, IsReady, IsAhead, IsTokenOf, nothing, one,
  Reads, reads, fails, Peeked, Behind, next-Reads, peek-Reads,
}
use nextnucleus.Lang.Ast.Tables.{same_token}
use nextnucleus.Lang.Ast.Sound.{IsSound, IsGrown, IsGrown-refl, IsGrown-trans}
use nextnucleus.Lang.Parser.{
  Parser, M, from_lexer, parser_peek, parser_consume, parser_expect, parser_accept, unexpected,
}

-- The parser is between tokens of which at most `k` are left, and its tree is sound.
pub record IsGood (p : Parser) (k : ℕ) : Type 0 where
  pub left : ℕ
  pub ready : IsReady p.lexer left
  pub ahead : IsAhead p.lexer
  pub le : left ≤ k
  pub sound : IsSound p.ast

-- From `p` on, the nodes below `n` keep their last child, the source is the same and read on in order, and
-- at most `k` tokens are left.
pub record Went (n : ℕ) (p : Parser) (k : ℕ) (q : Parser) : Type 0 where
  pub good : IsGood q k
  pub grown : IsGrown n p.ast q.ast
  pub source : q.lexer.source ≡ p.lexer.source
  pub read : Follows p.lexer q.lexer

pub Went-trans :
    {n m l j k : ℕ} {p q r : Parser} → n ≤ m → n ≤ l → Went m p j q → Went l q k r → Went n p k r
Went-trans le le' v w = record {
  good = w.good;
  grown = IsGrown-trans le le' v.grown w.grown;
  source = w.source ∙ v.source;
  read = Follows-trans v.read w.read;
}

pub Went-below : {n m k : ℕ} {p q : Parser} → n ≤ m → Went m p k q → Went n p k q
Went-below le w = record {
  good = w.good;
  grown = record {
    sound = w.grown.sound;
    count = w.grown.count;
    same = λ id n lt at. w.grown.same id n (omega arith) at;
  };
  source = w.source;
  read = w.read;
}

pub Went-then : {n j k : ℕ} {p q r : Parser} → Went n p j q → Went n q k r → Went n p k r
Went-then v w = Went-trans (omega arith) (omega arith) v w

pub Went-refl : (n : ℕ) (p : Parser) (k : ℕ) → IsGood p k → Went n p k p
Went-refl n p k v = record {
  good = v;
  grown = IsGrown-refl n p.ast v.sound;
  source = refl;
  read = unmoved;
}

-- A run ends with a value of which a predicate holds, or with an error; it neither faults nor is it out
-- of fuel.
pub data Post {A : Type 0} (Q : A → Parser → Type 0) : Reply Parser A → Type 0 where
  ends : {a : A} {q : Parser} → Q a q → Post Q (done a q)
  stops : {e : LangError} {q : Parser} → Post Q (raised e q)

pub Post-bind :
    {A B : Type 0} {P : A → Parser → Type 0} {Q : B → Parser → Type 0} {x : Reply Parser A}
    {f : A → M B}
    → Post P x
    → ((a : A) (q : Parser) → P a q → Post Q (f a q))
    → Post Q (bind x f)
Post-bind (ends {a = a} {q = q} h) go = go a q h
Post-bind stops go = stops

-- A weaker predicate.
pub Post-map :
    {A : Type 0} {P Q : A → Parser → Type 0} {x : Reply Parser A}
    → Post P x
    → ((a : A) (q : Parser) → P a q → Q a q)
    → Post Q x
Post-map (ends {a = a} {q = q} h) go = ends (go a q h)
Post-map stops go = stops

pub Post-if :
    {A : Type 0} {Q : A → Parser → Type 0} (b : Bool) (f g : M A) {q : Parser}
    → (b ≡ true → Post Q (f q))
    → (b ≡ false → Post Q (g q))
    → Post Q ((if b then f else g) q)
Post-if true f g h k = h refl
Post-if false f g h k = k refl

pub Post-done :
    {A : Type 0} {Q : A → Parser → Type 0} {a : A} {q : Parser} → Post Q (done a q) → Q a q
Post-done (ends h) = h

-- The two ends of such a run.
pub Post-cases :
    {A : Type 0} {Q : A → Parser → Type 0} (x : Reply Parser A)
    → Post Q x
    → ((a : A) × (q : Parser) × (x ≡ done a q) × Q a q)
      ⊎ ((e : LangError) × (q : Parser) × (x ≡ raised e q))
Post-cases x (ends {a = a} {q = q} h) = inl (a, q, refl, h)
Post-cases x (stops {e = e} {q = q}) = inr (e, q, refl)

pub weight-type :
    (t : Token) (type : TokenType) → t.type ≡ type → same_token type t_eof ≡ false → weight t ≡ 1
weight-type t type e real =
    let h : same_token t.type t_eof ≡ false = ap (λ x. same_token x t_eof) e ∙ real in ground arith

pub same_token-eq : (a b : TokenType) → same_token a b ≡ true → a ≡ b
unfolding same_token
same_token-eq a b h = ground arith

pub weaken : {k : ℕ} (n : ℕ) (p : Parser) (j : ℕ) (q : Parser) → Went n p j q → j ≤ k → Went n p k q
weaken n p j q w le =
    let x = w.good.le in
    record {
      good = record {
        left = w.good.left;
        ready = w.good.ready;
        ahead = w.good.ahead;
        le = omega arith;
        sound = w.good.sound;
      };
      grown = w.grown;
      source = w.source;
      read = w.read;
    }

pub relax : {k l : ℕ} (p : Parser) → IsGood p k → k ≤ l → IsGood p l
relax p v le =
    let x = v.le in
    record { left = v.left; ready = v.ready; ahead = v.ahead; le = omega arith; sound = v.sound }

-- Two bounds on the tokens that are left, and the lower one.
pub both :
    {k l : ℕ} (p : Parser) → IsGood p k → IsGood p l → (m : ℕ) × IsGood p m × (m ≤ k) × (m ≤ l)
both p v w = elim (Bool-cases (leb v.left w.left)) [
  | inl h ↦
      (let x = w.le in
        let y = leb→le v.left w.left h in
        (
          v.left,
          record {
            left = v.left;
            ready = v.ready;
            ahead = v.ahead;
            le = omega arith;
            sound = v.sound;
          },
          v.le,
          omega arith,
        ))
  | inr h ↦
      (let x = v.le in
        let y : w.left ≤ v.left = ground arith in
        (
          w.left,
          record {
            left = w.left;
            ready = w.ready;
            ahead = w.ahead;
            le = omega arith;
            sound = v.sound;
          },
          omega arith,
          w.le,
        ))
]

module _ (n : ℕ) (p : Parser) (k : ℕ) (v : IsGood p k) where
  -- Another lexer, between the same tokens or fewer.
  pub of_lexer :
      (l : Lexer) (j : ℕ)
      → IsReady l j
      → IsAhead l
      → l.source ≡ p.lexer.source
      → Follows p.lexer l
      → Went n p j (record p { lexer = l })
  of_lexer l j ready ahead source follows = record {
    good = record { left = j; ready = ready; ahead = ahead; le = omega arith; sound = v.sound };
    grown = IsGrown-refl n p.ast v.sound;
    source = source;
    read = follows;
  }

  pub parser_consume-Post :
      Post
        (λ t q. IsTyped t × (j : ℕ) × Went n p j q × (q.ast ≡ p.ast) × (j + weight t ≤ k))
        (parser_consume p)
  unfolding parser_consume
  parser_consume-Post = step (next p.lexer) refl (next-Reads p.lexer v.left v.ready v.ahead)
    where
      step :
          (r : Option (Lexer × Outcome))
          → next p.lexer ≡ r
          → Reads p.lexer v.left (Behind v.left) r
          → Post
              (λ t q. IsTyped t × (j : ℕ) × Went n p j q × (q.ast ≡ p.ast) × (j + weight t ≤ k))
              (from_lexer r p)
      step r e (reads {l' = l'} t typed source (j, ready, left, le)) =
          let x = v.le in
          ends (
            typed.typed,
            j,
            of_lexer l' j ready (nothing left) source (taken unmoved e),
            refl,
            omega arith,
          )
      step r e (fails err source broken) = stops

  pub parser_peek-Post :
      Post
        (λ t q.
          IsTyped t
          × (q.lexer.peeks ≡ t ∷ [])
          × (j : ℕ) × Went n p j q
          × (q.ast ≡ p.ast)
          × (weight t ≤ j)
          × (j ≤ k))
        (parser_peek p)
  unfolding parser_peek
  parser_peek-Post = step (peek p.lexer 0) refl (peek-Reads p.lexer v.left v.ready v.ahead)
    where
      step :
          (r : Option (Lexer × Outcome))
          → peek p.lexer 0 ≡ r
          → Reads p.lexer v.left (Peeked v.left) r
          → Post
              (λ t q.
                IsTyped t
                × (q.lexer.peeks ≡ t ∷ [])
                × (j : ℕ) × Went n p j q
                × (q.ast ≡ p.ast)
                × (weight t ≤ j)
                × (j ≤ k))
              (from_lexer r p)
      step r e (reads {l' = l'} t typed source (j, ready, is, low, le)) =
          let x = v.le in
          let token = subst (λ s. IsTokenOf s t) (sym source) typed in
          ends (
            typed.typed,
            is,
            j,
            of_lexer l' j ready (one t token is) source (seen unmoved e),
            refl,
            low,
            omega arith,
          )
      step r e (fails err source broken) = stops

-- The token that was peeked is the next one.
pub consume-peeked-eq :
    (p : Parser) (t : Token)
    → p.lexer.peeks ≡ t ∷ []
    → parser_consume p ≡ done t (record p { lexer = record p.lexer { peeks = [] } })
unfolding parser_consume next
consume-peeked-eq p t is =
    let e : next p.lexer ≡ some (record p.lexer { peeks = [] }, got t) =
      ap
        (λ ps. elim ps [
          | [] ↦ parse_token p.lexer
          | t ∷ ts ↦ some (record p.lexer { peeks = ts }, got t)
        ])
        is in
    ap (λ r. from_lexer r p) e

pub consume-peeked :
    (n : ℕ) (p : Parser) (k : ℕ) (t : Token)
    → IsGood p k
    → p.lexer.peeks ≡ t ∷ []
    → Post
        (λ u q. (u ≡ t) × (j : ℕ) × Went n p j q × (q.ast ≡ p.ast) × (j + weight t ≤ k))
        (parser_consume p)
consume-peeked n p k t v is =
    let e = consume-peeked-eq p t is in
    let (typed, j, w, same, le) = Post-done (subst (Post _) e (parser_consume-Post n p k v)) in
    subst (Post _) (sym e) (ends (refl, j, w, same, le))

module _ (n : ℕ) (p : Parser) (k : ℕ) (v : IsGood p k) where
  -- A token that is not the end of the source.
  pub parser_expect-Post :
      (type : TokenType)
      → same_token type t_eof ≡ false
      → Post
          (λ t q. IsTyped t × (t.type ≡ type) × (j : ℕ) × Went n p j q × (q.ast ≡ p.ast) × (j < k))
          (parser_expect type p)
  unfolding parser_expect unexpected
  parser_expect-Post type real =
      Post-bind (parser_consume-Post n p k v) λ t q (typed, j, w, tree, le).
        Post-if (not (same_token t.type type)) _ _ (λ _. stops)
          λ h.
            let is = same_token-eq t.type type (ground arith) in
            let one_less = weight-type t type is real in ends (typed, is, j, w, tree, omega arith)

  pub parser_accept-Post :
      (type : TokenType)
      → same_token type t_eof ≡ false
      → Post
          (λ o q.
            ((o ≡ none) × Went n p k q)
            ⊎ ((t : Token) × (j : ℕ) × (o ≡ some t)
                × IsTyped t
                × (t.type ≡ type)
                × Went n p j q
                × (j < k)))
          (parser_accept type p)
  unfolding parser_accept
  parser_accept-Post type real =
      Post-bind (parser_peek-Post n p k v) λ t q (typed, is, j, w, tree, low, le).
        Post-if (same_token t.type type) _ _
          (λ h.
            let same = same_token-eq t.type type h in
            let one_less = weight-type t type same real in
            Post-bind (consume-peeked n q j t w.good is) λ u r (e, i, w', tree', le').
              let is_typed = subst IsTyped (sym e) typed in
              let is_type = ap (λ (x : Token). x.type) e ∙ same in
              ends (
                inr (
                  u,
                  i,
                  refl,
                  is_typed,
                  is_type,
                  Went-trans (omega arith) (omega arith) w w',
                  omega arith,
                )))
          (λ h. ends (inl (refl, weaken n p j q w le)))

-- What nulang__parser_accept answers: no token, or one of the type, which is taken.
abbrev pub Accepted : ℕ → Parser → ℕ → TokenType → Option Token → Parser → Type 0
Accepted n p k type none q = Went n p k q
Accepted n p k type (some t) q = (j : ℕ) × IsTyped t × (t.type ≡ type) × Went n p j q × (j < k)

pub accept-Post :
    (n : ℕ) (p : Parser) (k : ℕ)
    → IsGood p k
    → (type : TokenType) → same_token type t_eof ≡ false
    → Post (Accepted n p k type) (parser_accept type p)
accept-Post n p k v type real = Post-map (parser_accept-Post n p k v type real) λ o q h. elim h [
  | inl (e, w) ↦ subst (λ o. Accepted n p k type o q) (sym e) w
  | inr (t, j, e, typed, is, w, less) ↦
      subst (λ o. Accepted n p k type o q) (sym e) (j, typed, is, w, less)
]

pub Post-option :
    {A B : Type 0} {Q : B → Parser → Type 0} (o : Option A) (f : M B) (g : A → M B) (q : Parser)
    → (o ≡ none → Post Q (f q))
    → ((a : A) → o ≡ some a → Post Q (g a q))
    → Post Q ((elim o as (λ _. M B) [ none ↦ f | some a ↦ g a ]) q)
Post-option none f g q h k = h refl
Post-option (some a) f g q h k = k a refl
