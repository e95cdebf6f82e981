-- ===== src/Lang/Parser/Runs.antt =====
-- nucleus/lang/parser.h: what the parser of statements comes to. It faults in front of an `export`,
-- a `for`, a `break` or a `continue`, for which nulang__parse_stmt sets no node.
use nextnucleus.Base.{
  ◌∷◌, [], ℕ, zero, suc, ◌+◌, ◌≤◌, ◌<◌, ◌≡◌, refl, sym, subst, Bool, true, false, Option, none,
  some, arith, if◌then◌else◌, length,
}
use nextnucleus.Lang.Lexer.{Lexer}
use nextnucleus.Lang.Token.{Token, TokenType, LangError}
use nextnucleus.Lang.Token
use nextnucleus.Lang.Action.{Reply, done, raised, fault, bind, Next, again, stop, rounds}
use nextnucleus.Lang.Lexer.Parse.Ready.{Follows, Follows-trans}
use nextnucleus.Lang.Parser.{Parser, M, forever}
use nextnucleus.Lang.Parser.Loops.{Goes, ready-left}
use nextnucleus.Lang.Parser.Post.{IsGood, Went, Went-then, Post, ends, stops}

-- The statements without a node.
unfoldable pub has_no_node : TokenType → Bool
has_no_node Token.t_export = true
has_no_node Token.t_for = true
has_no_node Token.t_break = true
has_no_node Token.t_continue = true
has_no_node _ = false

-- A run ends with a value of which a predicate holds, or with an error, or it faults where calls of
-- the lexer from its start have peeked a token that begins a statement without a node; it is never out
-- of fuel.
pub data Runs {A : Type 0} (start : Lexer) (Q : A → Parser → Type 0) : Reply Parser A → Type 0 where
  returns : {a : A} {q : Parser} → Q a q → Runs start Q (done a q)
  fails : {e : LangError} {q : Parser} → Runs start Q (raised e q)
  sticks :
      (t : Token) (l : Lexer)
      → Follows start l
      → l.peeks ≡ t ∷ []
      → has_no_node t.type ≡ true
      → Runs start Q fault

module _ {start : Lexer} where
  pub of_Post :
      {A : Type 0} {Q : A → Parser → Type 0} {x : Reply Parser A} → Post Q x → Runs start Q x
  of_Post (ends h) = returns h
  of_Post stops = fails

  pub Runs-bind :
      {A B : Type 0} {P : A → Parser → Type 0} {Q : B → Parser → Type 0} {x : Reply Parser A}
      {f : A → M B}
      → Runs start P x
      → ((a : A) (q : Parser) → P a q → Runs start Q (f a q))
      → Runs start Q (bind x f)
  Runs-bind (returns {a = a} {q = q} h) go = go a q h
  Runs-bind fails go = fails
  Runs-bind (sticks t l f h is) go = sticks t l f h is

  -- A step that does not fault.
  pub Runs-step :
      {A B : Type 0} {P : A → Parser → Type 0} {Q : B → Parser → Type 0} {x : Reply Parser A}
      {f : A → M B}
      → Post P x
      → ((a : A) (q : Parser) → P a q → Runs start Q (f a q))
      → Runs start Q (bind x f)
  Runs-step (ends {a = a} {q = q} h) go = go a q h
  Runs-step stops go = fails

  pub Runs-map :
      {A : Type 0} {P Q : A → Parser → Type 0} {x : Reply Parser A}
      → Runs start P x
      → ((a : A) (q : Parser) → P a q → Q a q)
      → Runs start Q x
  Runs-map (returns {a = a} {q = q} h) go = returns (go a q h)
  Runs-map fails go = fails
  Runs-map (sticks t l f h is) go = sticks t l f h is

  pub Runs-if :
      {A : Type 0} {Q : A → Parser → Type 0} (b : Bool) (f g : M A) {q : Parser}
      → (b ≡ true → Runs start Q (f q))
      → (b ≡ false → Runs start Q (g q))
      → Runs start Q ((if b then f else g) q)
  Runs-if true f g h k = h refl
  Runs-if false f g h k = k refl

  pub Runs-option :
      {A B : Type 0} {Q : B → Parser → Type 0} (o : Option A) (f : M B) (g : A → M B) (q : Parser)
      → (o ≡ none → Runs start Q (f q))
      → ((a : A) → o ≡ some a → Runs start Q (g a q))
      → Runs start Q ((elim o as (λ _. M B) [ none ↦ f | some a ↦ g a ]) q)
  Runs-option none f g q h k = h refl
  Runs-option (some a) f g q h k = k a refl

  pub Runs-value :
      {A B : Type 0} {Q : B → Parser → Type 0} {x : Reply Parser A} (f : A → M B) (a : A)
      (q : Parser)
      → x ≡ done a q
      → Runs start Q (f a q)
      → Runs start Q (bind x f)
  Runs-value {Q = Q} f a q e h = subst (λ r. Runs start Q (bind r f)) (sym e) h

-- A loop ends, since each round that goes on takes a token.
module _ {R T : Type 0} (start : Lexer) (c : ℕ) (I : R → Parser → Type 0) (Q : T → Parser → Type 0)
    (body : R → M (Next R T))
    (run : (r : R) (p : Parser) (k : ℕ)
      → Follows start p.lexer
      → IsGood p k
      → I r p
      → Runs start (Goes c p k I Q) (body r p)) where
  after-round :
      (rest : R → M T) (p : Parser) (k : ℕ) (a : Next R T) (q : Parser)
      → Follows start p.lexer
      → Goes c p k I Q a q
      → ((r : R) (s : Parser) (j : ℕ)
          → Follows start s.lexer
          → IsGood s j
          → I r s
          → j < k
          → Runs start (λ t u. (i : ℕ) × Went c s i u × (i ≤ j) × Q t u) (rest r s))
      → Runs start
          (λ t u. (j : ℕ) × Went c p j u × (j ≤ k) × Q t u)
          (elim a as (λ _. Reply Parser T) [ again r ↦ rest r q | stop t ↦ done t q ])
  after-round rest p k (again r) q same (j, w, lt, i) go =
      Runs-map (go r q j (Follows-trans same w.read) w.good i lt)
        λ t u (j', w', le, end). (j', Went-then w w', omega arith, end)
  after-round rest p k (stop t) q same (j, w, le, end) go = returns (j, w, le, end)

  rounds-Runs :
      (fuel : ℕ) (r : R) (p : Parser) (k : ℕ)
      → k < fuel
      → Follows start p.lexer
      → IsGood p k
      → I r p
      → Runs start (λ t q. (j : ℕ) × Went c p j q × (j ≤ k) × Q t q) (rounds fuel body r p)
  unfolding rounds
  rounds-Runs zero r p k h same v i = absurd (omega arith)
  rounds-Runs (suc fuel) r p k h same v i = Runs-bind (run r p k same v i) λ a q g.
      after-round (rounds fuel body) p k a q same g
        λ r' s j same' v' i' lt. rounds-Runs fuel r' s j (omega arith) same' v' i'

  pub forever-Runs :
      (r : R) (p : Parser) (k : ℕ)
      → Follows start p.lexer
      → IsGood p k
      → I r p
      → Runs start (λ t q. (j : ℕ) × Went c p j q × (j ≤ k) × Q t q) (forever body r p)
  unfolding forever
  forever-Runs r p k same v i =
      let at_left : IsGood p v.left = record {
        left = v.left;
        ready = v.ready;
        ahead = v.ahead;
        le = omega arith;
        sound = v.sound;
      } in
      Runs-map
        (rounds-Runs (length p.lexer.source + 2) r p v.left
          (ready-left p.lexer v.left v.ready v.ahead) same at_left i)
        λ t q (j, w, le, h). let x = v.le in (j, w, omega arith, h)
