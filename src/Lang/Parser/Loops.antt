-- ===== src/Lang/Parser/Loops.antt =====
-- nucleus/lang/parser.h: a loop of the parser ends, since each round that goes on takes a token.
use nextnucleus.Base.{ℕ, zero, suc, ◌+◌, ◌≤◌, ◌<◌, ap, arith, length}
use nextnucleus.Lang.Action.{Reply, done, Next, again, stop, rounds}
use nextnucleus.Lang.Lexer.{Lexer}
use nextnucleus.Lang.Lexer.Parse.Ready.{IsReady, IsAhead, nothing, one, weights, weight}
use nextnucleus.Lang.Parser.{Parser, M, forever}
use nextnucleus.Lang.Parser.Post.{IsGood, Went, Went-trans, Post, ends, Post-bind, Post-map}

-- What a round comes to: the next one has an invariant and fewer tokens, or the loop ends.
abbrev pub Goes :
    {R T : Type 0}
    → ℕ
    → Parser
    → ℕ
    → (R → Parser → Type 0)
    → (T → Parser → Type 0)
    → Next R T
    → Parser
    → Type 0
Goes c p k I Q (again r) q = (j : ℕ) × Went c p j q × (j < k) × I r q
Goes c p k I Q (stop t) q = (j : ℕ) × Went c p j q × (j ≤ k) × Q t q

-- The fuel of a loop is more than the tokens that are left.
pub ready-left : (l : Lexer) (k : ℕ) → IsReady l k → IsAhead l → k < length l.source + 2
ready-left l k v (nothing e) = let n = v.count in let w = ap weights e in omega arith
ready-left l k v (one t typed e) =
    let n = v.count in let w = ap weights e in let b : weight t ≤ 1 = ground arith in omega arith

module _ {R T : Type 0} (c : ℕ) (I : R → Parser → Type 0) (Q : T → Parser → Type 0)
    (body : R → M (Next R T))
    (run : (r : R) (p : Parser) (k : ℕ)
      → IsGood p k
      → I r p
      → Post (Goes c p k I Q) (body r p)) where
  after-round :
      (rest : R → M T) (p : Parser) (k : ℕ) (a : Next R T) (q : Parser)
      → Goes c p k I Q a q
      → ((r : R) (s : Parser) (j : ℕ)
          → IsGood s j
          → I r s
          → j < k
          → Post (λ t u. (i : ℕ) × Went c s i u × (i ≤ j) × Q t u) (rest r s))
      → Post
          (λ t u. (j : ℕ) × Went c p j u × (j ≤ k) × Q t u)
          (elim a as (λ _. Reply Parser T) [ again r ↦ rest r q | stop t ↦ done t q ])
  after-round rest p k (again r) q (j, w, lt, i) go =
      Post-map (go r q j w.good i lt)
        λ t u (j', w', le, end). (j', Went-trans (omega arith) (omega arith) w w', omega arith, end)
  after-round rest p k (stop t) q (j, w, le, end) go = ends (j, w, le, end)

  rounds-Post :
      (fuel : ℕ) (r : R) (p : Parser) (k : ℕ)
      → k < fuel
      → IsGood p k
      → I r p
      → Post (λ t q. (j : ℕ) × Went c p j q × (j ≤ k) × Q t q) (rounds fuel body r p)
  unfolding rounds
  rounds-Post zero r p k h v i = absurd (omega arith)
  rounds-Post (suc fuel) r p k h v i = Post-bind (run r p k v i) λ a q g.
      after-round (rounds fuel body) p k a q g
        λ r' s j v' i' lt. rounds-Post fuel r' s j (omega arith) v' i'

  pub forever-Post :
      (r : R) (p : Parser) (k : ℕ)
      → IsGood p k
      → I r p
      → Post (λ t q. (j : ℕ) × Went c p j q × (j ≤ k) × Q t q) (forever body r p)
  unfolding forever
  forever-Post r p k v i =
      let at_left : IsGood p v.left = record {
        left = v.left;
        ready = v.ready;
        ahead = v.ahead;
        le = omega arith;
        sound = v.sound;
      } in
      Post-map
        (rounds-Post (length p.lexer.source + 2) r p v.left
          (ready-left p.lexer v.left v.ready v.ahead) at_left i)
        λ t q (j, w, le, h). let x = v.le in (j, w, omega arith, h)
