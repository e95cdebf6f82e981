-- ===== src/Lang/Ast/Loop.antt =====
-- The rounds of nulang__ast_foreach_childs in nucleus/lang/ast.h.
use nextnucleus.Base.{ℕ, suc, ◌≡◌, refl, ◌≢◌, some, arith}
use nextnucleus.Lang.Action.{
  Action, Reply, done, raised, fault, exhausted, bind, again, stop, rounds,
}
use nextnucleus.Lang.Ast.{Ast, iter_childs, node_null}
use nextnucleus.Lang.Ast.Foreach.{child_round}

module _ {S : Type 0} (tree : S → Ast) (callback : ℕ → Action S (Unit {0})) (parent : ℕ) where
  again-eq :
      (fuel c : ℕ) (reply : Reply S (Unit {0}))
      → bind (bind reply (λ _ s. done (again c) s)) (λ a s. elim a [
        | again r ↦ rounds fuel (child_round tree callback parent) r s
        | stop t ↦ done t s
      ])
        ≡ bind reply (λ _ s. rounds fuel (child_round tree callback parent) c s)
  again-eq fuel c (done tt s) = refl
  again-eq fuel c (raised e s) = refl
  again-eq fuel c fault = refl
  again-eq fuel c exhausted = refl

  child_round-again :
      (child c : ℕ) (s : S)
      → iter_childs (tree s) parent child ≡ some c
      → c ≢ node_null
      → child_round tree callback parent child s ≡ bind (callback c s) (λ _ q. done (again c) q)
  unfolding child_round
  child_round-again child c s at nz = ground arith

  pub rounds-again :
      (fuel child c : ℕ) (s : S)
      → iter_childs (tree s) parent child ≡ some c
      → c ≢ node_null
      → rounds (suc fuel) (child_round tree callback parent) child s
        ≡ bind (callback c s) (λ _ s'. rounds fuel (child_round tree callback parent) c s')
  unfolding rounds
  rounds-again fuel child c s at nz =
      rw (child_round-again child c s at nz) (again-eq fuel c (callback c s))

  pub rounds-stop :
      (fuel child : ℕ) (s : S)
      → iter_childs (tree s) parent child ≡ some node_null
      → rounds (suc fuel) (child_round tree callback parent) child s ≡ done tt s
  unfolding rounds child_round
  rounds-stop fuel child s at = ground arith
