-- ===== src/Lang/Action.antt =====
-- The functions of nucleus/lang that return an error code: an action on a state of theirs ends with a
-- value or with an error, or it faults, or the fuel of a loop runs out.
use nextnucleus.Base.{ℕ, zero, suc, Option, none, some}
use nextnucleus.Lang.Token.{LangError}

pub data Reply (S A : Type 0) : Type 0 where
  done : A → S → Reply S A
  raised : LangError → S → Reply S A
  fault : Reply S A
  exhausted : Reply S A

abbrev pub Action : Type 0 → Type 0 → Type 0
Action S A = S → Reply S A

abbrev pub bind : {S A B : Type 0} → Reply S A → (A → Action S B) → Reply S B
bind (done a s) f = f a s
bind (raised e s) f = raised e s
bind fault f = fault
bind exhausted f = exhausted

infixl 5 ◌>>=◌ ◌>>◌
abbrev pub ◌>>=◌ : {S A B : Type 0} → Action S A → (A → Action S B) → Action S B
(m >>= f) s = bind (m s) f

abbrev pub ◌>>◌ : {S A B : Type 0} → Action S A → Action S B → Action S B
m >> k = m >>= λ _. k

abbrev pub pure : {S A : Type 0} → A → Action S A
pure a s = done a s

abbrev pub give_up : {S A : Type 0} → Action S A
give_up s = fault

-- A value that may be missing because of a fault.
abbrev pub or_fault : {S A : Type 0} → Option A → Action S A
or_fault none = give_up
or_fault (some a) = pure a

-- A loop on fuel: its body says if it goes on.
pub data Next (R T : Type 0) : Type 0 where
  again : R → Next R T
  stop : T → Next R T

unfoldable pub rounds : {S R T : Type 0} → ℕ → (R → Action S (Next R T)) → R → Action S T
rounds zero body r s = exhausted
rounds (suc fuel) body r s =
    bind (body r s) λ a q. elim a [ again r' ↦ rounds fuel body r' q | stop t ↦ done t q ]
