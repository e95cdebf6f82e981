-- ===== src/Vm/Links.antt =====
-- Doubly linked nodes in a store, which nucleus/vm/slotmap.h (the slot list) and nucleus/vm/list.h
-- both use: a node holds the names of the previous and of the next node, and 0 names none.
pub mod Seg
pub mod Unlink
use nextnucleus.Base.{◌>>=◌, ℕ, Option, some, ◌==◌, if◌then◌else◌}

pub record Link : Type 0 where
  pub prev : ℕ
  pub next : ℕ

abbrev pub link : ℕ → ℕ → Link
link p n = record { prev = p; next = n }

-- `none` where there is no node.
abbrev pub Store : Type 0
Store = ℕ → Option Link

unfoldable pub update : Store → ℕ → Link → Store
update m p l a = if a == p then some l else m a

-- `p->next = q` and `p->prev = q`
unfoldable pub set_next : Store → ℕ → ℕ → Option Store
set_next m p q = do l ← m p; some (update m p (record l { next = q }))

unfoldable pub set_prev : Store → ℕ → ℕ → Option Store
set_prev m p q = do l ← m p; some (update m p (record l { prev = q }))

-- Takes a node with the link `l` out of its list: its neighbours are joined.
unfoldable pub unlink : Store → Link → Option Store
unfolding set_next set_prev update
unlink m l = do
  m₁ ← if l.prev == 0 then some m else set_next m l.prev l.next
  if l.next == 0 then some m₁ else set_prev m₁ l.next l.prev
