-- ===== src/Vm/Slotlist.antt =====
-- nucleus/vm/slotmap.h, the slot list: doubly linked lists of slots, whose links stand in an array
-- with one item for each slot. The item of slot `s`, at index `s - 1`, is the node `s` of a store;
-- the caller keeps the first slot of each list, and 0 ends a list both ways.
pub mod Laws
mod Tests
use nextnucleus.Base.{
  [], ◌>>=◌, ℕ, zero, suc, ◌+◌, Option, none, some, List, ◌∷◌, ◌==◌, if◌then◌else◌,
}
use nextnucleus.Vm.Links.{Store, link, update, set_next, set_prev, unlink}

-- the loop of nu__slotlist_init: `n` rounds are left and `i` is the counter
unfoldable pub init_loop : ℕ → ℕ → Store → Store
unfolding update
init_loop zero i sl = sl
init_loop (suc n) i sl = init_loop n (i + 1) (update sl (i + 1) (link 0 0))

-- nu__slotlist_init, on the memory that the allocator hands out, with any contents
unfoldable pub init : Store → ℕ → Store
unfolding init_loop
init block capacity = init_loop capacity 0 block

-- nu__slotlist_add_first: the array and the new first slot
unfoldable pub add_first : Store → ℕ → ℕ → Option (Store × ℕ)
unfolding set_next set_prev update
add_first sl first slot = if slot == 0 then some (sl, first) else do
  sl₁ ←
      if first == 0
      then set_next sl slot 0
      else (do s ← set_prev sl first slot; set_next s slot first)
  sl₂ ← set_prev sl₁ slot 0
  some (sl₂, slot)

-- nu__slotlist_remove
unfoldable pub remove : Store → ℕ → ℕ → Option (Store × ℕ)
unfolding unlink
remove sl first slot = if slot == 0 then some (sl, first) else do
  item ← sl slot
  sl₁ ← unlink sl item
  item₁ ← sl₁ slot
  some (sl₁, if first == slot then item₁.next else first)

-- nu__slotlist_next
unfoldable pub next : Store → ℕ → Option ℕ
next sl slot = if slot == 0 then some 0 else do item ← sl slot; some item.next

-- What a client sees that starts at a slot and asks for the next one until it gets 0, in at most
-- `fuel` rounds.
unfoldable pub traverse : ℕ → Store → ℕ → Option (List ℕ)
unfolding next
traverse zero sl slot = none
traverse (suc fuel) sl slot =
    let rest = (do n ← next sl slot; xs ← traverse fuel sl n; some (slot ∷ xs)) in
    if slot == 0 then some [] else rest
