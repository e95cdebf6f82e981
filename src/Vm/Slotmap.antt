-- ===== src/Vm/Slotmap.antt =====
-- nucleus/vm/slotmap.h, the slot map: a block of `capacity` objects behind a header. A slot is an
-- index plus one, and 0 is the null slot. The free slots form a list that is kept in the objects
-- themselves: the first 16 bits of a free object hold the next free slot. An object is a cell here:
-- these 16 bits, and the bytes behind them.
pub mod Chain
pub mod Valid
pub mod Session
mod Tests
use nextnucleus.Base.{
  ◌>>◌, ℕ, zero, suc, ◌+◌, ◌-◌, ◌*◌, Option, none, some, List, not, ltb, leb, ◌==◌, if◌then◌else◌,
  u16, get_elem?, set, ◌>>=◌, assert,
}

pub record Cell : Type 0 where
  pub link : ℕ
  pub rest : List ℕ

pub record Slotmap : Type 0 where
  pub capacity : ℕ
  pub free : ℕ
  pub obj_size : ℕ
  pub cells : List Cell

-- The object of a slot stands at index `slot - 1`.
abbrev pub cell_at : List Cell → ℕ → Option Cell
cell_at cells zero = none
cell_at cells (suc i) = get_elem? cells i

-- `*(nu__slot_t *)((nu_size_t)data + obj_size * (slot - 1)) = v`
unfoldable pub put_link : List Cell → ℕ → ℕ → Option (List Cell)
put_link cells slot v = do
  c ← cell_at cells slot
  some (set cells (slot - 1) (record c { link = v }))

-- nu_slot_index
unfoldable pub slot_index : ℕ → Option ℕ
slot_index index = do assert (not (index == 0)); some (index - 1)

-- the loop of nu__slotmap_init: `n` rounds are left and `i` is the counter
unfoldable pub init_loop : ℕ → ℕ → List Cell → Option (List Cell)
unfolding put_link
init_loop zero i cells = some cells
init_loop (suc n) i cells = put_link cells (i + 1) (u16 (i + 2)) >>= init_loop n (i + 1)

-- nu__slotmap_init. `block` is the memory that the allocator hands out, with any contents.
unfoldable pub init : List Cell → ℕ → ℕ → Option Slotmap
unfolding init_loop
init block obj_size capacity = do
  assert (leb 2 obj_size)
  assert (ltb 0 capacity)
  cells ← init_loop capacity 0 block
  some (record { capacity = capacity; free = 1; obj_size = obj_size; cells = cells })

-- nu__slotmap_get: the offset of the object behind the header, or the null pointer
unfoldable pub get : Slotmap → ℕ → Option ℕ
get sm slot = if slot == 0 then none else some (sm.obj_size * (slot - 1))

-- nu__slotmap_add
unfoldable pub add : Slotmap → Option (ℕ × Slotmap)
add sm = do
  assert (leb sm.free sm.capacity)
  c ← cell_at sm.cells sm.free
  some (sm.free, record sm { free = c.link })

-- nu__slotmap_remove
unfoldable pub remove : Slotmap → ℕ → Option Slotmap
unfolding put_link
remove sm slot =
    if slot == 0
    then some sm
    else do cells ← put_link sm.cells slot sm.free; some (record sm { cells = cells; free = slot })

-- The owner of a slot writes its object through the pointer that `get` gave.
unfoldable pub write : Slotmap → ℕ → Cell → Slotmap
write sm slot c = record sm { cells = set sm.cells (slot - 1) c }
