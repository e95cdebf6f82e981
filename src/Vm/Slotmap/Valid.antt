-- ===== src/Vm/Slotmap/Valid.antt =====
-- The invariant of the slot map, and what each operation does to the free and to the live slots.
use nextnucleus.Base.{
  ◌++◌, [], ℕ, zero, suc, ◌+◌, ◌-◌, ◌≤◌, ◌<◌, ◌≡◌, refl, sym, ◌∙◌, ◌≢◌, ◌&&◌, ◌||◌, none, some,
  List, ◌∷◌, arith, ltb, leb, length, set, length-set, has, ◌∈◌, ◌∉◌, IsDistinct, erase, has-erase,
  length-erase, erase-IsDistinct, u16_mod, u16,
}
use nextnucleus.Vm.Slotmap.{Cell, Slotmap, cell_at, put_link, init_loop, init, add, remove, write}
use nextnucleus.Vm.Slotmap.Chain.{
  Chain, cons, cell_at-set_ne, cell_at-set_self, cell_at_range, cell_at_total, frame-set,
  slots_from, has-slots_from, length-slots_from, Chain-nil, eq_of_Chain-nil, Chain-cons_inv,
}

-- `live` are the slots handed out and not yet given back, `free` those on the free list.
pub record IsValid (sm : Slotmap) (live free : List ℕ) : Type 0 where
  pub chain : Chain sm.cells (suc sm.capacity) sm.free free
  pub sized : length sm.cells ≡ sm.capacity
  pub small : sm.capacity + 1 < u16_mod
  pub distinct : IsDistinct live
  pub apart : (s : ℕ) → s ∈ live → s ∉ free
  pub split : (s : ℕ) → (has s live || has s free) ≡ (ltb 0 s && leb s sm.capacity)
  pub count : length live + length free ≡ sm.capacity

-- What the loop has written up to round `i` is a chain from there to the end.
init_loop-Chain :
    (n i stop : ℕ) (cells : List Cell)
    → i + n ≡ length cells
    → suc (length cells) ≡ stop
    → stop < u16_mod
    → (cells' : List Cell) × (init_loop n i cells ≡ some cells')
      × (length cells' ≡ length cells)
      × ((t : ℕ) → t ≤ i → cell_at cells' t ≡ cell_at cells t)
      × Chain cells' stop (suc i) (slots_from i n)
unfolding init_loop put_link
init_loop-Chain zero i stop cells e f h =
    (cells, refl, refl, λ t _. refl, Chain-nil (suc i) (omega arith))
init_loop-Chain (suc n) i stop cells e f h =
    let (c, at) = cell_at_total cells (suc i) (omega arith) (omega arith) in
    let v = record c { link = u16 (i + 2) } in
    let next = set cells (suc i - 1) v in
    let len = length-set cells (suc i - 1) v in
    let (cells', runs, size, same, chain) =
      init_loop-Chain n (suc i) stop next (omega (arith, len)) (omega (arith, len)) h in
    let plus : i + 1 ≡ suc i = omega arith in
    let kept : cell_at cells' (suc i) ≡ some v =
      same (suc i) (omega arith) ∙ cell_at-set_self cells (suc i) v (omega arith) (omega arith) in
    (
      cells',
      rw (plus, at) runs,
      omega (arith, size, len),
      λ t le. same t (omega arith) ∙ cell_at-set_ne cells (suc i) t v (omega arith) (omega arith),
      cons {c = v} {q = suc (suc i)} kept (omega arith)
          (ground (arith, has-slots_from (suc i) n (suc i))) chain,
    )

-- Initialisation succeeds on a block of as many objects as the capacity, between 1 and 65534, of at
-- least 2 bytes each, with no slot live and every slot free in increasing order.
pub init-IsValid :
    (block : List Cell) (obj_size capacity : ℕ)
    → 2 ≤ obj_size
    → 0 < capacity
    → capacity + 1 < u16_mod
    → length block ≡ capacity
    → (sm : Slotmap) × (init block obj_size capacity ≡ some sm)
      × (sm.capacity ≡ capacity)
      × (sm.obj_size ≡ obj_size)
      × IsValid sm [] (slots_from 0 capacity)
unfolding init
init-IsValid block obj_size capacity h pos small e =
    let (cells, runs, size, same, chain) =
      init_loop-Chain capacity 0 (suc capacity) block (omega arith) (omega arith) (omega arith) in
    (
      record { capacity = capacity; free = 1; obj_size = obj_size; cells = cells },
      ground arith,
      refl,
      refl,
      record {
        chain = chain;
        sized = omega arith;
        small = small;
        distinct = tt;
        apart = λ s i. cc;
        split = λ s. ground (arith, has-slots_from 0 capacity s);
        count = omega (arith, length-slots_from 0 capacity);
      },
    )

module _ {sm : Slotmap} {live : List ℕ} where
  -- With a free slot the head of the free list is handed out.
  pub add-cons :
      {s : ℕ} {free : List ℕ}
      → IsValid sm live (s ∷ free)
      → (sm' : Slotmap) × (add sm ≡ some (s, sm'))
        × (sm'.cells ≡ sm.cells)
        × (sm'.capacity ≡ sm.capacity)
        × (sm'.obj_size ≡ sm.obj_size)
        × IsValid sm' (s ∷ live) free
  unfolding add
  add-cons {s} {free} v =
      let (e, c, at, out, rest) = Chain-cons_inv v.chain in
      let (pos, bound) = cell_at_range sm.cells s at in
      (
        record sm { free = c.link },
        ground arith,
        refl,
        refl,
        refl,
        record {
          chain = rest;
          sized = v.sized;
          small = v.small;
          distinct = (ground (arith, v.apart s), v.distinct);
          apart = λ t i. ground (arith, v.apart t);
          split = λ t. ground (arith, v.split t);
          count = omega (arith, v.count);
        },
      )

  pub add-nil : IsValid sm live [] → add sm ≡ none
  unfolding add
  add-nil v = let e = eq_of_Chain-nil v.chain in ground arith

  -- With no free slot the assertion on the capacity fails, whatever stands behind the block.
  pub add-full :
      IsValid sm live []
      → (behind : List Cell) → add (record sm { cells = sm.cells ++ behind }) ≡ none
  unfolding add
  add-full v behind = let e = eq_of_Chain-nil v.chain in ground arith

  -- A live slot that is given back becomes the head of the free list; no cell but its own changes,
  -- and of its own only the link.
  pub remove-cons :
      {free : List ℕ} (s : ℕ)
      → IsValid sm live free
      → s ∈ live
      → (sm' : Slotmap) × (c : Cell) × (remove sm s ≡ some sm')
        × (cell_at sm.cells s ≡ some c)
        × (cell_at sm'.cells s ≡ some (record c { link = sm.free }))
        × ((t : ℕ) → t ≢ s → cell_at sm'.cells t ≡ cell_at sm.cells t)
        × (sm'.free ≡ s)
        × (sm'.capacity ≡ sm.capacity)
        × (sm'.obj_size ≡ sm.obj_size)
        × IsValid sm' (erase live s) (s ∷ free)
  unfolding remove
  remove-cons {free} s v i =
      let pos : 0 < s = ground (arith, v.split s) in
      let bound : s ≤ sm.capacity = ground (arith, v.split s) in
      let (c, at) = cell_at_total sm.cells s pos (omega (arith, v.sized)) in
      let w = record c { link = sm.free } in
      let cells' = set sm.cells (s - 1) w in
      let now = cell_at-set_self sm.cells s w pos (omega (arith, v.sized)) in
      (
        record sm { cells = cells'; free = s },
        c,
        ground arith,
        at,
        now,
        λ t ne. cell_at-set_ne sm.cells s t w pos (λ e. ne (sym e)),
        refl,
        refl,
        refl,
        record {
          chain = cons {c = w} now refl (v.apart s i) (frame-set s w pos v.chain (v.apart s i));
          sized = length-set sm.cells (s - 1) w ∙ v.sized;
          small = v.small;
          distinct = erase-IsDistinct live s v.distinct;
          apart = λ t j. ground (arith, v.apart t, has-erase live s t v.distinct);
          split = λ t. ground (arith, v.split t, has-erase live s t v.distinct);
          count = omega (arith, v.count, length-erase live s i);
        },
      )

  -- A write to a live object keeps the invariant.
  pub write-IsValid :
      {free : List ℕ} (s : ℕ) (c : Cell)
      → IsValid sm live free
      → s ∈ live
      → IsValid (write sm s c) live free
  unfolding write
  write-IsValid s c v i = record {
    chain = frame-set s c (ground (arith, v.split s)) v.chain (v.apart s i);
    sized = length-set sm.cells (s - 1) c ∙ v.sized;
    small = v.small;
    distinct = v.distinct;
    apart = v.apart;
    split = v.split;
    count = v.count;
  }
