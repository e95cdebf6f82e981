-- ===== src/Vm/Slotmap/Session.antt =====
-- Runs of the slot map: the operations in any order, where only live slots are given back or
-- written to. What is proved of every state that a run reaches.
use nextnucleus.Base.{
  ◌++◌, [], ℕ, suc, ◌+◌, ◌-◌, ◌*◌, ◌≤◌, ◌<◌, ◌≡◌, refl, sym, ap, subst, ◌∙◌, ◌≢◌, inl, inr, none,
  some, List, ◌∷◌, arith, length, List-cases, ◌∈◌, ◌∉◌, IsDistinct, erase, u16_mod,
}
use nextnucleus.Vm.Slotmap.{Cell, Slotmap, cell_at, init, add, remove, write, get}
use nextnucleus.Vm.Slotmap.Chain.{slots_from}
use nextnucleus.Vm.Slotmap.Valid.{
  IsValid, init-IsValid, add-cons, add-nil, add-full, remove-cons, write-IsValid,
}

-- A step goes from a map and its live slots to the next map and live slots.
pub data Step : Slotmap → List ℕ → Slotmap → List ℕ → Type 0 where
  added :
      {sm sm' : Slotmap} {live : List ℕ} {s : ℕ}
      → add sm ≡ some (s, sm')
      → Step sm live sm' (s ∷ live)
  removed :
      {sm sm' : Slotmap} {live : List ℕ} (s : ℕ)
      → s ∈ live
      → remove sm s ≡ some sm'
      → Step sm live sm' (erase live s)
  written :
      {sm : Slotmap} {live : List ℕ} (s : ℕ) (c : Cell)
      → s ∈ live
      → Step sm live (write sm s c) live

-- The states that a run reaches from a map with no live slot.
pub data Reach (start : Slotmap) : Slotmap → List ℕ → Type 0 where
  here : Reach start start []
  next :
      {sm sm' : Slotmap} {live live' : List ℕ}
      → Reach start sm live
      → Step sm live sm' live'
      → Reach start sm' live'

-- A valid map with the same dimensions as `start`, for some free list.
abbrev Kept : Slotmap → Slotmap → List ℕ → Type 0
Kept start sm live =
    (free : List ℕ) × IsValid sm live free
    × (sm.capacity ≡ start.capacity)
    × (sm.obj_size ≡ start.obj_size)

added-Kept :
    (start : Slotmap) {sm sm' : Slotmap} {live : List ℕ} (s : ℕ) (free : List ℕ)
    → IsValid sm live free
    → sm.capacity ≡ start.capacity
    → sm.obj_size ≡ start.obj_size
    → add sm ≡ some (s, sm')
    → Kept start sm' (s ∷ live)
added-Kept start s [] v c o e = let full = add-nil v in cc
added-Kept start {sm} {sm'} {live} s (t ∷ free) v c o e =
    let (sm₁, runs, cells, cap, size, v₁) = add-cons v in
    let slots : t ≡ s = cc in
    let maps : sm₁ ≡ sm' = cc in
    subst (λ m. Kept start m (s ∷ live)) maps
      (subst (λ x. Kept start sm₁ (x ∷ live)) slots (free, v₁, cap ∙ c, size ∙ o))

Step-Kept :
    (start : Slotmap) {sm sm' : Slotmap} {live live' : List ℕ}
    → Kept start sm live
    → Step sm live sm' live'
    → Kept start sm' live'
unfolding write
Step-Kept start (free, v, c, o) (added {s = s} e) = added-Kept start s free v c o e
Step-Kept start (free, v, c, o) (removed {sm' = sm'} {live = live} s i e) =
    let (sm₁, w, runs, _, _, _, _, cap, size, v₁) = remove-cons s v i in
    let maps : sm₁ ≡ sm' = cc in
    subst (λ m. Kept start m (erase live s)) maps (s ∷ free, v₁, cap ∙ c, size ∙ o)
Step-Kept start (free, v, c, o) (written s w i) = (free, write-IsValid s w v i, c, o)

Reach-Kept :
    {start sm : Slotmap} {live free : List ℕ}
    → IsValid start [] free
    → Reach start sm live
    → Kept start sm live
Reach-Kept {free = free} v here = (free, v, refl, refl)
Reach-Kept {start} v (next r st) = Step-Kept start (Reach-Kept v r) st

has-range :
    {sm : Slotmap} {live free : List ℕ} (s : ℕ)
    → IsValid sm live free
    → s ∈ live
    → (0 < s) × (s ≤ sm.capacity)
has-range s v i = ground (arith, v.split s)

span : (n s c : ℕ) → 0 < s → s ≤ c → n * (s - 1) + n ≤ n * c
span n s c pos le = let (d, e) : (d : ℕ) × (s ≡ suc d) = (s - 1, omega arith) in grind arith

get-eq-some : (sm : Slotmap) (s : ℕ) → 0 < s → get sm s ≡ some (sm.obj_size * (s - 1))
unfolding get
get-eq-some sm s h = ground arith

add_free :
    (sm : Slotmap) (s : ℕ) {c : Cell} {sm' : Slotmap}
    → cell_at sm.cells s ≡ some c
    → sm.free ≡ s
    → add sm ≡ some (s, sm')
    → sm'.free ≡ c.link
unfolding add
add_free sm s at head runs = ground arith

module _ (block : List Cell) (obj_size capacity : ℕ) (fits : 2 ≤ obj_size) (pos : 0 < capacity)
    (small : capacity + 1 < u16_mod) (sized : length block ≡ capacity) {start sm : Slotmap}
    {live : List ℕ} (begun : init block obj_size capacity ≡ some start)
    (run : Reach start sm live) where
  kept :
      (free : List ℕ) × IsValid sm live free × (sm.capacity ≡ capacity) × (sm.obj_size ≡ obj_size)
  kept =
      let (sm₀, runs, cap, size, v) = init-IsValid block obj_size capacity fits pos small sized in
      let maps : sm₀ ≡ start = cc in
      let (free, w, cap', size') =
        Reach-Kept (subst (λ m. IsValid m [] (slots_from 0 capacity)) maps v) run in
      (
        free,
        w,
        cap' ∙ ap (λ (m : Slotmap). m.capacity) (sym maps) ∙ cap,
        size' ∙ ap (λ (m : Slotmap). m.obj_size) (sym maps) ∙ size,
      )

  -- In every state that additions, removals of live slots and writes reach from an initialised slot
  -- map (object size at least 2, capacity between 1 and 65534), the live slots are distinct and no
  -- more than the capacity, and each of them has its object inside the block, apart from the
  -- objects of the others.
  pub Reach_live :
      IsDistinct live
      × (length live ≤ capacity)
      × ((s : ℕ) → s ∈ live → (o : ℕ) × (get sm s ≡ some o) × (o + obj_size ≤ obj_size * capacity))
      × ((s t : ℕ)
          → s ∈ live
          → t ∈ live
          → s < t
          → (o : ℕ) × (p : ℕ) × (get sm s ≡ some o) × (get sm t ≡ some p) × (o + obj_size ≤ p))
  Reach_live =
      let (free, v, cap, size) = kept in
      (
        v.distinct,
        omega (arith, v.count),
        λ s i.
            let (pos, le) = has-range s v i in
            (
              obj_size * (s - 1),
              rw (← size) (get-eq-some sm s pos),
              span obj_size s capacity pos (omega arith),
            ),
        λ s t i j lt.
            let (pos, le) = has-range s v i in
            (
              obj_size * (s - 1),
              obj_size * (t - 1),
              rw (← size) (get-eq-some sm s pos),
              rw (← size) (get-eq-some sm t (omega arith)),
              span obj_size s (t - 1) pos (omega arith),
            ),
      )

  -- In every state that a run reaches from an initialised slot map, an addition hands out a slot
  -- that is not live and within the capacity if fewer slots than the capacity are live; with as
  -- many live slots as the capacity it does not succeed, whatever objects stand in the memory
  -- behind the block.
  pub Reach_add :
      (length live < capacity
        → (s : ℕ) × (sm' : Slotmap) × (add sm ≡ some (s, sm'))
          × (s ∉ live)
          × (0 < s)
          × (s ≤ capacity))
      × (length live ≡ capacity
          → (behind : List Cell) → add (record sm { cells = sm.cells ++ behind }) ≡ none)
  Reach_add =
      let (free, v, cap, size) = kept in
      elim (List-cases free) [
        | inl e ↦ (
          λ lt. absurd (omega (arith, v.count, ap length e)),
          λ full. add-full (subst (λ f. IsValid sm live f) e v),
        )
        | inr (s, rest, e) ↦
            let w = subst (λ f. IsValid sm live f) e v in
            let (sm', runs, _, _, _, _) = add-cons w in
            let range : (0 < s) × (s ≤ sm.capacity) = ground (arith, w.split s) in
            (
              λ lt. (s, sm', runs, ground (arith, w.apart s), range.0, omega arith),
              λ full. absurd (omega (arith, v.count, ap length e)),
            )
      ]

  -- In every state that a run reaches from an initialised slot map, a live slot can be given back,
  -- the next addition hands that very slot out again, and after the two the free list and every
  -- other object are as before.
  pub Reach_remove-add :
      (s : ℕ)
      → s ∈ live
      → (sm₁ : Slotmap) × (sm₂ : Slotmap) × (remove sm s ≡ some sm₁)
        × (add sm₁ ≡ some (s, sm₂))
        × (sm₂.free ≡ sm.free)
        × ((t : ℕ) → t ≢ s → cell_at sm₂.cells t ≡ cell_at sm.cells t)
  Reach_remove-add s i =
      let (free, v, _, _) = kept in
      let (sm₁, c, gone, at, now, others, head, cap, size, w) = remove-cons s v i in
      let (sm₂, back, cells, _, _, _) = add-cons w in
      (
        sm₁,
        sm₂,
        gone,
        back,
        ground (arith, add_free sm₁ s now head back),
        λ t ne. ap (λ x. cell_at x t) cells ∙ others t ne,
      )
