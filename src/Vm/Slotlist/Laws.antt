-- ===== src/Vm/Slotlist/Laws.antt =====
-- The slot list implements a list without repetition.
use nextnucleus.Base.{
  [], ℕ, zero, suc, ◌+◌, ◌<◌, ◌≡◌, refl, sym, ap, ◌∙◌, ◌≢◌, ◌&&◌, some, List, ◌∷◌, ◌++◌, arith, ltb,
  leb, if◌then◌else◌, ◌>>=◌, length, has, ◌∈◌, ◌∉◌, has-append, erase, length-erase, has-split,
  erase_middle,
}
use nextnucleus.Vm.Links.{Link, link, Store, update}
use nextnucleus.Vm.Links.Seg.{Seg, nil, cons, IsList, Seg-cons_inv, eq_of_Seg-nil, Seg-set_prev}
use nextnucleus.Vm.Links.Unlink.{unlink_lem, first_without}
use nextnucleus.Vm.Slotlist.{init_loop, init, add_first, remove, traverse}

init_loop-eq :
    (n i : ℕ) (sl : Store) (t : ℕ)
    → init_loop n i sl t ≡ (if ltb i t && leb t (i + n) then some (link 0 0) else sl t)
unfolding init_loop update
init_loop-eq zero i sl t = ground arith
init_loop-eq (suc n) i sl t =
    ground (arith, init_loop-eq n (i + 1) (update sl (i + 1) (link 0 0)) t)

-- After initialisation every slot from 1 to the capacity has an item with no neighbours, and the
-- others are unchanged.
pub init-eq :
    (block : Store) (capacity t : ℕ)
    → init block capacity t ≡ (if ltb 0 t && leb t capacity then some (link 0 0) else block t)
unfolding init
init-eq block capacity t = ground (arith, init_loop-eq capacity 0 block t)

-- Adding a slot that has an item, is not null and is not in the list puts it in front, and changes
-- no item outside the list but its own.
pub add_first-cons :
    (sl : Store) (first slot : ℕ) (xs : List ℕ) (item : Link)
    → IsList sl first xs
    → slot ≢ 0
    → slot ∉ xs
    → sl slot ≡ some item
    → (sl' : Store) × (add_first sl first slot ≡ some (sl', slot))
      × IsList sl' slot (slot ∷ xs)
      × ((t : ℕ) → t ∉ slot ∷ xs → sl' t ≡ sl t)
unfolding add_first
add_first-cons sl first slot [] item seg nz out at =
    let z = eq_of_Seg-nil seg in
    let sl₁ = update sl slot (record item { next = 0 }) in
    let sl₂ = update sl₁ slot (link 0 0) in
    (sl₂, ground arith, cons (link 0 0) nz (ground arith) refl refl out nil, λ t u. ground arith)
add_first-cons sl first slot (x ∷ xs) item seg nz out at =
    let (e, l, nz', at', prev, out', rest) = Seg-cons_inv seg in
    let sl₁ = update sl first (record l { prev = slot }) in
    let sl₂ = update sl₁ slot (record item { next = first }) in
    let sl₃ = update sl₂ slot (link 0 first) in
    (
      sl₃,
      ground arith,
      cons (link 0 first) nz (ground arith) refl refl out
          (Seg-set_prev 0 slot first (x ∷ xs) seg (λ k i h. ground arith) (λ t i ne. ground arith)),
      λ t u. ground arith,
    )

-- Removing a slot of the list succeeds and leaves the others in their order; the item of the slot
-- itself and those outside the list are unchanged.
pub remove-erase :
    (sl : Store) (first slot : ℕ) (xs : List ℕ)
    → IsList sl first xs
    → slot ∈ xs
    → (sl' : Store) × (first' : ℕ) × (remove sl first slot ≡ some (sl', first'))
      × IsList sl' first' (erase xs slot)
      × (sl' slot ≡ sl slot)
      × ((t : ℕ) → t ∉ xs → sl' t ≡ sl t)
unfolding remove
remove-erase sl first slot xs seg i =
    let (ls, rs, e, out) = has-split xs slot i in
    let (l, sl', at, nz, runs, left, prev, now, _, _, others) =
      unlink_lem first slot ls rs (rw e at seg) in
    let gone : erase xs slot ≡ ls ++ rs = rw e (erase_middle ls rs slot out) in
    (
      sl',
      first_without first slot l,
      ground arith,
      rw gone left,
      now ∙ sym at,
      λ t u.
          others t (ground (arith, has-append t ls (slot ∷ rs), ap (has t) e))
            (ground (arith, has-append t ls (slot ∷ rs), ap (has t) e)),
    )

-- A client that walks from the first slot by `next` sees the list.
pub traverse_lem :
    (sl : Store) (fuel : ℕ) (first back : ℕ) (xs : List ℕ)
    → Seg sl 0 back first xs
    → length xs < fuel
    → traverse fuel sl first ≡ some xs
unfolding traverse
traverse_lem sl zero first back xs seg h = absurd (omega arith)
traverse_lem sl (suc fuel) first back [] seg h = let z = eq_of_Seg-nil seg in ground arith
traverse_lem sl (suc fuel) first back (x ∷ xs) seg h =
    let (e, l, nz, at, prev, out, rest) = Seg-cons_inv seg in
    ground (arith, traverse_lem sl fuel l.next x xs rest)

-- A walk by nu__slotlist_next after the removal of a slot of the list, with more fuel than slots,
-- answers the list without the slot.
pub traverse-remove :
    (sl : Store) (first slot : ℕ) (xs : List ℕ) (fuel : ℕ)
    → IsList sl first xs
    → slot ∈ xs
    → length xs < fuel
    → (remove sl first slot >>= λ (sl', first'). traverse fuel sl' first') ≡ some (erase xs slot)
traverse-remove sl first slot xs fuel seg i h =
    let (sl', first', runs, left, _, _) = remove-erase sl first slot xs seg i in
    rw runs
      (traverse_lem sl' fuel first' 0 (erase xs slot) left (omega (arith, length-erase xs slot i)))
