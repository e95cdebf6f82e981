-- ===== src/Vm/Slotlist/Tests.antt =====
-- The slot list on an array of three items, and the theorems at such lists.
use nextnucleus.Base.{
  [], ℕ, ◌≡◌, refl, ◌&&◌, none, some, ◌∷◌, arith, ltb, leb, ◌==◌, if◌then◌else◌, ◌>>=◌, ◌∉◌,
}
use nextnucleus.Vm.Links.{link, Store}
use nextnucleus.Vm.Links.Seg.{nil, cons, IsList}
use nextnucleus.Vm.Slotlist.{add_first, remove, traverse}
use nextnucleus.Vm.Slotlist.Laws.{remove-erase, traverse-remove}

abbrev blank : Store
blank t = if ltb 0 t && leb t 3 then some (link 0 0) else none

-- 3, 1, 2
abbrev items : Store
items t =
    if t == 3
    then some (link 0 1)
    else if t == 1
    then some (link 3 2)
    else if t == 2
    then some (link 1 0)
    else none

items-IsList : IsList items 3 (3 ∷ 1 ∷ 2 ∷ [])
items-IsList = cons (link 0 1) (omega arith) refl refl refl refl (
    cons (link 3 2) (omega arith) refl refl refl refl
      (cons (link 1 0) (omega arith) refl refl refl refl nil))

remove-erase_example :
    (sl' : Store) × (first' : ℕ) × (remove items 3 1 ≡ some (sl', first'))
    × IsList sl' first' (3 ∷ 2 ∷ [])
    × (sl' 1 ≡ items 1)
    × ((t : ℕ) → t ∉ 3 ∷ 1 ∷ 2 ∷ [] → sl' t ≡ items t)
remove-erase_example = remove-erase items 3 1 (3 ∷ 1 ∷ 2 ∷ []) items-IsList refl

traverse-remove_example :
    (remove items 3 3 >>= λ (sl', first'). traverse 4 sl' first') ≡ some (1 ∷ 2 ∷ [])
traverse-remove_example =
    traverse-remove items 3 3 (3 ∷ 1 ∷ 2 ∷ []) 4 items-IsList refl (omega arith)

-- The same by evaluation, and a list built by additions.
built :
    (do
      (a, f) ← add_first blank 0 2
      (b, g) ← add_first a f 1
      (c, h) ← add_first b g 3
      traverse 9 c h)
    ≡ some (3 ∷ 1 ∷ 2 ∷ [])
unfolding add_first traverse
built = refl

removed : (remove items 3 3 >>= λ (sl', first'). traverse 4 sl' first') ≡ some (1 ∷ 2 ∷ [])
unfolding remove traverse
removed = refl
