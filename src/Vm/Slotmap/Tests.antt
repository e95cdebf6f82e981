-- ===== src/Vm/Slotmap/Tests.antt =====
-- Runs of the slot map on a block of three objects, and the theorems at these runs.
use nextnucleus.Base.{
  ◌++◌, [], ℕ, ◌+◌, ◌≤◌, ◌<◌, ◌≡◌, refl, ◌≢◌, none, some, List, ◌∷◌, arith, ◌∈◌, ◌∉◌, IsDistinct,
}
use nextnucleus.Vm.Slotmap.{Cell, Slotmap, cell_at, slot_index, init, add, remove, get}
use nextnucleus.Vm.Slotmap.Session.{
  Reach, here, next, added, Reach_live, Reach_add, Reach_remove-add,
}

abbrev cell : ℕ → Cell
cell l = record { link = l; rest = 7 ∷ 7 ∷ [] }

abbrev block : List Cell
block = cell 0 ∷ cell 9 ∷ cell 0 ∷ []

abbrev map_of : ℕ → List Cell → Slotmap
map_of f cells = record { capacity = 3; free = f; obj_size = 4; cells = cells }

abbrev fresh : List Cell
fresh = cell 2 ∷ cell 3 ∷ cell 4 ∷ []

init_runs : init block 4 3 ≡ some (map_of 1 fresh)
unfolding init
init_runs = refl

add_runs : add (map_of 1 fresh) ≡ some (1, map_of 2 fresh)
unfolding add
add_runs = refl

add_again : add (map_of 2 fresh) ≡ some (2, map_of 3 fresh)
unfolding add
add_again = refl

slot_index_runs : (slot_index 3 ≡ some 2) × (slot_index 0 ≡ none)
unfolding slot_index
slot_index_runs = (refl, refl)

two_live : Reach (map_of 1 fresh) (map_of 3 fresh) (2 ∷ 1 ∷ [])
two_live = next (next here (added add_runs)) (added add_again)

Reach_live_example :
    IsDistinct (2 ∷ 1 ∷ [])
    × (2 ≤ 3)
    × ((s : ℕ) → s ∈ 2 ∷ 1 ∷ [] → (o : ℕ) × (get (map_of 3 fresh) s ≡ some o) × (o + 4 ≤ 12))
    × ((s t : ℕ)
        → s ∈ 2 ∷ 1 ∷ []
        → t ∈ 2 ∷ 1 ∷ []
        → s < t
        → (o : ℕ) × (p : ℕ) × (get (map_of 3 fresh) s ≡ some o)
          × (get (map_of 3 fresh) t ≡ some p)
          × (o + 4 ≤ p))
Reach_live_example =
    Reach_live block 4 3 (omega arith) (omega arith) (omega arith) refl init_runs two_live

Reach_add_example :
    (2 < 3
      → (s : ℕ) × (sm' : Slotmap) × (add (map_of 3 fresh) ≡ some (s, sm'))
        × (s ∉ 2 ∷ 1 ∷ [])
        × (0 < s)
        × (s ≤ 3))
    × (◌≡◌ {A = ℕ} 2 3
        → (behind : List Cell)
        → add (record (map_of 3 fresh) { cells = (map_of 3 fresh).cells ++ behind }) ≡ none)
Reach_add_example =
    Reach_add block 4 3 (omega arith) (omega arith) (omega arith) refl init_runs two_live

Reach_remove-add_example :
    (sm₁ : Slotmap) × (sm₂ : Slotmap) × (remove (map_of 3 fresh) 1 ≡ some sm₁)
    × (add sm₁ ≡ some (1, sm₂))
    × (sm₂.free ≡ 3)
    × ((t : ℕ) → t ≢ 1 → cell_at sm₂.cells t ≡ cell_at fresh t)
Reach_remove-add_example =
    Reach_remove-add block 4 3 (omega arith) (omega arith) (omega arith) refl init_runs two_live 1
      refl
