-- ===== src/Vm/ObjList/Tests.antt =====
-- The object list on a store of three nodes, and the theorems at such lists.
use nextnucleus.Base.{[], ◌>>=◌, ◌≡◌, refl, none, some, ◌∷◌, map, arith, ◌==◌, if◌then◌else◌}
use nextnucleus.Vm.Links.{link, Store, unlink}
use nextnucleus.Vm.Links.Seg.{nil, cons, IsList}
use nextnucleus.Vm.ObjList.{
  ObjList, object_from_header, header_from_object, init, append, remove, first, traverse,
}
use nextnucleus.Vm.ObjList.Free.{end, more, IsValid}
use nextnucleus.Vm.ObjList.Append.{append-recycle, append-new, append_below}
use nextnucleus.Vm.ObjList.Remove.{remove-IsValid}
use nextnucleus.Vm.ObjList.Walk.{traverse-first}

-- Objects at 100 and 200 in the list, and the one at 300 removed.
abbrev heap : Store
heap t =
    if t == 84
    then some (link 0 184)
    else if t == 184
    then some (link 84 0)
    else if t == 284
    then some (link 0 0)
    else none

abbrev two : ObjList
two = record { size = 24; first = 84; head = 184; free = 284 }

abbrev full : ObjList
full = record { size = 24; first = 84; head = 184; free = 0 }

chain : IsList heap 84 (84 ∷ 184 ∷ [])
chain =
    cons (link 0 184) (omega arith) refl refl refl refl
      (cons (link 84 0) (omega arith) refl refl refl refl nil)

two-IsValid : IsValid heap two (84 ∷ 184 ∷ []) (284 ∷ [])
two-IsValid = record {
  chain = chain;
  last = refl;
  recycled = more (link 0 0) (omega arith) refl refl refl end;
  apart = λ t i. ground arith;
}

full-IsValid : IsValid heap full (84 ∷ 184 ∷ []) []
full-IsValid = record { chain = chain; last = refl; recycled = end; apart = λ t i. refl }

append-recycle_example :
    (m' : Store) × (list' : ObjList) × (append heap two 500
      ≡ some (m', list', object_from_header 284))
    × IsValid m' list' (84 ∷ 184 ∷ 284 ∷ []) []
append-recycle_example = append-recycle (84 ∷ 184 ∷ []) 284 [] 500 two-IsValid

append-new_example :
    (m' : Store) × (list' : ObjList) × (append heap full 300
      ≡ some (m', list', object_from_header (header_from_object 300)))
    × IsValid m' list' (84 ∷ 184 ∷ header_from_object 300 ∷ []) []
unfolding header_from_object
append-new_example =
    append-new (84 ∷ 184 ∷ []) 300 (link 0 0) full-IsValid (omega arith) (omega arith) refl refl

remove-IsValid_example :
    (m' : Store) × (list' : ObjList) × (remove heap two (object_from_header 84) ≡ some (m', list'))
    × IsValid m' list' (184 ∷ []) (84 ∷ 284 ∷ [])
remove-IsValid_example =
    remove-IsValid heap two (84 ∷ 184 ∷ []) (284 ∷ []) 84 two-IsValid refl (omega arith)

traverse-first_example : traverse 5 heap (first two) ≡ some (map object_from_header (84 ∷ 184 ∷ []))
traverse-first_example =
    traverse-first heap two (84 ∷ 184 ∷ []) (284 ∷ []) 5 two-IsValid (omega arith) (omega arith)

append_below_example : append heap full 400 ≡ none
append_below_example =
    append_below heap full (84 ∷ 184 ∷ []) 400 full-IsValid (omega arith) (omega arith) refl

-- By evaluation: an object is removed and the next addition uses its node.
recycled :
    (do (m, l) ← remove heap two 100; (m', l', o) ← append m l 500; traverse 5 m' (first l'))
    ≡ some (200 ∷ 100 ∷ [])
unfolding remove append traverse first unlink
recycled = refl

init_runs : first (init 8) ≡ 0
unfolding first init
init_runs = refl
