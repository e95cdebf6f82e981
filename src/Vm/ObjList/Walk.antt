-- ===== src/Vm/ObjList/Walk.antt =====
-- A client that walks over the object list sees its objects in order.
use nextnucleus.Base.{
  [], ℕ, zero, suc, ◌+◌, ◌<◌, ◌≡◌, not, some, List, ◌∷◌, map, arith, ◌==◌, if◌then◌else◌, length,
  All, u64_mod,
}
use nextnucleus.Vm.Links.{Store}
use nextnucleus.Vm.Links.Seg.{Seg, Seg-cons_inv, eq_of_Seg-nil}
use nextnucleus.Vm.ObjList.{ObjList, header_size, object_from_header, first, traverse}
use nextnucleus.Vm.ObjList.Free.{IsValid}
use nextnucleus.Vm.ObjList.Pointer.{header-object, object_pos}

abbrev pub Fit : List ℕ → Type 0
Fit xs = All (λ h. h + header_size < u64_mod) xs

-- The object of the first node of a segment, or the null pointer.
abbrev object_at : ℕ → ℕ
object_at p = if not (p == 0) then object_from_header p else 0

traverse_lem :
    (m : Store) (fuel : ℕ) (p back : ℕ) (xs : List ℕ)
    → Seg m 0 back p xs
    → Fit xs
    → length xs < fuel
    → traverse fuel m (object_at p) ≡ some (map object_from_header xs)
unfolding traverse
traverse_lem m zero p back xs seg fit h = absurd (omega arith)
traverse_lem m (suc fuel) p back [] seg fit h = let z = eq_of_Seg-nil seg in ground arith
traverse_lem m (suc fuel) p back (x ∷ xs) seg (le, fit) h =
    let (e, l, nz, at, prev, out, rest) = Seg-cons_inv seg in
    let here : object_at p ≡ object_from_header x = ground arith in
    let ih = traverse_lem m fuel l.next x xs rest fit (omega arith) in
    rw here (ground (arith, header-object x le, object_pos x nz le))

-- In a well-formed list whose nodes do not wrap around, a walk from the first object by
-- nu__list_next, with more fuel than nodes, answers the objects of the list in order.
pub traverse-first :
    (m : Store) (list : ObjList) (xs fs : List ℕ) (fuel : ℕ)
    → IsValid m list xs fs
    → Fit xs
    → length xs < fuel
    → traverse fuel m (first list) ≡ some (map object_from_header xs)
unfolding first
traverse-first m list xs fs fuel v fit h = traverse_lem m fuel list.first 0 xs v.chain fit h
