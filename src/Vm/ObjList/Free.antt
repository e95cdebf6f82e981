-- ===== src/Vm/ObjList/Free.antt =====
-- The list of removed nodes, and the invariant of the object list.
use nextnucleus.Base.{[], ℕ, ◌≡◌, refl, ◌∙◌, ◌≢◌, some, List, ◌∷◌, arith, ◌∈◌, ◌∉◌}
use nextnucleus.Vm.Links.{Link, Store}
use nextnucleus.Vm.Links.Seg.{IsList, last_or}
use nextnucleus.Vm.ObjList.{ObjList}

-- From `p` the `next` pointers lead through the distinct nodes of the list to 0.
pub data FreeList (m : Store) : ℕ → List ℕ → Type 0 where
  end : FreeList m 0 []
  more :
      {p q : ℕ} {fs : List ℕ} (l : Link)
      → p ≢ 0
      → m p ≡ some l
      → l.next ≡ q
      → p ∉ fs
      → FreeList m q fs
      → FreeList m p (p ∷ fs)

module _ {m : Store} where
  pub FreeList-nil_inv : {p : ℕ} → FreeList m p [] → p ≡ 0
  FreeList-nil_inv end = refl

  pub FreeList-cons_inv :
      {p f : ℕ} {fs : List ℕ}
      → FreeList m p (f ∷ fs)
      → (p ≡ f) × (l : Link) × (f ≢ 0) × (m f ≡ some l) × (f ∉ fs) × FreeList m l.next fs
  FreeList-cons_inv (more l nz at next out rest) = (refl, l, nz, at, out, rw next rest)

  pub FreeList-frame :
      {m' : Store} {p : ℕ} {fs : List ℕ}
      → FreeList m p fs
      → ((t : ℕ) → t ∈ fs → m' t ≡ m t)
      → FreeList m' p fs
  FreeList-frame end same = end
  FreeList-frame (more {p = p} l nz at next out rest) same =
      more l nz (same p (ground arith) ∙ at) next out
        (FreeList-frame rest λ t i. same t (ground arith))

-- The nodes of the objects, in order, and the nodes to be used again.
pub record IsValid (m : Store) (list : ObjList) (xs fs : List ℕ) : Type 0 where
  pub chain : IsList m list.first xs
  pub last : list.head ≡ last_or 0 xs
  pub recycled : FreeList m list.free fs
  pub apart : (t : ℕ) → t ∈ xs → t ∉ fs
