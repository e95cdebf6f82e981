-- ===== src/Vm/ObjList/Remove.antt =====
-- A removal from the object list takes a node out and keeps it to be used again.
use nextnucleus.Base.{
  ◌>>=◌, [], ℕ, ◌+◌, ◌<◌, ◌≡◌, refl, sym, ap, subst, ◌∙◌, ◌≢◌, some, List, ◌∷◌, ◌++◌, arith, ◌==◌,
  if◌then◌else◌, has, ◌∈◌, ◌∉◌, has-append, erase, has-split, erase_middle, u64_mod,
}
use mathlib.Core.List.{append-nil}
use nextnucleus.Vm.Links.{Link, link, Store, update}
use nextnucleus.Vm.Links.Seg.{IsList, frame, last_or, last_or-mem}
use nextnucleus.Vm.Links.Unlink.{unlink_lem, first_without}
use nextnucleus.Vm.ObjList.{ObjList, header_size, object_from_header, remove}
use nextnucleus.Vm.ObjList.Free.{FreeList, more, FreeList-frame, IsValid}
use nextnucleus.Vm.ObjList.Pointer.{header-object, object_pos}

last_or-cons : (b r : ℕ) (ls rs : List ℕ) → last_or b (ls ++ r ∷ rs) ≡ last_or r rs
last_or-cons b r [] rs = refl
last_or-cons b r (l ∷ ls) rs = last_or-cons l r ls rs

-- The last node of a list without one of its nodes.
head_without :
    (h : ℕ) (ls rs : List ℕ)
    → h ∉ rs
    → (if last_or 0 (ls ++ h ∷ rs) == h then last_or 0 ls else last_or 0 (ls ++ h ∷ rs))
      ≡ last_or 0 (ls ++ rs)
head_without h ls [] out = rw (last_or-cons 0 h ls [], append-nil) (ground arith)
head_without h ls (r ∷ rs) out =
    rw (last_or-cons 0 h ls (r ∷ rs), last_or-cons 0 r ls rs)
      (ground (arith, last_or-mem r rs, ap (λ x. has x (r ∷ rs)) {x = last_or r rs} {y = h}))

module _ {m m₁ : Store} {list : ObjList} (ls rs fs : List ℕ) (h : ℕ) (l : Link)
    (v : IsValid m list (ls ++ h ∷ rs) fs) (out : h ∉ ls) (out' : h ∉ rs)
    (others : (t : ℕ) → t ∉ ls → t ∉ rs → m₁ t ≡ m t) where
  -- A store that differs from the unlinked one at the node alone.
  abbrev RecycledAt : Store → Type 0
  RecycledAt m₃ = (t : ℕ) → t ≢ h → m₃ t ≡ m₁ t

  FreeList-removed :
      {m₃ : Store} → RecycledAt m₃ → h ≢ 0 → m₃ h ≡ some (link 0 list.free) → FreeList m₃ h (h ∷ fs)
  FreeList-removed at nz now =
      let gone = v.apart h (ground (arith, has-append h ls (h ∷ rs))) in
      more (link 0 list.free) nz now refl gone (
        FreeList-frame v.recycled λ t j.
          let ne : t ≢ h = λ e. ground (arith, ap (λ x. has x fs) e) in
          at t ne
          ∙ others t (ground (arith, v.apart t, has-append t ls (h ∷ rs)))
              (ground (arith, v.apart t, has-append t ls (h ∷ rs))))

  IsList-removed :
      {m₃ : Store} {p : ℕ} → RecycledAt m₃ → IsList m₁ p (ls ++ rs) → IsList m₃ p (ls ++ rs)
  IsList-removed at left =
      frame left λ t j. at t (λ e. ground (arith, has-append h ls rs, ap (λ x. has x (ls ++ rs)) e))

  apart-removed : (t : ℕ) → t ∈ ls ++ rs → t ∉ h ∷ fs
  apart-removed t j = ground (
    arith,
    v.apart t,
    has-append t ls (h ∷ rs),
    has-append t ls rs,
    has-append h ls rs,
    ap (λ x. has x (ls ++ rs)) {x = t} {y = h},
  )

remove-append :
    (m : Store) (list : ObjList) (ls rs fs : List ℕ) (h : ℕ)
    → IsValid m list (ls ++ h ∷ rs) fs
    → h + header_size < u64_mod
    → (m' : Store) × (list' : ObjList) × (remove m list (object_from_header h) ≡ some (m', list'))
      × IsValid m' list' (ls ++ rs) (h ∷ fs)
unfolding remove
remove-append m list ls rs fs h v le =
    let (l, m₁, at, nz, runs, left, prev, now, out, out', others) =
      unlink_lem list.first h ls rs v.chain in
    let m₂ = update m₁ h (record l { next = list.free }) in
    let m₃ = update m₂ h (link 0 list.free) in
    let same = λ (t : ℕ) (ne : t ≢ h). let q : m₃ t ≡ m₁ t = ground arith in q in
    (
      m₃,
      record list {
        first = first_without list.first h l;
        head = if list.head == h then l.prev else list.head;
        free = h;
      },
      rw (header-object h le, at, ◌>>=◌, runs) (ground (arith, object_pos h nz le)),
      record {
        chain = IsList-removed ls rs fs h l v out out' others same left;
        last = rw (prev, v.last) (head_without h ls rs out');
        recycled = FreeList-removed ls rs fs h l v out out' others same nz (ground arith);
        apart = apart-removed ls rs fs h l v out out' others;
      },
    )

-- In a well-formed list, removing the object of a node of the list, whose address does not wrap
-- around, takes the node out of the list, puts it in front of the removed nodes, and leaves a
-- well-formed list.
pub remove-IsValid :
    (m : Store) (list : ObjList) (xs fs : List ℕ) (h : ℕ)
    → IsValid m list xs fs
    → h ∈ xs
    → h + header_size < u64_mod
    → (m' : Store) × (list' : ObjList) × (remove m list (object_from_header h) ≡ some (m', list'))
      × IsValid m' list' (erase xs h) (h ∷ fs)
remove-IsValid m list xs fs h v i le =
    let (ls, rs, e, out) = has-split xs h i in
    let (m', list', runs, w) =
      remove-append m list ls rs fs h (subst (λ x. IsValid m list x fs) e v) le in
    let rest : erase xs h ≡ ls ++ rs = ap (λ x. erase x h) e ∙ erase_middle ls rs h out in
    (m', list', runs, subst (λ x. IsValid m' list' x (h ∷ fs)) (sym rest) w)
