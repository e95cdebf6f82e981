-- ===== src/Vm/ObjList/Append.antt =====
-- An addition to the object list puts a node at its end.
use nextnucleus.Base.{
  [], ℕ, ◌+◌, ◌-◌, ◌%◌, ◌<◌, ◌≡◌, refl, sym, ap, subst, ◌∙◌, ◌≢◌, inl, inr, none, some, List, ◌∷◌,
  ◌++◌, arith, Option-cases, has, ◌∈◌, ◌∉◌, has-append, u64_mod,
}
use nextnucleus.Vm.Links.{Link, link, Store, update}
use nextnucleus.Vm.Links.Seg.{
  nil, cons, IsList, Seg-set_next, Seg-append, Seg-mem, last_or, last_or-mem,
}
use nextnucleus.Vm.ObjList.{
  ObjList, header_size, object_from_header, header_from_object, take_node, push_node, append,
}
use nextnucleus.Vm.ObjList.Free.{
  FreeList, FreeList-nil_inv, FreeList-cons_inv, FreeList-frame, IsValid,
}

last_or-append : (b x : ℕ) (xs : List ℕ) → last_or b (xs ++ x ∷ []) ≡ x
last_or-append b x [] = refl
last_or-append b x (y ∷ xs) = last_or-append y x xs

-- The list with a node at its end, and what else changes.
record Pushed (m m' : Store) (list list' : ObjList) (xs : List ℕ) (h : ℕ) : Type 0 where
  chain : IsList m' list'.first (xs ++ h ∷ [])
  last : list'.head ≡ h
  free : list'.free ≡ list.free
  others : (t : ℕ) → t ∉ xs → t ≢ h → m' t ≡ m t

push_node-Pushed :
    (m : Store) (list : ObjList) (xs : List ℕ) (h : ℕ) (k : Link)
    → IsList m list.first xs
    → list.head ≡ last_or 0 xs
    → h ≢ 0
    → h ∉ xs
    → m h ≡ some k
    → (m' : Store) × (list' : ObjList) × (push_node m list h ≡ some (m', list'))
      × Pushed m m' list list' xs h
unfolding push_node
push_node-Pushed m list [] h k seg last nz out at =
    let m₁ = update m h (record k { prev = 0 }) in
    let m₂ = update m₁ h (link 0 0) in
    (
      m₂,
      record list { first = h; head = h },
      ground arith,
      record {
        chain = cons (link 0 0) nz (ground arith) refl refl refl nil;
        last = refl;
        free = refl;
        others = λ t u v. ground arith;
      },
    )
push_node-Pushed m list (a ∷ xs) h k seg last nz out at =
    let e = subst (λ x. x ∈ a ∷ xs) (sym last) (last_or-mem a xs) in
    let (pos, l, there) = Seg-mem list.head (a ∷ xs) seg e in
    let m₁ = update m list.head (record l { next = h }) in
    let m₂ = update m₁ h (record k { prev = list.head }) in
    let m₃ = update m₂ h (link list.head 0) in
    let apart : h ≢ list.head = λ q. ground (arith, ap (λ x. has x (a ∷ xs)) (q ∙ last)) in
    (
      m₃,
      record list { head = h },
      ground arith,
      record {
        chain =
            Seg-append (a ∷ xs) (h ∷ []) 0 list.first
              (Seg-set_next h 0 list.first a xs seg
                (λ j q. rw (← last) (ground (arith, rw (← last) at q)))
                (λ t i ne. ground (arith, ap (λ x. has x (a ∷ xs)) {x = t} {y = h})))
              (cons (link list.head 0) nz (ground arith) last refl refl nil)
              (λ t i. ground (arith, ap (λ x. has x (a ∷ xs)) {x = t} {y = h}));
        last = refl;
        free = refl;
        others = λ t u v. ground arith;
      },
    )

-- The invariant once a node has gone from the free list, or from nowhere, to the end.
Pushed-IsValid :
    {m m' : Store} {list list' : ObjList} (xs fs : List ℕ) (h : ℕ)
    → Pushed m m' list list' xs h
    → FreeList m list.free fs
    → ((t : ℕ) → t ∈ xs → t ∉ fs)
    → h ∉ fs
    → IsValid m' list' (xs ++ h ∷ []) fs
Pushed-IsValid xs fs h p free apart out = record {
  chain = p.chain;
  last = rw last_or-append p.last;
  recycled = rw p.free (
      FreeList-frame free
        λ t i. p.others t (ground (arith, apart t)) (λ e. ground (arith, ap (λ x. has x fs) e)));
  apart =
      λ t i. ground (arith, apart t, has-append t xs (h ∷ []), ap (λ x. has x fs) {x = t} {y = h});
}

module _ {m : Store} {list : ObjList} (xs : List ℕ) where
  -- While there are removed nodes in a well-formed list, an addition uses the last one removed,
  -- puts it at the end of the list, and does not use what the allocator would answer.
  pub append-recycle :
      (f : ℕ) (fs : List ℕ) (object : ℕ)
      → IsValid m list xs (f ∷ fs)
      → (m' : Store) × (list' : ObjList) × (append m list object
          ≡ some (m', list', object_from_header f))
        × IsValid m' list' (xs ++ f ∷ []) fs
  unfolding append take_node
  append-recycle f fs object v =
      let (e, l, nz, at, out, rest) = FreeList-cons_inv v.recycled in
      let new = λ (i : f ∈ xs). v.apart f i in
      let (m', list', runs, pushed) =
        push_node-Pushed m (record list { free = l.next }) xs f l v.chain v.last nz (ground arith)
          at in
      (
        m',
        list',
        ground arith,
        Pushed-IsValid xs fs f pushed rest (λ t i. ground (arith, v.apart t)) out,
      )

  -- With no removed node in a well-formed list, an addition takes a new object, whose header below
  -- it must lie in memory and not be in the list, and puts it at the end of the list.
  pub append-new :
      (object : ℕ) (k : Link)
      → IsValid m list xs []
      → object ≢ 0
      → header_from_object object ≢ 0
      → header_from_object object ∉ xs
      → m (header_from_object object) ≡ some k
      → (m' : Store) × (list' : ObjList) × (append m list object
          ≡ some (m', list', object_from_header (header_from_object object)))
        × IsValid m' list' (xs ++ header_from_object object ∷ []) []
  unfolding append take_node
  append-new object k v nz pos out at =
      let z = FreeList-nil_inv v.recycled in
      let (m', list', runs, pushed) =
        push_node-Pushed m list xs (header_from_object object) k v.chain v.last pos out at in
      (
        m',
        list',
        ground arith,
        Pushed-IsValid xs [] (header_from_object object) pushed v.recycled v.apart refl,
      )

  -- With no removed node in a well-formed list, and no memory from the allocator, an addition
  -- leaves the list unchanged and answers the null pointer.
  pub append_full : IsValid m list xs [] → append m list 0 ≡ some (m, list, 0)
  unfolding append take_node
  append_full v = let z = FreeList-nil_inv v.recycled in ground arith

push_node_fault : (m : Store) (list : ObjList) (h : ℕ) → m h ≡ none → push_node m list h ≡ none
unfolding push_node
push_node_fault m list h at = elim (Option-cases (m list.head)) [
  | inl e ↦ ground arith
  | inr (l, e) ↦ ground arith
]

-- With nothing mapped in the header's size below a new object, an addition that allocates faults:
-- the header that it links does not lie in the memory that it has asked for.
pub append_below :
    (m : Store) (list : ObjList) (xs : List ℕ) (object : ℕ)
    → IsValid m list xs []
    → header_size < object
    → object < u64_mod
    → m (object - header_size) ≡ none
    → append m list object ≡ none
unfolding append take_node header_from_object
append_below m list xs object v lo hi at =
    let z = FreeList-nil_inv v.recycled in
    let h : (object + u64_mod - header_size) % u64_mod ≡ object - header_size = omega arith in
    ground (arith, push_node_fault m list (object - header_size) at)
