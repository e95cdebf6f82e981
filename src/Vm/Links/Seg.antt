-- ===== src/Vm/Links/Seg.antt =====
-- List segments in a store of links.
use nextnucleus.Base.{
  [], ℕ, ◌≡◌, refl, ◌∙◌, ◌≢◌, ◌⊎◌, inl, inr, some, List, ◌∷◌, ◌++◌, arith, ◌==◌, Bool-cases, ◌∈◌,
  ◌∉◌, has-append,
}
use nextnucleus.Vm.Links.{Link, Store}

-- The last of a list, or `b` if it is empty.
abbrev pub last_or : ℕ → List ℕ → ℕ
last_or b [] = b
last_or b (x ∷ xs) = last_or x xs

pub last_or-mem : (b : ℕ) (xs : List ℕ) → last_or b xs ∈ b ∷ xs
last_or-mem b [] = ground arith
last_or-mem b (x ∷ xs) = ground (arith, last_or-mem x xs)

-- From `p`, whose previous node is `back`, the links lead both ways through the distinct nodes of
-- the list to `stop`.
pub data Seg (m : Store) (stop : ℕ) : ℕ → ℕ → List ℕ → Type 0 where
  nil : {back : ℕ} → Seg m stop back stop []
  cons :
      {back p q : ℕ} {xs : List ℕ} (l : Link)
      → p ≢ 0
      → m p ≡ some l
      → l.prev ≡ back
      → l.next ≡ q
      → p ∉ xs
      → Seg m stop p q xs
      → Seg m stop back p (p ∷ xs)

-- `first` is the first node of a whole list.
abbrev pub IsList : Store → ℕ → List ℕ → Type 0
IsList m first xs = Seg m 0 0 first xs

module _ {m : Store} where
  pub Seg-nil : {stop : ℕ} (back p : ℕ) → p ≡ stop → Seg m stop back p []
  Seg-nil back p e = rw e nil

  pub eq_of_Seg-nil : {stop back p : ℕ} → Seg m stop back p [] → p ≡ stop
  eq_of_Seg-nil nil = refl

  pub Seg-cons_inv :
      {stop back p x : ℕ} {xs : List ℕ}
      → Seg m stop back p (x ∷ xs)
      → (p ≡ x)
        × (l : Link) × (x ≢ 0)
        × (m x ≡ some l)
        × (l.prev ≡ back)
        × (x ∉ xs)
        × Seg m stop x l.next xs
  Seg-cons_inv (cons l nz at prev next out rest) = (refl, l, nz, at, prev, out, rw next rest)

  pub frame :
      {m' : Store} {stop back p : ℕ} {xs : List ℕ}
      → Seg m stop back p xs
      → ((t : ℕ) → t ∈ xs → m' t ≡ m t)
      → Seg m' stop back p xs
  frame nil same = nil
  frame (cons {p = p} l nz at prev next out rest) same =
      cons l nz (same p (ground arith) ∙ at) prev next out (frame rest λ t i. same t (ground arith))

  -- A segment is a part and the rest, with a node in between.
  pub Seg-split :
      {stop : ℕ} (back p s : ℕ) (ls rs : List ℕ)
      → Seg m stop back p (ls ++ s ∷ rs)
      → (l : Link) × (m s ≡ some l)
        × (s ≢ 0)
        × (l.prev ≡ last_or back ls)
        × (s ∉ ls)
        × (s ∉ rs)
        × ((t : ℕ) → t ∈ ls → t ∉ rs)
        × Seg m s back p ls
        × Seg m stop s l.next rs
  Seg-split back p s [] rs seg =
      let (e, l, nz, at, prev, out, rest) = Seg-cons_inv seg in
      (l, at, nz, prev, refl, out, λ t i. cc, Seg-nil back p e, rest)
  Seg-split back p s (a ∷ ls) rs seg =
      let (e, k, nz, at, prev, out, rest) = Seg-cons_inv seg in
      let (l, at', nz', prev', out₁, out₂, apart, left, right) = Seg-split a k.next s ls rs rest in
      (
        l,
        at',
        nz',
        prev',
        ground (arith, has-append a ls (s ∷ rs)),
        out₂,
        λ t i. ground (arith, has-append a ls (s ∷ rs), apart t),
        rw e (cons k nz at prev refl (ground (arith, has-append a ls (s ∷ rs))) left),
        right,
      )

  pub Seg-append :
      {stop mid : ℕ} (ls rs : List ℕ) (back p : ℕ)
      → Seg m mid back p ls
      → Seg m stop (last_or back ls) mid rs
      → ((t : ℕ) → t ∈ ls → t ∉ rs)
      → Seg m stop back p (ls ++ rs)
  Seg-append [] rs back p left right apart = rw (eq_of_Seg-nil left) right
  Seg-append (a ∷ ls) rs back p left right apart =
      let (e, l, nz, at, prev, out, rest) = Seg-cons_inv left in
      rw e (
        cons l nz at prev refl (ground (arith, has-append a ls rs, apart a))
          (Seg-append ls rs a l.next rest right λ t i. apart t (ground arith)))

  -- A write to the first node that changes its `prev` moves the segment behind another node.
  pub Seg-set_prev :
      {m' : Store} {stop : ℕ} (back back' p : ℕ) (xs : List ℕ)
      → Seg m stop back p xs
      → ((l : Link) → p ∈ xs → m p ≡ some l → m' p ≡ some (record l { prev = back' }))
      → ((t : ℕ) → t ∈ xs → t ≢ p → m' t ≡ m t)
      → Seg m' stop back' p xs
  Seg-set_prev back back' p [] seg changed same = rw (eq_of_Seg-nil seg) nil
  Seg-set_prev back back' p (x ∷ xs) seg changed same =
      let (e, l, nz, at, prev, out, rest) = Seg-cons_inv seg in
      let here : m p ≡ some l = ground arith in
      rw e (
        cons (record l { prev = back' }) nz (ground (arith, changed l)) refl refl out
          (frame rest λ t i. same t (ground arith) (ground arith)))

  -- A write to the last node that changes its `next` leads the segment elsewhere.
  pub Seg-set_next :
      {m' : Store} {stop : ℕ} (stop' back p a : ℕ) (xs : List ℕ)
      → Seg m stop back p (a ∷ xs)
      → ((l : Link)
          → m (last_or a xs) ≡ some l
          → m' (last_or a xs) ≡ some (record l { next = stop' }))
      → ((t : ℕ) → t ∈ a ∷ xs → t ≢ last_or a xs → m' t ≡ m t)
      → Seg m' stop' back p (a ∷ xs)
  Seg-set_next stop' back p a [] seg changed same =
      let (e, l, nz, at, prev, out, rest) = Seg-cons_inv seg in
      rw e (cons (record l { next = stop' }) nz (changed l at) prev refl out nil)
  Seg-set_next stop' back p a (b ∷ xs) seg changed same =
      let (e, l, nz, at, prev, out, rest) = Seg-cons_inv seg in
      rw e (
        cons l nz (same a (ground arith) (λ e. ground (arith, last_or-mem b xs)) ∙ at) prev refl out
          (Seg-set_next stop' a l.next b xs rest changed λ t i ne. same t (ground arith) ne))

module _ {m : Store} where
  pub Seg-mem :
      {stop : ℕ} (t : ℕ) (xs : List ℕ) {back p : ℕ}
      → Seg m stop back p xs
      → t ∈ xs
      → (t ≢ 0) × (k : Link) × (m t ≡ some k)
  Seg-mem t [] seg i = cc
  Seg-mem t (x ∷ xs) seg i =
      let (e, l, nz, at, prev, out, rest) = Seg-cons_inv seg in
      elim (Bool-cases (t == x)) [
        | inl here ↦ let q : t ≡ x = ground arith in (rw q nz, l, rw q at)
        | inr far ↦ Seg-mem t xs rest (ground arith)
      ]

  -- The first node of a segment to 0 is 0 or one of its nodes.
  pub Seg-first : {back : ℕ} (p : ℕ) (xs : List ℕ) → Seg m 0 back p xs → (p ≡ 0) ⊎ (p ∈ xs)
  Seg-first p [] seg = inl (eq_of_Seg-nil seg)
  Seg-first p (x ∷ xs) seg = let (e, _, _, _, _, _, _) = Seg-cons_inv seg in inr (ground arith)

pub last_or_zero : (xs : List ℕ) → (xs ≡ []) ⊎ (last_or 0 xs ∈ xs)
last_or_zero [] = inl refl
last_or_zero (x ∷ xs) = inr (last_or-mem x xs)
