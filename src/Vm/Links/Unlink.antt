-- ===== src/Vm/Links/Unlink.antt =====
-- Taking a node out of a list, and putting one at either end.
use nextnucleus.Base.{
  [], ℕ, ◌≡◌, refl, sym, ap, ◌∙◌, ◌≢◌, ◌⊎◌, inl, inr, some, List, ◌∷◌, ◌++◌, arith, ◌==◌,
  if◌then◌else◌, Bool-cases, has, ◌∈◌, ◌∉◌,
}
use nextnucleus.Vm.Links.{Link, Store, update, unlink}
use nextnucleus.Vm.Links.Seg.{
  last_or, last_or-mem, Seg, IsList, eq_of_Seg-nil, Seg-cons_inv, Seg-split, Seg-append,
  Seg-set_prev, Seg-set_next, Seg-mem, Seg-first, last_or_zero,
}

-- What unlinking does to a store: the neighbours of the node, if any, are joined, and nothing else
-- changes.
pub record Joined (m m' : Store) (l : Link) : Type 0 where
  pub left :
      (k : Link)
      → l.prev ≢ 0
      → l.prev ≢ l.next
      → m l.prev ≡ some k
      → m' l.prev ≡ some (record k { next = l.next })
  pub right :
      (k : Link)
      → l.next ≢ 0
      → l.prev ≢ l.next
      → m l.next ≡ some k
      → m' l.next ≡ some (record k { prev = l.prev })
  pub others : (t : ℕ) → (t ≢ l.prev) ⊎ (t ≡ 0) → (t ≢ l.next) ⊎ (t ≡ 0) → m' t ≡ m t

pub unlink-Joined :
    (m : Store) (l : Link)
    → (l.prev ≢ 0 → (k : Link) × (m l.prev ≡ some k))
    → (l.next ≢ 0 → (k : Link) × (m l.next ≡ some k))
    → (l.prev ≡ 0) ⊎ (l.prev ≢ l.next)
    → (m' : Store) × (unlink m l ≡ some m') × Joined m m' l
unfolding unlink
unlink-Joined m l hp hn d = elim (Bool-cases (l.prev == 0)) [
  | inl p0 ↦ elim (Bool-cases (l.next == 0)) [
    | inl n0 ↦ (
      m,
      ground arith,
      record { left = ground arith; right = ground arith; others = λ t _ _. refl },
    )
    | inr n1 ↦
        let (k, at) = hn (ground arith) in
        (
          update m l.next (record k { prev = l.prev }),
          ground arith,
          record { left = ground arith; right = ground arith; others = λ t u v. ground arith },
        )
  ]
  | inr p1 ↦
      let (j, at) = hp (ground arith) in
      let m₁ = update m l.prev (record j { next = l.next }) in
      elim (Bool-cases (l.next == 0)) [
        | inl n0 ↦ (
          m₁,
          ground arith,
          record { left = ground arith; right = ground arith; others = λ t u v. ground arith },
        )
        | inr n1 ↦
            let (k, at') = hn (ground arith) in
            (
              update m₁ l.next (record k { prev = l.prev }),
              ground arith,
              record { left = ground arith; right = ground arith; others = λ t u v. ground arith },
            )
      ]
]

-- The first node of a list once the node `s` with the link `l` is out.
abbrev pub first_without : ℕ → ℕ → Link → ℕ
first_without first s l = if first == s then l.next else first

-- A node of a segment differs from a node that is 0 or outside it.
ne_of_out :
    {m : Store} {stop back p : ℕ} (t b : ℕ) (xs : List ℕ)
    → Seg m stop back p xs
    → t ∈ xs
    → (b ≡ 0) ⊎ (b ∉ xs)
    → t ≢ b
ne_of_out t b xs seg i out = ne out
  where
    ne : (b ≡ 0) ⊎ (b ∉ xs) → t ≢ b
    ne (inl z) e = (Seg-mem t xs seg i).0 (e ∙ z)
    ne (inr o) e = ground (arith, ap (λ x. has x xs) e)

module _ {m m' : Store} {l : Link} (j : Joined m m' l) where
  -- The part behind the node now follows the node's predecessor.
  Joined-right :
      (s b : ℕ) (rs : List ℕ)
      → Seg m 0 s l.next rs
      → l.prev ≡ b
      → (b ≡ 0) ⊎ (b ∉ rs)
      → Seg m' 0 b l.next rs
  Joined-right s b rs seg e out =
      let apart = λ (t : ℕ) (i : t ∈ rs). ne_of_out t b rs seg i out in
      Seg-set_prev s b l.next rs seg
        (λ k i at.
          rw (← e) (j.right k ((Seg-mem l.next rs seg i).0) (λ q. apart l.next i (sym q ∙ e)) at))
        (λ t i ne. j.others t (inl (λ q. apart t i (q ∙ e))) (inl ne))

  -- The part in front of the node now leads to the node's successor.
  Joined-left :
      (s p a : ℕ) (ls : List ℕ)
      → Seg m s 0 p (a ∷ ls)
      → l.prev ≡ last_or a ls
      → (l.next ≡ 0) ⊎ (l.next ∉ a ∷ ls)
      → Seg m' l.next 0 p (a ∷ ls)
  Joined-left s p a ls seg e out =
      let apart = λ (t : ℕ) (i : t ∈ a ∷ ls). ne_of_out t l.next (a ∷ ls) seg i out in
      let end = last_or-mem a ls in
      Seg-set_next l.next 0 p a ls seg
        (λ k at.
          rw (← e)
            (j.left k (rw e ((Seg-mem _ (a ∷ ls) seg end).0)) (rw e (apart _ end)) (rw e at)))
        (λ t i ne. j.others t (inl (λ q. ne (q ∙ e))) (inl (apart t i)))

-- Nothing outside the list changes, nor does the node itself.
Joined-others :
    {m m' : Store} {l : Link} (t : ℕ) (ls rs : List ℕ)
    → Joined m m' l
    → l.prev ≡ last_or 0 ls
    → (l.next ≡ 0) ⊎ (l.next ∈ rs)
    → t ∉ ls
    → t ∉ rs
    → m' t ≡ m t
Joined-others {l = l} t ls rs j e n out₁ out₂ = j.others t (left (last_or_zero ls)) (right n)
  where
    left : (ls ≡ []) ⊎ (last_or 0 ls ∈ ls) → (t ≢ l.prev) ⊎ (t ≡ 0)
    left (inl z) = elim (Bool-cases (t == 0)) [
      | inl zero_t ↦ inr (ground arith)
      | inr pos ↦ inl (λ q. ground (arith, q ∙ e ∙ ap (last_or 0) z))
    ]
    left (inr i) = inl (λ q. ground (arith, ap (λ x. has x ls) (q ∙ e)))

    right : (l.next ≡ 0) ⊎ (l.next ∈ rs) → (t ≢ l.next) ⊎ (t ≡ 0)
    right (inl z) = elim (Bool-cases (t == 0)) [
      | inl zero_t ↦ inr (ground arith)
      | inr pos ↦ inl (λ q. ground (arith, q ∙ z))
    ]
    right (inr i) = inl (λ q. ground (arith, ap (λ x. has x rs) q))

out_of_right :
    (n : ℕ) (ls rs : List ℕ) → (n ≡ 0) ⊎ (n ∈ rs) → ((t : ℕ) → t ∈ ls → t ∉ rs) → (n ≡ 0) ⊎ (n ∉ ls)
out_of_right n ls rs (inl z) apart = inl z
out_of_right n ls rs (inr i) apart = elim (Bool-cases (has n ls)) [
  | inl h ↦ let q = apart n h in cc
  | inr o ↦ inr o
]

node_of_mem :
    {m : Store} {stop back p : ℕ} (t : ℕ) (xs : List ℕ)
    → Seg m stop back p xs
    → t ∈ xs
    → (k : Link) × (m t ≡ some k)
node_of_mem t xs seg i = ((Seg-mem t xs seg i).1, (Seg-mem t xs seg i).2)

module _ {m : Store} (p s : ℕ) where
  split_Joined :
      (l : Link) (ls rs : List ℕ)
      → l.prev ≡ last_or 0 ls
      → ((t : ℕ) → t ∈ ls → t ∉ rs)
      → Seg m s 0 p ls
      → Seg m 0 s l.next rs
      → (m' : Store) × (unlink m l ≡ some m') × Joined m m' l
  split_Joined l ls rs e apart left right =
      unlink-Joined m l (λ h. before h (last_or_zero ls)) (λ h. after h (Seg-first l.next rs right))
        (distinct (last_or_zero ls) (Seg-first l.next rs right))
    where
      before : l.prev ≢ 0 → (ls ≡ []) ⊎ (last_or 0 ls ∈ ls) → (k : Link) × (m l.prev ≡ some k)
      before h (inl z) = absurd (h (e ∙ ap (last_or 0) z))
      before h (inr i) = rw e (node_of_mem (last_or 0 ls) ls left i)

      after : l.next ≢ 0 → (l.next ≡ 0) ⊎ (l.next ∈ rs) → (k : Link) × (m l.next ≡ some k)
      after h (inl z) = absurd (h z)
      after h (inr i) = node_of_mem l.next rs right i

      distinct :
          (ls ≡ []) ⊎ (last_or 0 ls ∈ ls)
          → (l.next ≡ 0) ⊎ (l.next ∈ rs)
          → (l.prev ≡ 0) ⊎ (l.prev ≢ l.next)
      distinct (inl z) n = inl (e ∙ ap (last_or 0) z)
      distinct (inr i) (inl z) = inr (λ q. (Seg-mem (last_or 0 ls) ls left i).0 (sym e ∙ q ∙ z))
      distinct (inr i) (inr j) =
          inr (λ q. ground (arith, apart (last_or 0 ls) i, ap (λ x. has x rs) (sym e ∙ q)))

  -- Unlinking a node of a list succeeds; what is left is the list without the node.
  pub unlink_lem :
      (ls rs : List ℕ)
      → IsList m p (ls ++ s ∷ rs)
      → (l : Link) × (m' : Store) × (m s ≡ some l)
        × (s ≢ 0)
        × (unlink m l ≡ some m')
        × IsList m' (first_without p s l) (ls ++ rs)
        × (l.prev ≡ last_or 0 ls)
        × (m' s ≡ some l)
        × (s ∉ ls)
        × (s ∉ rs)
        × ((t : ℕ) → t ∉ ls → t ∉ rs → m' t ≡ m t)
  unlink_lem [] rs seg =
      let (l, at, nz, prev, out₁, out₂, apart, left, right) = Seg-split 0 p s [] rs seg in
      let (m', runs, j) = split_Joined l [] rs prev apart left right in
      let others = λ (t : ℕ) (u : t ∉ []) (v : t ∉ rs).
        Joined-others t [] rs j prev (Seg-first l.next rs right) u v in
      let head : first_without p s l ≡ l.next = ground (arith, eq_of_Seg-nil left) in
      (
        l,
        m',
        at,
        nz,
        runs,
        rw head (Joined-right j s 0 rs right prev (inl refl)),
        prev,
        others s refl out₂ ∙ at,
        out₁,
        out₂,
        others,
      )
  unlink_lem (a ∷ ls) rs seg =
      let (l, at, nz, prev, out₁, out₂, apart, left, right) = Seg-split 0 p s (a ∷ ls) rs seg in
      let (m', runs, j) = split_Joined l (a ∷ ls) rs prev apart left right in
      let n = Seg-first l.next rs right in
      let others =
        λ (t : ℕ) (u : t ∉ a ∷ ls) (v : t ∉ rs). Joined-others t (a ∷ ls) rs j prev n u v in
      let (e, _, _, _, _, _, _) = Seg-cons_inv left in
      let head : first_without p s l ≡ p = ground arith in
      let kept = Joined-left j s p a ls left prev (out_of_right l.next (a ∷ ls) rs n apart) in
      let moved =
        Joined-right j s (last_or a ls) rs right prev (inr (apart _ (last_or-mem a ls))) in
      (
        l,
        m',
        at,
        nz,
        runs,
        rw head (Seg-append (a ∷ ls) rs 0 p kept moved apart),
        prev,
        others s out₁ out₂ ∙ at,
        out₁,
        out₂,
        others,
      )
