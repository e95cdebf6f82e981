-- ===== src/Lang/Ast/Chain.antt =====
-- The children of a node in the arena of nucleus/lang/ast.h, as a list of ids.
use nextnucleus.Base.{
  ℕ, ◌≡◌, refl, sym, ap, ◌∙◌, ◌≢◌, inl, inr, Option, none, some, List, [], ◌∷◌, ◌++◌, arith, ◌==◌,
  if◌then◌else◌, Bool-cases, Option-cases, get_elem?-set, lt-length_of_get_elem?, ◌∈◌, ◌∉◌,
  has-append,
}
use nextnucleus.Vm.Links.Seg.{last_or, last_or-mem}
use nextnucleus.Lang.Ast.{Ast, Node, node_null, node_at, put_node, change_node}

-- The links of a node, and what a write makes of the nodes.
unfoldable pub next_of : Ast → ℕ → Option ℕ
next_of ast t = elim (node_at ast t) [ none ↦ none | some n ↦ some n.next_sibling ]

pub next_of_inv :
    (ast : Ast) (t : ℕ) {q : ℕ} → next_of ast t ≡ some q → (n : Node) × (node_at ast t ≡ some n)
unfolding next_of
next_of_inv ast t h = elim (Option-cases (node_at ast t)) [
  | inl e ↦ let h' = h in ground arith
  | inr (n, e) ↦ (n, e)
]

pub next_of_node :
    (ast : Ast) (t : ℕ) (n : Node) → node_at ast t ≡ some n → next_of ast t ≡ some n.next_sibling
unfolding next_of
next_of_node ast t n e = ground arith

-- From `p` the siblings lead through the distinct nodes of the list to their end.
pub data Chain (ast : Ast) : ℕ → List ℕ → Type 0 where
  nil : Chain ast node_null []
  cons :
      {p q : ℕ} {cs : List ℕ}
      → p ≢ node_null
      → next_of ast p ≡ some q
      → p ∉ cs
      → Chain ast q cs
      → Chain ast p (p ∷ cs)

module _ (ast : Ast) where
  pub node_at-put_node :
      (i t : ℕ) (m n : Node)
      → node_at ast i ≡ some m
      → node_at (put_node ast i n) t ≡ (if t == i then some n else node_at ast t)
  unfolding node_at put_node
  node_at-put_node i t m n at =
      let le = lt-length_of_get_elem? ast.nodes i at in
      ground (arith, get_elem?-set ast.nodes i t n)

  pub change_node_lem :
      (i : ℕ) (f : Node → Node) (n : Node)
      → node_at ast i ≡ some n
      → change_node ast i f ≡ some (put_node ast i (f n))
  unfolding change_node
  change_node_lem i f n at = ground (arith)

  pub Chain-nil_inv : {p : ℕ} → Chain ast p [] → p ≡ node_null
  Chain-nil_inv nil = refl

  pub Chain-cons_inv :
      {p c : ℕ} {cs : List ℕ}
      → Chain ast p (c ∷ cs)
      → (p ≡ c) × (q : ℕ) × (c ≢ node_null) × (next_of ast c ≡ some q) × (c ∉ cs) × Chain ast q cs
  Chain-cons_inv (cons {q = q} nz at out rest) = (refl, q, nz, at, out, rest)

  pub frame :
      (ast' : Ast) {p : ℕ} {cs : List ℕ}
      → Chain ast p cs
      → ((t : ℕ) → t ∈ cs → next_of ast' t ≡ next_of ast t)
      → Chain ast' p cs
  frame ast' nil same = nil
  frame ast' (cons {p = p} nz at out rest) same =
      cons nz (same p (ground arith) ∙ at) out (frame ast' rest λ t i. same t (ground arith))

  -- The last node of a chain has another one behind it.
  pub extend :
      (ast' : Ast) (child : ℕ) {p c : ℕ} {cs : List ℕ}
      → Chain ast p (c ∷ cs)
      → ((t : ℕ) → t ∈ c ∷ cs → t ≢ last_or c cs → next_of ast' t ≡ next_of ast t)
      → next_of ast' (last_or c cs) ≡ some child
      → child ∉ c ∷ cs
      → Chain ast' child (child ∷ [])
      → Chain ast' p (c ∷ cs ++ child ∷ [])
  extend ast' child {c = c} {cs = []} (cons nz at out rest) same last new tail =
      cons nz last (ground arith) tail
  extend ast' child {c = c} {cs = d ∷ cs} (cons {q = q} nz at out rest) same last new tail =
      let (e, _, _, _, _, _) = Chain-cons_inv rest in
      let other : c ≢ last_or d cs = λ w. let m = last_or-mem d cs in ground arith in
      let ih =
        extend ast' child rest (λ t i ne. same t (ground arith) ne) last (ground arith) tail in
      cons nz (same c (ground arith) other ∙ at)
        (ground (arith, has-append c (d ∷ cs) (child ∷ []))) ih

  -- What the links say of a node of a chain.
  pub Chain-mem :
      (cs : List ℕ) (t : ℕ) {p : ℕ}
      → Chain ast p cs
      → t ∈ cs
      → (t ≢ node_null) × (n : Node) × (node_at ast t ≡ some n)
  Chain-mem [] t chain i = cc
  Chain-mem (c ∷ cs) t chain i =
      let (e, q, nz, at, out, rest) = Chain-cons_inv chain in
      elim (Bool-cases (t == c)) [
        | inl h ↦
            let same : t ≡ c = ground arith in
            let (n, here) = next_of_inv ast t (ap (next_of ast) same ∙ at) in
            (λ z. nz (sym same ∙ z), n, here)
        | inr h ↦ Chain-mem cs t rest (ground arith)
      ]
