-- ===== src/Vm/Slotmap/Chain.antt =====
-- The list of free slots in the cells, and how writes to a cell change it.
use nextnucleus.Base.{
  [], ℕ, zero, suc, ◌+◌, ◌-◌, ◌≤◌, ◌<◌, ◌≡◌, ◌≢◌, refl, ap, some, List, ◌∷◌, arith, length, set,
  get_elem?-set_self, get_elem?-set_ne, lt-length_of_get_elem?, get_elem?_total, has, ◌∉◌, ltb, leb,
  true, ◌&&◌,
}
use nextnucleus.Vm.Slotmap.{Cell, cell_at}

-- From slot `p` the links lead through the distinct slots of the list to `stop`.
pub data Chain (cells : List Cell) (stop : ℕ) : ℕ → List ℕ → Type 0 where
  nil : Chain cells stop stop []
  cons :
      {s : ℕ} {c : Cell} {q : ℕ} {ss : List ℕ}
      → cell_at cells s ≡ some c
      → c.link ≡ q
      → s ∉ ss
      → Chain cells stop q ss
      → Chain cells stop s (s ∷ ss)

pub cell_at-set_ne :
    (cells : List Cell) (s t : ℕ) (v : Cell)
    → 0 < s
    → s ≢ t
    → cell_at (set cells (s - 1) v) t ≡ cell_at cells t
cell_at-set_ne cells s zero v h n = refl
cell_at-set_ne cells s (suc t) v h n = get_elem?-set_ne cells (s - 1) t v (λ e. n (omega arith))

pub cell_at-set_self :
    (cells : List Cell) (s : ℕ) (v : Cell)
    → 0 < s
    → s ≤ length cells
    → cell_at (set cells (s - 1) v) s ≡ some v
cell_at-set_self cells zero v h n = absurd (omega arith)
cell_at-set_self cells (suc s) v h n =
    let e : suc s - 1 ≡ s = omega arith in rw e (get_elem?-set_self cells s v (omega arith))

pub cell_at_range :
    (cells : List Cell) (s : ℕ) {c : Cell} → cell_at cells s ≡ some c → (0 < s) × (s ≤ length cells)
cell_at_range cells zero h = cc
cell_at_range cells (suc s) h = (omega arith, lt-length_of_get_elem? cells s h)

pub cell_at_total :
    (cells : List Cell) (s : ℕ) → 0 < s → s ≤ length cells → (c : Cell) × (cell_at cells s ≡ some c)
cell_at_total cells zero h n = absurd (omega arith)
cell_at_total cells (suc s) h n = get_elem?_total cells s (omega arith)

-- A chain survives any change that spares the cells of its own slots.
pub frame :
    {cells cells' : List Cell} {stop p : ℕ} {ss : List ℕ}
    → Chain cells stop p ss
    → ((t : ℕ) → has t ss ≡ true → cell_at cells' t ≡ cell_at cells t)
    → Chain cells' stop p ss
frame nil same = nil
frame (cons {s} {c} e l out rest) same =
    cons {c = c} (ground (arith, same s)) l out (frame rest λ t i. same t (ground arith))

pub frame-set :
    {cells : List Cell} {stop p : ℕ} {ss : List ℕ} (s : ℕ) (v : Cell)
    → 0 < s
    → Chain cells stop p ss
    → s ∉ ss
    → Chain (set cells (s - 1) v) stop p ss
frame-set {cells} s v pos chain out =
    frame chain λ t i. cell_at-set_ne cells s t v pos (ground arith)

-- The slots from `i + 1` on, `n` of them.
abbrev pub slots_from : ℕ → ℕ → List ℕ
slots_from i zero = []
slots_from i (suc n) = suc i ∷ slots_from (suc i) n

pub has-slots_from : (i n s : ℕ) → has s (slots_from i n) ≡ (ltb i s && leb s (i + n))
has-slots_from i zero s = ground arith
has-slots_from i (suc n) s = ground (arith, has-slots_from (suc i) n s)

pub length-slots_from : (i n : ℕ) → length (slots_from i n) ≡ n
length-slots_from i zero = refl
length-slots_from i (suc n) = ap suc (length-slots_from (suc i) n)

module _ {cells : List Cell} {stop : ℕ} where
  pub Chain-nil : (p : ℕ) → p ≡ stop → Chain cells stop p []
  Chain-nil p e = rw e nil

  pub eq_of_Chain-nil : {p : ℕ} → Chain cells stop p [] → p ≡ stop
  eq_of_Chain-nil nil = refl

  -- A chain starts at the first of its slots, whose cell leads to the rest.
  pub Chain-cons_inv :
      {p s : ℕ} {ss : List ℕ}
      → Chain cells stop p (s ∷ ss)
      → (p ≡ s) × (c : Cell) × (cell_at cells s ≡ some c) × (s ∉ ss) × Chain cells stop c.link ss
  Chain-cons_inv (cons {c = c} at link out rest) = (refl, c, at, out, rw link rest)
