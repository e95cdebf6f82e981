-- ===== src/Vm/Interpreter/Run.antt =====
-- The interpreter as a machine on a list of words, the top of the stack first.
use native.Mathlib.Nat.{add-zero}
use nextnucleus.Vm.Interpreter.{
  Opcode, add, sub, muli, mulf, divi, divf, unknown, opcode_of, stack_size, Interpreter, pop, push,
  apply, binary, operate, fetch, exec,
}
use nextnucleus.Base.{
  ℕ, zero, suc, ◌+◌, ◌-◌, ◌%◌, ◌≤◌, ◌<◌, ◌≡◌, refl, sym, ap, ◌∙◌, inl, inr, Option, none, some,
  List, [], ◌∷◌, arith, Option-cases, ◌>>=◌, length, get_elem?, set, drop, length-set,
  get_elem?-set_self, get_elem?-set_ne, lt-length_of_get_elem?, u32_mod, u32,
}

-- What an instruction does to such a list; `none` is a fault.
abbrev pub binary_list : Opcode → List ℕ → Option (List ℕ)
binary_list op [] = none
binary_list op (a ∷ []) = none
binary_list op (a ∷ b ∷ xs) = do v ← apply op a b; some (v ∷ xs)

abbrev pub operate_list : Opcode → List ℕ → Option (List ℕ)
operate_list unknown xs = some xs
operate_list op xs = binary_list op xs

-- A program on such a list.
unfoldable pub run_list : List ℕ → List ℕ → Option (List ℕ)
run_list [] xs = some xs
run_list (i ∷ code) xs = do ys ← operate_list (opcode_of i) xs; run_list code ys

-- nu__interpreter_exec, `n` times.
unfoldable pub exec_times : ℕ → Interpreter → Option Interpreter
exec_times zero inte = some inte
exec_times (suc n) inte = do inte₁ ← exec inte; exec_times n inte₁

-- The words of a list stand in an array, the last one at its beginning.
abbrev pub Stacked : List ℕ → List ℕ → Type 0
Stacked stack [] = Unit
Stacked stack (x ∷ xs) = (get_elem? stack (length xs) ≡ some x) × Stacked stack xs

-- The interpreter stands at an instruction of a program, with the words of a list on its stack.
pub record Holds (inte : Interpreter) (program : List ℕ) (pc : ℕ) (xs : List ℕ) : Type 0 where
  pub program_is : inte.instructions ≡ some program
  pub pc_is : inte.pc ≡ pc
  pub size : length inte.stack ≡ stack_size
  pub top : inte.sp ≡ length xs
  pub fits : length xs ≤ stack_size
  pub words : Stacked inte.stack xs

-- The interpreter's answer is that of the list, and faults where that does.
abbrev pub Agrees : List ℕ → ℕ → Option Interpreter → Option (List ℕ) → Type 0
Agrees program pc none none = Unit
Agrees program pc none (some xs) = ⊥
Agrees program pc (some inte) none = ⊥
Agrees program pc (some inte) (some xs) = Holds inte program pc xs

Stacked-set :
    (stack : List ℕ) (i v : ℕ) (xs : List ℕ)
    → length xs ≤ i
    → Stacked stack xs
    → Stacked (set stack i v) xs
Stacked-set stack i v [] h w = tt
Stacked-set stack i v (x ∷ xs) h (at, w) = (
  get_elem?-set_ne stack i (length xs) v (omega arith) ∙ at,
  Stacked-set stack i v xs (omega arith) w,
)

get_elem?_out {ℓ} : {A : Type ℓ} (xs : List A) (i : ℕ) → length xs ≤ i → get_elem? xs i ≡ none
get_elem?_out [] i h = refl
get_elem?_out (x ∷ xs) zero h = absurd (omega arith)
get_elem?_out (x ∷ xs) (suc i) h = get_elem?_out xs i (omega arith)

module _ {inte : Interpreter} {program : List ℕ} {pc : ℕ} where
  pop-empty : Holds inte program pc [] → pop inte ≡ none
  unfolding pop
  pop-empty h =
      ground (arith, get_elem?_out inte.stack (u32_mod - 1) (omega (arith, h.size)), h.top)

  pop-cons :
      (x : ℕ) (xs : List ℕ)
      → Holds inte program pc (x ∷ xs)
      → (inte₁ : Interpreter) × (pop inte ≡ some (x, inte₁)) × Holds inte₁ program pc xs
  unfolding pop
  pop-cons x xs h =
      let e : (inte.sp + u32_mod - 1) % u32_mod ≡ length xs = omega (arith, h.top, h.fits) in
      (
        record inte { sp = length xs },
        rw (e, h.words.0) refl,
        record {
          program_is = h.program_is;
          pc_is = h.pc_is;
          size = h.size;
          top = refl;
          fits = omega (arith, h.fits);
          words = h.words.1;
        },
      )

  push-cons :
      (x : ℕ) (xs : List ℕ)
      → Holds inte program pc xs
      → length xs < stack_size
      → (inte₁ : Interpreter) × (push x inte ≡ some inte₁) × Holds inte₁ program pc (x ∷ xs)
  unfolding push
  push-cons x xs h room = (
    record inte { stack = set inte.stack inte.sp x; sp = u32 (inte.sp + 1) },
    ground (arith, h.size, h.top),
    record {
      program_is = h.program_is;
      pc_is = h.pc_is;
      size = length-set inte.stack inte.sp x ∙ h.size;
      top = omega (arith, h.top);
      fits = omega arith;
      words = (
        ap (get_elem? (set inte.stack inte.sp x)) (sym h.top)
            ∙ get_elem?-set_self inte.stack inte.sp x (omega (arith, h.top, h.size)),
        Stacked-set inte.stack inte.sp x xs (omega (arith, h.top)) h.words,
      );
    },
  )

binary-Agrees :
    (op : Opcode) (inte : Interpreter) (program : List ℕ) (pc : ℕ) (xs : List ℕ)
    → Holds inte program pc xs
    → Agrees program pc (binary op inte) (binary_list op xs)
unfolding binary
binary-Agrees op inte program pc [] h = rw (pop-empty h) tt
binary-Agrees op inte program pc (a ∷ []) h =
    let (inte₁, e, h₁) = pop-cons a [] h in rw (e, pop-empty h₁) tt
binary-Agrees op inte program pc (a ∷ b ∷ xs) h =
    let (inte₁, e, h₁) = pop-cons a (b ∷ xs) h in
    let (inte₂, e', h₂) = pop-cons b xs h₁ in
    rw (e, e')
      (elim (Option-cases (apply op a b)) [
        | inl fault ↦ rw fault tt
        | inr (v, done) ↦
            let (inte₃, e'', h₃) = push-cons v xs h₂ (omega (arith, h.fits)) in rw (done, e'') h₃
      ])

operate-Agrees :
    (op : Opcode) (inte : Interpreter) (program : List ℕ) (pc : ℕ) (xs : List ℕ)
    → Holds inte program pc xs
    → Agrees program pc (operate op inte) (operate_list op xs)
unfolding operate
operate-Agrees unknown inte program pc xs h = h
operate-Agrees add inte program pc xs h = binary-Agrees add inte program pc xs h
operate-Agrees sub inte program pc xs h = binary-Agrees sub inte program pc xs h
operate-Agrees muli inte program pc xs h = binary-Agrees muli inte program pc xs h
operate-Agrees mulf inte program pc xs h = binary-Agrees mulf inte program pc xs h
operate-Agrees divi inte program pc xs h = binary-Agrees divi inte program pc xs h
operate-Agrees divf inte program pc xs h = binary-Agrees divf inte program pc xs h

fetch_lem :
    (inte : Interpreter) (program : List ℕ) (pc i : ℕ)
    → inte.instructions ≡ some program
    → inte.pc ≡ pc
    → get_elem? program pc ≡ some i
    → u32 (inte.pc + 1) ≡ suc pc
    → fetch inte ≡ some (i, record inte { pc = suc pc })
unfolding fetch
fetch_lem inte program pc i p q at next = rw (p, q, at) (ground (arith, q))

exec-Agrees :
    (inte : Interpreter) (program : List ℕ) (pc i : ℕ) (xs : List ℕ)
    → Holds inte program pc xs
    → get_elem? program pc ≡ some i
    → length program < u32_mod
    → Agrees program (suc pc) (exec inte) (operate_list (opcode_of i) xs)
unfolding exec
exec-Agrees inte program pc i xs h at short =
    let next : u32 (inte.pc + 1) ≡ suc pc =
      omega (arith, h.pc_is, lt-length_of_get_elem? program pc at) in
    let e : fetch inte ≡ some (i, record inte { pc = suc pc }) =
      fetch_lem inte program pc i h.program_is h.pc_is at next in
    rw e (
      operate-Agrees (opcode_of i) (record inte { pc = suc pc }) program (suc pc) xs
        (record {
          program_is = h.program_is;
          pc_is = refl;
          size = h.size;
          top = h.top;
          fits = h.fits;
          words = h.words;
        }))

drop-cons :
    (xs : List ℕ) (n y : ℕ) (ys : List ℕ)
    → drop n xs ≡ y ∷ ys
    → (get_elem? xs n ≡ some y) × (drop (suc n) xs ≡ ys)
drop-cons [] zero y ys e = cc
drop-cons [] (suc n) y ys e = cc
drop-cons (x ∷ xs) zero y ys e = ((cc), cc)
drop-cons (x ∷ xs) (suc n) y ys e = drop-cons xs n y ys e

Agrees->>= :
    (program code : List ℕ) (pc end n : ℕ) (o : Option Interpreter) (l : Option (List ℕ))
    → Agrees program pc o l
    → ((inte : Interpreter) (xs : List ℕ)
        → Holds inte program pc xs
        → Agrees program end (exec_times n inte) (run_list code xs))
    → Agrees program end (o >>= exec_times n) (l >>= run_list code)
Agrees->>= program code pc end n none none h next = tt
Agrees->>= program code pc end n none (some xs) h next = absurd h
Agrees->>= program code pc end n (some inte) none h next = absurd h
Agrees->>= program code pc end n (some inte) (some xs) h next = next inte xs h

-- For an interpreter whose program has fewer than 2^32 instructions, of which `code` is left at its
-- counter, and whose stack is a list of at most 256 words, nu__interpreter_exec, called once for
-- each instruction that is left, faults exactly if the program on the list does, and otherwise has
-- the stack that the program makes of the list, and stands at the end of the program.
pub exec_times-run_list :
    (inte : Interpreter) (program : List ℕ) (pc : ℕ) (code xs : List ℕ)
    → Holds inte program pc xs
    → drop pc program ≡ code
    → length program < u32_mod
    → Agrees program (pc + length code) (exec_times (length code) inte) (run_list code xs)
unfolding exec_times run_list
exec_times-run_list inte program pc [] xs h rest short = rw add-zero h
exec_times-run_list inte program pc (i ∷ code) xs h rest short =
    let (at, rest') = drop-cons program pc i code rest in
    let moved : suc pc + length code ≡ pc + length (i ∷ code) = omega arith in
    rw (← moved) (
      Agrees->>= program code (suc pc) (suc pc + length code) (length code) (exec inte)
        (operate_list (opcode_of i) xs) (exec-Agrees inte program pc i xs h at short)
        (λ inte₁ ys h₁. exec_times-run_list inte₁ program (suc pc) code ys h₁ rest' short))
