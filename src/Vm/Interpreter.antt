-- ===== src/Vm/Interpreter.antt =====
-- nucleus/vm/interpreter.h: the interpreter of bytecode, which has a stack of words of 32 bits.
-- `none` is an access outside an array or through a null pointer, a signed overflow, or a division
-- by zero. The counters are nu_u32_t, so that they wrap around.
pub mod Run
mod Tests
use nextnucleus.Base.Int.{◌+ℤ◌, ◌-ℤ◌, ◌*ℤ◌, quot, int_of, word_of}
use nextnucleus.Vm.Fix.Arith.{fmul, fdiv}
use nextnucleus.Base.{
  ℕ, zero, suc, ◌+◌, ◌-◌, ◌%◌, ◌&&◌, Option, none, some, List, ltb, ◌==◌, if◌then◌else◌, ◌>>=◌,
  ◌>>◌, assert, length, get_elem?, set, u32_mod, u32,
}

-- nu_opcode_t
pub data Opcode : Type 0 where
  add sub muli mulf divi divf unknown : Opcode

-- NU_GET_OPCODE, and the cases of the switch on it
unfoldable pub opcode_of : ℕ → Opcode
opcode_of instruction =
    let i = instruction % 256 in
    if i == 0
    then add
    else if i == 1
    then sub
    else if i == 2
    then muli
    else if i == 3
    then mulf
    else if i == 4
    then divi
    else if i == 5
    then divf
    else unknown

abbrev pub stack_size : ℕ
stack_size = 256

-- nu__interpreter_t
pub record Interpreter : Type 0 where
  pub sp : ℕ
  pub lp : ℕ
  pub pc : ℕ
  pub stack : List ℕ
  pub local : List ℕ
  pub instructions : Option (List ℕ)
  pub constants : Option (List ℕ)

-- The loop of nu__interpreter_init: `n` rounds are left and `i` is the counter.
unfoldable pub init_loop : ℕ → ℕ → Interpreter → Option Interpreter
init_loop zero i inte = some inte
init_loop (suc n) i inte = do
  assert (ltb i (length inte.stack) && ltb i (length inte.local))
  init_loop n (i + 1) (record inte { stack = set inte.stack i 0; local = set inte.local i 0 })

-- nu__interpreter_init
unfoldable pub init : Interpreter → Option Interpreter
unfolding init_loop
init inte = do
  inte₁ ← init_loop stack_size 0 (record inte { sp = 0; lp = 0; pc = 0 })
  some (record inte₁ { instructions = none; constants = none })

-- `inte->stack[--inte->sp]`
unfoldable pub pop : Interpreter → Option (ℕ × Interpreter)
pop inte =
    let sp = (inte.sp + u32_mod - 1) % u32_mod in
    do w ← get_elem? inte.stack sp; some (w, record inte { sp = sp })

-- `inte->stack[inte->sp++] = v`
unfoldable pub push : ℕ → Interpreter → Option Interpreter
push v inte = do
  assert (ltb inte.sp (length inte.stack))
  some (record inte { stack = set inte.stack inte.sp v; sp = u32 (inte.sp + 1) })

-- What a case of the switch computes from the two words that it pops.
unfoldable pub apply : Opcode → ℕ → ℕ → Option ℕ
unfolding ◌+ℤ◌ ◌-ℤ◌ ◌*ℤ◌ quot fmul fdiv
apply add a b = word_of (int_of a +ℤ int_of b)
apply sub a b = word_of (int_of a -ℤ int_of b)
apply muli a b = word_of (int_of a *ℤ int_of b)
apply mulf a b = some (fmul a b)
apply divi a b = do q ← quot (int_of a) (int_of b); word_of q
apply divf a b = fdiv a b
apply unknown a b = none

-- A case of the switch, but the last.
unfoldable pub binary : Opcode → Interpreter → Option Interpreter
unfolding pop push
binary op inte = do (a, inte₁) ← pop inte; (b, inte₂) ← pop inte₁; v ← apply op a b; push v inte₂

-- The switch.
unfoldable pub operate : Opcode → Interpreter → Option Interpreter
unfolding binary apply
operate unknown inte = some inte
operate op inte = binary op inte

-- `inte->instructions[inte->pc++]`
unfoldable pub fetch : Interpreter → Option (ℕ × Interpreter)
fetch inte = do
  code ← inte.instructions
  instruction ← get_elem? code inte.pc
  some (instruction, record inte { pc = u32 (inte.pc + 1) })

-- nu__interpreter_exec
unfoldable pub exec : Interpreter → Option Interpreter
unfolding fetch opcode_of operate
exec inte = do (instruction, inte₁) ← fetch inte; operate (opcode_of instruction) inte₁
