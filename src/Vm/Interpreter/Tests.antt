-- ===== src/Vm/Interpreter/Tests.antt =====
-- The interpreter at a concrete program.
use nextnucleus.Vm.Interpreter.{Interpreter, opcode_of, apply}
use nextnucleus.Vm.Interpreter.Run.{run_list, exec_times, Holds, Agrees, exec_times-run_list}
use nextnucleus.Base.{ℕ, ◌≡◌, refl, none, some, List, [], ◌∷◌, arith, replicate}

-- (2 - 3) * 5 and an unknown instruction, with 7 below
abbrev program : List ℕ
program = 1 ∷ 2 ∷ 9 ∷ []

abbrev loaded : Interpreter
loaded = record {
  sp = 4;
  lp = 0;
  pc = 0;
  stack = 7 ∷ 5 ∷ 3 ∷ 2 ∷ replicate 252 0;
  local = replicate 256 0;
  instructions = some program;
  constants = none;
}

loaded-Holds : Holds loaded program 0 (2 ∷ 3 ∷ 5 ∷ 7 ∷ [])
loaded-Holds = record {
  program_is = refl;
  pc_is = refl;
  size = refl;
  top = refl;
  fits = omega arith;
  words = (refl, (refl, (refl, (refl, tt))));
}

exec_times-run_list_example :
    Agrees program 3 (exec_times 3 loaded) (run_list program (2 ∷ 3 ∷ 5 ∷ 7 ∷ []))
exec_times-run_list_example =
    exec_times-run_list loaded program 0 program (2 ∷ 3 ∷ 5 ∷ 7 ∷ []) loaded-Holds refl
      (omega arith)

run_list_minus_five : run_list program (2 ∷ 3 ∷ 5 ∷ 7 ∷ []) ≡ some (4294967291 ∷ 7 ∷ [])
unfolding run_list opcode_of apply
run_list_minus_five = refl

run_list_underflow : run_list (0 ∷ []) (1 ∷ []) ≡ none
unfolding run_list opcode_of
run_list_underflow = refl
