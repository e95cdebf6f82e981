-- ===== src/Lang/Compiler/Tests.antt =====
-- Witnesses for the compiler.
use nextnucleus.Base.{ℕ, ◌≡◌, refl, none, some, List, [], ◌∷◌, arith}
use nextnucleus.Vm.Table.{TableManager}
use nextnucleus.Lang.Token.{Location, t_eof}
use nextnucleus.Lang.Action.{done}
use nextnucleus.Lang.Lexer.Scan.Progress.{IsParsed-short}
use nextnucleus.Lang.Ast.{Node, n_module, unset}
use nextnucleus.Lang.Compiler.{
  CompilerInfo, Compiler, success, Locals, compiler_init, compiler_prepare, compile,
}
use nextnucleus.Lang.Compiler.Ends.{Compiles, compile_lem}

abbrev info : CompilerInfo
info = record {
  symbol_capacity = 256;
  archetype_capacity = 256;
  block_capacity = 256;
  node_capacity = 3;
}

abbrev start : Location
start = record { line = 1; column = 1; index = 0 }

abbrev blank_node : Node
blank_node = record {
  type = n_module;
  value = unset;
  span = record { start = start; stop = start };
  parent = 0;
  first_child = 0;
  last_child = 0;
  next_sibling = 0;
}

abbrev no_tables : TableManager
no_tables = record {
  archetype_capacity = 1;
  field_capacity = 1;
  chunk_capacity = 0;
  archetype_count = 0;
  field_count = 0;
  first_archetype = 0;
  free_chunk = 0;
  archetypes = [];
  fields = [];
  chunks = [];
  bytes = [];
}

abbrev compiler : Compiler
compiler = record {
  tables = no_tables;
  ast = record { root = 0; nodes = []; node_capacity = 0; node_count = 0 };
  source = none;
  error = none;
  span = record { start = start; stop = start };
  token_expect = t_eof;
  token_got = t_eof;
}

abbrev locals : Locals
locals = record { peek_char = 0; peek_loc = start; names = []; ids = [] }

-- The block of three nodes, and the source `a=b`.
abbrev block : List Node
block = blank_node ∷ blank_node ∷ blank_node ∷ []

abbrev source : List ℕ
source = 97 ∷ 61 ∷ 98 ∷ []

compile_lem_example :
    (d : Compiler) × (compiler_init info (some block) compiler ≡ done success d)
    × (d' : Compiler) × (compiler_prepare source d ≡ some d')
    × Compiles locals source d' (compile locals source d)
compile_lem_example =
    compile_lem info block compiler locals source (omega arith) (omega arith) refl
      ((omega arith, omega arith), ((omega arith, omega arith), ((omega arith, omega arith), tt)))
      (IsParsed-short source (omega arith))
