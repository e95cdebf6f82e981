-- ===== src/Lang/Compiler/Ends.antt =====
-- nucleus/lang/compiler.h: what a compiler that has been started makes of a source, with the sources
-- that begin with an import, on which the parser does not end, and the statements on which it faults.
use nextnucleus.Base.{
  ℕ, ◌<◌, ◌≡◌, refl, sym, ap, subst, ◌∙◌, ◌≢◌, ◌⊎◌, inl, inr, Bool, true, false, ◌||◌, Option, none,
  some, List, arith, ◌==◌, if◌then◌else◌, ◌>>=◌, ◌>>◌, Bool-cases, length, set, length-set,
  get_elem?, get_elem?_total, u32_mod, u32,
}
use nextnucleus.Vm.Text.{Bytes}
use nextnucleus.Vm.Text.Compare.{IsText}
use nextnucleus.Lang.Token.{Token, LangError, out_of_memory, t_import, t_from}
use nextnucleus.Lang.Action.{Reply, done, raised, fault, exhausted, rounds}
use nextnucleus.Lang.Lexer.Laws.{unread}
use nextnucleus.Lang.Lexer.Scan.Progress.{IsParsed}
use nextnucleus.Lang.Lexer.Parse.Ready.{nothing}
use nextnucleus.Lang.Lexer.{Lexer}
use nextnucleus.Lang.Lexer
use nextnucleus.Lang.Ast.{
  Ast, Node, n_module, node_null, alone, node_at, put_node, change_node, clear,
}
use nextnucleus.Lang.Ast
use nextnucleus.Lang.Ast.Tables.{same_token}
use nextnucleus.Lang.Ast.Chain.{node_at-put_node, change_node_lem}
use nextnucleus.Lang.Ast.Sound.{IsSound}
use nextnucleus.Lang.Parser.{Parser, parser_peek}
use nextnucleus.Lang.Parser.Stmt.{parse, parse_fuel, import_round}
use nextnucleus.Lang.Parser.Post.{IsGood}
use nextnucleus.Lang.Parser.Runs.{Runs, returns, fails, sticks}
use nextnucleus.Lang.Parser.Modules.{HasNoImport, parse-import}
use nextnucleus.Lang.Parser.Program.{Program, parse_lem}
use nextnucleus.Lang.Compiler.{
  CompilerInfo, Compiler, Status, success, failure, Locals, parser_of, after_parse, compiler_init,
  compiler_prepare, analyze_phase, parse_phase, compile,
}

-- Between two sources: the arena has its block, and the root is its first node.
record IsIdle (c : Compiler) : Type 0 where
  block : length c.ast.nodes ≡ c.ast.node_capacity
  fits : c.ast.node_capacity < u32_mod
  room : 0 < c.ast.node_capacity
  root : c.ast.root ≡ 0

-- The token begins an import.
abbrev pub imports : Token → Bool
imports t = same_token t.type t_import || same_token t.type t_from

-- The answer of the parser that nulang_compile runs, from statement to statement.
abbrev pub Parsed : Locals → Bytes → Compiler → Reply Parser (Unit {0}) → Type 0
Parsed l source c x =
    Program (parse_fuel (parser_of l source c)) c.ast.root (parser_of l source c) x
    × (parse (parser_of l source c) ≡ x)

-- What the compilation of a source by the prepared compiler `c` comes to, by what the parser answers on
-- it: the compiler fails with the error of the parser, or the analyzer is run on the tree that the
-- parser leaves, which is sound, or the parser faults, or the first token begins an import and the
-- loop over the imports does not end.
pub data Compiles (l : Locals) (source : Bytes) (c : Compiler)
    : Reply Compiler Status → Type 0 where
  rejected :
      {q : Parser} {e : LangError}
      → Parsed l source c (raised e q)
      → Compiles l source c (done failure (record (after_parse c q) { error = some e }))
  analyzed :
      {q : Parser}
      → Parsed l source c (done tt q)
      → IsSound q.ast
      → Compiles l source c (analyze_phase l source (after_parse c q))
  stuck : Parsed l source c fault → Compiles l source c fault
  endless :
      (t : Token) (q : Parser)
      → parser_peek (parser_of l source c) ≡ done t q
      → imports t ≡ true
      → ((fuel : ℕ) → rounds fuel import_round tt (parser_of l source c) ≡ exhausted)
      → Compiles l source c exhausted

abbrev cleared : Ast → Node → Ast
cleared ast n = put_node (record ast { node_count = 1 }) 0 (alone n)

module _ (ast : Ast) (n : Node) (at : node_at ast 0 ≡ some n) where
  cleared-last :
      (id : ℕ) (m : Node)
      → id < 1
      → node_at (cleared ast n) id ≡ some m
      → (m.last_child ≡ node_null) ⊎ ((m.last_child < 1) × (m.last_child ≢ id))
  unfolding node_at
  cleared-last id m lt is =
      let e = node_at-put_node (record ast { node_count = 1 }) 0 id n (alone n) at in
      let zeroth : (id == 0) ≡ true = ground arith in
      let same : some (alone n) ≡ some m =
        ap (λ b. if b then some (alone n) else node_at ast id) (sym zeroth) ∙ sym e ∙ is in
      inl (ap (λ (x : Option Node). elim x [ none ↦ node_null | some y ↦ y.last_child ]) (sym same))

  clear_lem : clear ast ≡ some (cleared ast n)
  unfolding clear node_at
  clear_lem = change_node_lem (record ast { node_count = 1 }) 0 alone n at

  cleared-IsSound :
      length ast.nodes ≡ ast.node_capacity
      → ast.node_capacity < u32_mod
      → 0 < ast.node_capacity
      → IsSound (cleared ast n)
  unfolding put_node
  cleared-IsSound block fits room = record {
    block = length-set ast.nodes 0 (alone n) ∙ block;
    fits = fits;
    bound = omega arith;
    rooted = omega arith;
    last = cleared-last;
  }

-- A compiler that is prepared for a source.
record IsPrepared (source : Bytes) (c d : Compiler) : Type 0 where
  prepares : compiler_prepare source c ≡ some d
  sound : IsSound d.ast
  rooted : d.ast.root < d.ast.node_count

IsIdle-prepare : (source : Bytes) (c : Compiler) → IsIdle c → (d : Compiler) × IsPrepared source c d
unfolding compiler_prepare node_at put_node
IsIdle-prepare source c v =
    let block = v.block in
    let room = v.room in
    let (n, at) = get_elem?_total c.ast.nodes 0 (omega arith) in
    (
      record c { ast = cleared c.ast n; source = some source },
      record {
        prepares =
            ap
              (λ (o : Option Ast). elim o as (λ _. Option Compiler) [
                | none ↦ none
                | some a ↦ some (record c { ast = a; source = some source })
              ])
              (clear_lem c.ast n at);
        sound = cleared-IsSound c.ast n at v.block v.fits v.room;
        rooted = (let z = v.root in omega arith);
      },
    )

module _ (l : Locals) (source : Bytes) (t : IsText source) (parsed : IsParsed source) where
  parser_of-IsGood : (d : Compiler) → IsSound d.ast → IsGood (parser_of l source d) (length source)
  unfolding Lexer.init
  parser_of-IsGood d sound = record {
    left = length source;
    ready = record {
      offset = 0;
      at = unread refl refl (omega arith);
      text = t;
      parsed = parsed;
      count = refl;
    };
    ahead = nothing refl;
    le = omega arith;
    sound = sound;
  }

-- What the compiler makes of the parser's answer.
abbrev after_parsing : Locals → Bytes → Compiler → Reply Parser (Unit {0}) → Reply Compiler Status
after_parsing l source d (done _ q) = analyze_phase l source (after_parse d q)
after_parsing l source d (raised e q) = done failure (record (after_parse d q) { error = some e })
after_parsing l source d fault = fault
after_parsing l source d exhausted = exhausted

parse_phase-eq :
    (l : Locals) (source : Bytes) (d : Compiler) (x : Reply Parser (Unit {0}))
    → parse (parser_of l source d) ≡ x
    → parse_phase l source d ≡ after_parsing l source d x
unfolding parse_phase
parse_phase-eq l source d x e = ap (after_parsing l source d) e

Runs-Compiles :
    (l : Locals) (source : Bytes) (c : Compiler) {start : Lexer} {Q : Unit {0} → Parser → Type 0}
    {x : Reply Parser (Unit {0})}
    → ((u : Unit {0}) (q : Parser) → Q u q → IsSound q.ast)
    → Runs start Q x
    → Parsed l source c x
    → Compiles l source c (after_parsing l source c x)
Runs-Compiles l source c sound (returns {a = u} {q = q} h) w = analyzed w (sound u q h)
Runs-Compiles l source c sound fails w = rejected w
Runs-Compiles l source c sound (sticks t m f h is) w = stuck w

-- The token that an action answers begins an import.
abbrev answers_import : Reply Parser Token → Bool
answers_import (done t q) = imports t
answers_import _ = false

answers_import_lem :
    (x : Reply Parser Token)
    → answers_import x ≡ true
    → (t : Token) × (q : Parser) × (x ≡ done t q) × (imports t ≡ true)
answers_import_lem (done t q) h = (t, q, refl, h)
answers_import_lem (raised e q) h = cc
answers_import_lem fault h = cc
answers_import_lem exhausted h = cc

module _ (l : Locals) (source : Bytes) (t : IsText source) (parsed : IsParsed source)
    (c d : Compiler) (v : IsPrepared source c d) where
  parse_phase-Compiles : Compiles l source d (parse_phase l source d)
  unfolding Lexer.init
  parse_phase-Compiles =
      let p = parser_of l source d in
      let good = parser_of-IsGood l source t parsed d v.sound in
      elim (Bool-cases (answers_import (parser_peek p))) [
        | inl h ↦
            let (u, q, peeks, is) = answers_import_lem (parser_peek p) h in
            let (endless_rounds, e) = parse-import p (length source) u q good peeks is in
            subst (Compiles l source d) (sym (parse_phase-eq l source d exhausted e))
              (endless u q peeks is endless_rounds)
        | inr h ↦
            let first : HasNoImport p = λ u q peeks. ap answers_import (sym peeks) ∙ h in
            let (program, run) = parse_lem p (length source) good v.rooted first in
            subst (Compiles l source d) (sym (parse_phase-eq l source d (parse p) refl))
              (Runs-Compiles l source d (λ _ q (j, w, le). w.good.sound) run (program, refl))
      ]

compile-eq :
    (l : Locals) (source : Bytes) (c d : Compiler)
    → compiler_prepare source c ≡ some d
    → compile l source c ≡ parse_phase l source d
unfolding compile
compile-eq l source c d e =
    ap
      (λ (o : Option Compiler). elim o as (λ _. Reply Compiler Status) [
        | none ↦ fault
        | some c' ↦ parse_phase l source c'
      ])
      e

compile-Compiles :
    (l : Locals) (source : Bytes) (c : Compiler)
    → IsText source
    → IsParsed source
    → IsIdle c
    → (d : Compiler) × (compiler_prepare source c ≡ some d)
      × Compiles l source d (compile l source c)
compile-Compiles l source c t parsed v =
    let (d, w) = IsIdle-prepare source c v in
    (
      d,
      w.prepares,
      subst (Compiles l source d) (sym (compile-eq l source c d w.prepares))
          (parse_phase-Compiles l source t parsed c d w),
    )

abbrev fresh : ℕ → List Node → Node → Ast
fresh capacity block n = record {
  root = 0;
  nodes = set block 0 (record (alone n) { type = n_module });
  node_capacity = capacity;
  node_count = 1;
}

init-fresh :
    (capacity : ℕ) (block : List Node) (n : Node)
    → 0 < capacity
    → get_elem? block 0 ≡ some n
    → Ast.init capacity (some block) ≡ some (some (fresh capacity block n))
unfolding Ast.init
init-fresh capacity block n lt at =
    let nz : (capacity == 0) ≡ false = ground arith in rw (nz, at, ◌>>=◌, ◌>>◌) refl

-- nulang_compiler_init leaves an idle compiler.
compiler_init-IsIdle :
    (info : CompilerInfo) (block : List Node) (c : Compiler)
    → 0 < info.node_capacity
    → info.node_capacity < u32_mod
    → length block ≡ info.node_capacity
    → (d : Compiler) × (compiler_init info (some block) c ≡ done success d) × IsIdle d
unfolding compiler_init
compiler_init-IsIdle info block c lt fits size =
    let (n, at) = get_elem?_total block 0 (omega arith) in
    let word : u32 info.node_capacity ≡ info.node_capacity = omega arith in
    (
      record c { ast = fresh info.node_capacity block n; error = none },
      ap
          (λ (o : Option (Option Ast)). elim o as (λ _. Reply Compiler Status) [
            | none ↦ fault
            | some none ↦ done failure (record c { error = some out_of_memory })
            | some (some ast) ↦ done success (record c { ast = ast; error = none })
          ])
          (ap (λ k. Ast.init k (some block)) word ∙ init-fresh info.node_capacity block n lt at),
      record {
        block = length-set block 0 (record (alone n) { type = n_module }) ∙ size;
        fits = fits;
        room = lt;
        root = refl;
      },
    )

-- For a capacity of nodes that is not 0 and below 2^32, and a block of that many nodes from the
-- allocator, nulang_compiler_init succeeds, and nulang_compile on a source as in
-- Lang.Lexer.Parse.Laws.parse_token_lem prepares the compiler and comes to what nulang__parse
-- answers from there, statement by statement as in Lang.Parser.Program.parse_lem: an error of the
-- parser is the compiler's; a tree is sound, and is analyzed; a fault in a statement is a fault;
-- and if the first token is `import` or `from`, the loop over the imports runs out of every fuel.
pub compile_lem :
    (info : CompilerInfo) (block : List Node) (c : Compiler) (l : Locals) (source : Bytes)
    → 0 < info.node_capacity
    → info.node_capacity < u32_mod
    → length block ≡ info.node_capacity
    → IsText source
    → IsParsed source
    → (d : Compiler) × (compiler_init info (some block) c ≡ done success d)
      × (d' : Compiler) × (compiler_prepare source d ≡ some d')
      × Compiles l source d' (compile l source d)
compile_lem info block c l source lt fits size t parsed =
    let (d, e, v) = compiler_init-IsIdle info block c lt fits size in
    let (d', prepares, h) = compile-Compiles l source d t parsed v in (d, e, d', prepares, h)
