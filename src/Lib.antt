-- ===== src/Lib.antt =====
-- Nucleus: a small virtual machine and the front end of its scripting language.
--
-- The machine (nucleus/vm/) keeps its objects in containers with handles. A slot map and a slot
-- list hold fixed numbers of objects and their order, an object list recycles the nodes of
-- removed objects, and the table manager keeps the archetypes of entities, their fields, and the
-- chunks of memory that hold entities. nu_vm_init starts the tables and the resources as a
-- cartridge says, and an interpreter executes bytecode on a stack. All of them name things by
-- strings with a hash. The front end (nucleus/lang/) reads a source text with a lexer, on which
-- a parser of a tree of nodes, an analyzer of names and archetypes, and the compiler that runs
-- them stand.
--
-- Base: the names that the modules share, lists under native indices, machine words, bit
--   operations, integers.
-- Vm/Types: the primitive types and the error codes (nucleus/vm/types.h, nucleus/vm/error.h).
-- Vm/Text: memory blocks, strings, hashes and names (nucleus/vm/memory.h, nucleus/vm/string.h).
--   Compare, Ident and Align hold the theorems.
-- Vm/Slotmap: nu__slotmap_init, _get, _add and _remove on a block of objects
--   (nucleus/vm/slotmap.h). Chain describes the free list inside the block, Valid the
--   well-formed states, and Session the states that sequences of operations reach.
-- Vm/Links: the store of links that the two kinds of lists change, and the taking out of an
--   item. Seg describes a segment of a doubly linked list, Unlink the effect on it.
-- Vm/Slotlist: nu__slotlist_init, _add_first, _remove and _next (nucleus/vm/slotmap.h).
-- Vm/ObjList: nu__list_init, _append, _remove, _first and _next (nucleus/vm/list.h), with
--   addresses as numbers. Free describes the list with its recycled nodes, Pointer the distance
--   between a header and its object.
-- Vm/Table: handles and archetypes (nucleus/vm/table.h); Chunk has the chunks, nu__spawn and
--   nu__table_manager_init. Names has the well-formed managers, Fields and Create the effect of
--   nu__archetype_create, Start that of nu__table_manager_init.
-- Vm/Fix: powers of two and the readers of number literals (nucleus/vm/math.h); Arith has the
--   arithmetic. Log has the binary logarithm, Laws the readers, Product the multiplication as
--   one of integers.
-- Vm/Interpreter: nu__interpreter_init and _exec (nucleus/vm/interpreter.h). Run has the machine
--   on a list that it implements.
-- Vm/Machine: nu_vm_init and what it starts (nucleus/vm.h, nucleus/vm/property.h,
--   nucleus/vm/resource.h, nucleus/vm/cartridge.h, nucleus/vm/allocator.h). Start says what it
--   leaves.
-- Lang/Token: tokens and error codes (nucleus/lang/token.h, nucleus/lang/error.h).
-- Lang/Lexer: the lexer's state and its operations on characters (nucleus/lang/lexer.h). Keyword
--   has the second half of nulang__consume_identifier, Scan the tokens of several characters,
--   Parse the loop of nulang__lexer_parse_token and the queue of peeked tokens. Laws relates a
--   lexer to its offset in the source, Scan/Laws and Scan/Literals say where the loops end,
--   Scan/Progress that every way to read a token moves on; Parse/Typed says that the value of a
--   token fits its type, and Parse/Ready how many tokens are left for a parser that peeks one.
-- Lang/Action: actions that end with a value or an error code, fault, or run out of fuel, and
--   loops of them.
-- Lang/Builtin: strings of the source, and builtin functions (nucleus/lang/builtin.h).
-- Lang/Ast: the arena of syntax nodes and the children of a node (nucleus/lang/ast.h). Tables
--   has the sets of types and operators, Foreach the loop over the children. Chain, Childs,
--   Walk, Arena and Loop relate them to the list of the children; Sound describes the arena
--   while a parser fills it.
-- Lang/Parser: the parser's state and its operations on tokens (nucleus/lang/parser.h), Expr the
--   expressions, Stmt the statements and nulang__parse, Idents a list of identifiers. Post,
--   Nodes and Loops say what its operations on tokens and on nodes, and its loops, keep, and
--   Stays what an expected token does that is not there. Chains, Calls, Atoms and Total build on
--   them for expressions, and Simple, Runs, Blocks, Fundecl and Modules for statements and
--   modules; Program takes nulang__parse from statement to statement.
-- Lang/Analyzer: nulang__analyze (nucleus/lang/analyzer.h), with Symbol, Archetype and Types for
--   the files of that name in nucleus/lang/analyzer/. Symbol/Scope describes the symbol table,
--   Symbol/Tree resolves the names of a tree by recursion, Symbol/Outcome and Symbol/Resolve
--   relate the code to that; Types/Typing has typing rules for operators.
-- Lang/Compiler: nulang_compiler_init, _free and nulang_compile (nucleus/lang/compiler.h); Ends
--   takes a source through it.
--
-- A result `none` stands for undefined behaviour: an access outside a block, a null pointer, a
-- failed assertion, a signed overflow, and in the lexer a loop that is out of fuel. So a theorem
-- that a call is `some` says that it ends and stays in bounds. Loops that count down recurse on
-- the count; the walk through the archetypes has the number of archetypes and one more as its
-- fuel, the walk through the chunks the number of chunks and one more, each loop of the lexer
-- and of the parser the length of the source and two more, since a round takes at least a
-- character or a token; the loop over the children of a node, and the recursion on a tree, have
-- the number of nodes in the arena and one more. The readers of literals have the count of
-- characters as fuel, which is enough while their 32-bit counters do not wrap around. In the
-- parser, the analyzer and the compiler, `fault` is undefined behaviour, and `exhausted` a loop
-- that is out of fuel, which nulang__parse is at an import. Machine words are natural numbers
-- with the remainder written out.
--
-- The memory allocator is a parameter: what it answers is an argument of the operations that
-- call it. A name or a source is the list of the bytes before its NUL. The analyzer's symbol
-- arrays are arguments, whose length stands for the 1024 of the source. Not modelled are the
-- part of nucleus/lang/analyzer/type.h behind nulang__check_binop, which does not compile and is
-- included nowhere, the printer, which only writes output, the functions of nucleus/vm/math.h
-- that only answer 0 so far or convert to floats, the allocator that calls malloc, and the
-- renderer; nu__field_build stands in a comment of the source.
pub mod Base
pub mod Vm
pub mod Lang
