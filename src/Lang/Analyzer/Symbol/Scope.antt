-- ===== src/Lang/Analyzer/Symbol/Scope.antt =====
-- The symbol table of nucleus/lang/analyzer/symbol.h against the list of the symbols in scope.
use nextnucleus.Base.{
  ℕ, suc, ◌+◌, ◌≤◌, ◌<◌, ◌≡◌, refl, sym, ap, subst, ◌∙◌, ◌≢◌, ◌⊎◌, inl, inr, Option, none, some,
  List, [], ◌∷◌, ◌++◌, arith, ltb, if◌then◌else◌, ltb→lt, Bool-cases, Option-cases, length,
  get_elem?, set, length-set, get_elem?-set_self, get_elem?-set_ne, lt-length_of_get_elem?,
}
use nextnucleus.Vm.Text.{Bytes}
use nextnucleus.Lang.Token.{Span, LangError}
use nextnucleus.Lang.Builtin.{SourceString}
use nextnucleus.Lang.Action.{done, raised, fault}
use nextnucleus.Lang.Ast.{Node, node_at}
use nextnucleus.Lang.Analyzer.Symbol.{
  Resolver, same_name, find_loop, find_symbol, store_symbol, define_symbol, raise_at,
}

-- The symbols in scope, the newest first, each with the node that defines it.
abbrev pub Symbols : Type 0
Symbols = List (SourceString × ℕ)

-- The newest symbol with a name.
abbrev pub lookup : Bytes → SourceString → Symbols → Option ℕ
lookup source name [] = none
lookup source name ((s, id) ∷ env) =
    if same_name source s name then some id else lookup source name env

-- The first `n` entries of the two arrays are the symbols, the newest last.
pub data Holds (names : List SourceString) (ids : List ℕ) : ℕ → Symbols → Type 0 where
  nil : Holds names ids 0 []
  cons :
      {n : ℕ} {env : Symbols} (s : SourceString) (id : ℕ)
      → get_elem? names n ≡ some s
      → get_elem? ids n ≡ some id
      → Holds names ids n env
      → Holds names ids (suc n) ((s, id) ∷ env)

-- The table of the resolver: arrays of one length, which hold the symbols in scope.
pub record IsTable (r : Resolver) (env : Symbols) : Type 0 where
  pub arrays : length r.ids ≡ length r.names
  pub holds : Holds r.names r.ids r.size env

pub Holds-bound :
    {names : List SourceString} {ids : List ℕ} {n : ℕ} {env : Symbols}
    → Holds names ids n env
    → n ≤ length names
Holds-bound nil = omega arith
Holds-bound {names = names} (cons {n = n} s id at there rest) = lt-length_of_get_elem? names n at

pub length-Holds :
    {names : List SourceString} {ids : List ℕ} {n : ℕ} {env : Symbols}
    → Holds names ids n env
    → n ≡ length env
length-Holds nil = refl
length-Holds (cons s id at there rest) = ap suc (length-Holds rest)

-- A write behind the entries keeps them.
pub Holds-set :
    {names : List SourceString} {ids : List ℕ} {n : ℕ} {env : Symbols} (k : ℕ) (s : SourceString)
    (id : ℕ)
    → n ≤ k
    → Holds names ids n env
    → Holds (set names k s) (set ids k id) n env
Holds-set k s id h nil = nil
Holds-set {names = names} {ids = ids} k s id h (cons {n = n} t j at there rest) =
    let ne : k ≢ n = λ e. omega arith in
    cons t j (get_elem?-set_ne names k n s ne ∙ at) (get_elem?-set_ne ids k n id ne ∙ there)
      (Holds-set k s id (omega arith) rest)

-- The entries before those of the older symbols.
pub Holds-drop :
    {names : List SourceString} {ids : List ℕ} {n : ℕ} (new env : Symbols)
    → Holds names ids n (new ++ env)
    → Holds names ids (length env) env
Holds-drop {names = names} {ids = ids} [] env holds =
    subst (λ k. Holds names ids k env) (length-Holds holds) holds
Holds-drop (x ∷ new) env (cons s id at there rest) = Holds-drop new env rest

find_loop_lem :
    (r : Resolver) (name : SourceString) {n : ℕ} (env : Symbols)
    → Holds r.names r.ids n env
    → find_loop r name n ≡ some (lookup r.source name env)
unfolding find_loop
find_loop_lem r name [] nil = refl
find_loop_lem r name (x ∷ env) (cons s id at there rest) =
    let ih = find_loop_lem r name env rest in ground arith

-- The resolver after a symbol is stored; the search for the name has left the span of the node in the
-- error data.
abbrev pub stored : Resolver → SourceString → ℕ → Span → Resolver
stored r name id span = record r {
  names = set r.names r.size name;
  ids = set r.ids r.size id;
  size = r.size + 1;
  error = span;
}

stored-IsTable :
    (r : Resolver) (env : Symbols) (name : SourceString) (id : ℕ) (span : Span)
    → IsTable r env
    → r.size < length r.names
    → IsTable (stored r name id span) ((name, id) ∷ env)
stored-IsTable r env name id span v h = record {
  arrays = length-set r.ids r.size id ∙ (v.arrays ∙ sym (length-set r.names r.size name));
  holds =
      let arrays = v.arrays in
      let new : suc r.size ≡ r.size + 1 = omega arith in
      let names = set r.names r.size name in
      let ids = set r.ids r.size id in
      subst (λ k. Holds names ids k ((name, id) ∷ env)) new
        (cons name id (get_elem?-set_self r.names r.size name h)
          (get_elem?-set_self r.ids r.size id (omega arith))
          (Holds-set r.size name id (omega arith) v.holds));
}

module _ (r : Resolver) (env : Symbols) (v : IsTable r env) (id : ℕ) (n : Node)
    (here : node_at r.ast id ≡ some n) (name : SourceString) where
  -- The search answers the newest symbol with the name, or the error at the node.
  pub find_symbol_lem : find_symbol id name r ≡ (elim (lookup r.source name env) [
    | some ref ↦ done ref r
    | none ↦ raised LangError.unresolved_symbol (record r { error = n.span })
  ])
  unfolding find_symbol raise_at
  find_symbol_lem =
      let l = find_loop_lem r name env v.holds in
      elim (Option-cases (lookup r.source name env)) [
        | inl e ↦ ground arith
        | inr (ref, e) ↦ ground arith
      ]

  define_symbol-known :
      (ref : ℕ)
      → lookup r.source name env ≡ some ref
      → define_symbol name id r
        ≡ raised LangError.symbol_already_defined (record r { error = n.span })
  unfolding define_symbol raise_at store_symbol
  define_symbol-known ref h = let found = find_symbol_lem in ground arith

  define_symbol-new :
      lookup r.source name env ≡ none
      → length env < length r.names
      → define_symbol name id r ≡ done tt (stored r name id n.span)
  unfolding define_symbol raise_at store_symbol
  define_symbol-new h room =
      let found = find_symbol_lem in
      let count = length-Holds v.holds in let arrays = v.arrays in ground arith

  define_symbol-full :
      lookup r.source name env ≡ none
      → length r.names ≤ length env
      → define_symbol name id r ≡ fault
  unfolding define_symbol raise_at store_symbol
  define_symbol-full h room =
      let found = find_symbol_lem in let count = length-Holds v.holds in ground arith

  -- For a table of the symbols in scope, and a node in the arena, nulang__define_symbol reports a
  -- name that is in scope as defined already, at the node; it puts a new one behind the others if
  -- the arrays have room; and it writes outside the arrays otherwise.
  pub define_symbol_lem :
      ((ref : ℕ) × (lookup r.source name env ≡ some ref)
        × (define_symbol name id r
            ≡ raised LangError.symbol_already_defined (record r { error = n.span })))
      ⊎ (((lookup r.source name env ≡ none)
            × (length env < length r.names)
            × (define_symbol name id r ≡ done tt (stored r name id n.span))
            × IsTable (stored r name id n.span) ((name, id) ∷ env))
          ⊎ ((lookup r.source name env ≡ none)
              × (length r.names ≤ length env)
              × (define_symbol name id r ≡ fault)))
  define_symbol_lem = elim (Option-cases (lookup r.source name env)) [
    | inr (ref, e) ↦ inl (ref, e, define_symbol-known ref e)
    | inl e ↦ elim (Bool-cases (ltb (length env) (length r.names))) [
      | inl h ↦
          let room = ltb→lt (length env) (length r.names) h in
          let count = length-Holds v.holds in
          inr (
            inl (
              e,
              room,
              define_symbol-new e room,
              stored-IsTable r env name id n.span v (omega arith),
            ))
      | inr h ↦
          let full : length r.names ≤ length env = ground arith in
          inr (inr (e, full, define_symbol-full e full))
    ]
  ]
