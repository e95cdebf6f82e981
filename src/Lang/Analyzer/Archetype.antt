-- ===== src/Lang/Analyzer/Archetype.antt =====
-- nucleus/lang/analyzer/archetype.h: the archetypes that the types of a tree name.
use nextnucleus.Base.{ℕ, zero, suc, ◌+◌, Option, none, some, ◌==◌, if◌then◌else◌, length, drop}
use nextnucleus.Vm.Types.{entity, same_primitive}
use nextnucleus.Vm.Text.{Bytes, uidn}
use nextnucleus.Vm.Table.{TableManager, find}
use nextnucleus.Lang.Token.{Span, LangError}
use nextnucleus.Lang.Builtin.{SourceString}
use nextnucleus.Lang.Action.{
  Action, done, raised, fault, exhausted, ◌>>=◌, ◌>>◌, pure, give_up, or_fault,
}
use nextnucleus.Lang.Ast.{
  Ast, Node, NodeValue, Vartype, node_at, put_node, n_fundecl, n_vardecl, n_argdecl, n_insert,
  n_singleton,
}
use nextnucleus.Lang.Ast.Foreach.{foreach_childs}

-- nulang__archetype_resolver_t, with the tree, the table manager of the machine, the text that the
-- names point to, and the span of the error data
pub record ArchetypeResolver : Type 0 where
  pub ast : Ast
  pub tables : TableManager
  pub source : Bytes
  pub error : Span

unfoldable pub write_value : ℕ → Node → NodeValue → Action ArchetypeResolver (Unit {0})
unfolding put_node
write_value id n v r = done tt (record r { ast = put_node r.ast id (record n { value = v }) })

-- nulang__find_archetype: `write` stores the handle, also when it is null
unfoldable pub lookup : SourceString → ArchetypeResolver → Option ℕ
unfolding uidn find
lookup name r = elim (uidn (drop name.p r.source) name.n) [
  | none ↦ none
  | some uid ↦ find r.tables uid
]

unfoldable pub not_found : Span → Action ArchetypeResolver (Unit {0})
not_found span r = raised LangError.archetype_not_found (record r { error = span })

unfoldable pub find_archetype :
    SourceString
    → Span
    → (ℕ → Action ArchetypeResolver (Unit {0}))
    → Action ArchetypeResolver (Unit {0})
unfolding lookup not_found
find_archetype name span write r = elim (lookup name r) [
  | none ↦ fault
  | some a ↦ (do write a; if a == 0 then not_found span else pure tt) r
]

-- nulang__resolve_vartype
unfoldable pub resolve_vartype :
    Span
    → Vartype
    → (Vartype → Action ArchetypeResolver (Unit {0}))
    → Action ArchetypeResolver (Unit {0})
unfolding find_archetype
resolve_vartype span type write =
    if same_primitive type.primitive entity
    then elim type.archetype_name [
      | none ↦ give_up
      | some name ↦ find_archetype name span (λ a. write (record type { archetype = some a }))
    ]
    else pure tt

-- nulang__resolve_archetype: what it does at a node, where a value that does not belong to the type is
-- a fault, and then at its children
unfoldable pub resolve_node : ℕ → Node → Action ArchetypeResolver (Unit {0})
unfolding write_value find_archetype resolve_vartype
resolve_node id n = elim n.type [
  | n_vardecl ↦ elim n.value [
    | NodeValue.vardecl name type ↦
        resolve_vartype n.span type (λ t. write_value id n (NodeValue.vardecl name t))
    | _ ↦ give_up
  ]
  | n_argdecl ↦ elim n.value [
    | NodeValue.argdecl name type ↦
        resolve_vartype n.span type (λ t. write_value id n (NodeValue.argdecl name t))
    | _ ↦ give_up
  ]
  | n_fundecl ↦ elim n.value [
    | NodeValue.fundecl name type exported ↦
        resolve_vartype n.span type (λ t. write_value id n (NodeValue.fundecl name t exported))
    | _ ↦ give_up
  ]
  | n_insert ↦ elim n.value [
    | NodeValue.insert _ name ↦
        find_archetype name n.span (λ a. write_value id n (NodeValue.insert a name))
    | _ ↦ give_up
  ]
  | n_singleton ↦ elim n.value [
    | NodeValue.singleton _ name ↦
        find_archetype name n.span (λ a. write_value id n (NodeValue.singleton a name))
    | _ ↦ give_up
  ]
  | _ ↦ pure tt
]

unfoldable pub resolve_archetype : ℕ → ℕ → Action ArchetypeResolver (Unit {0})
unfolding resolve_node foreach_childs
resolve_archetype zero id r = exhausted
resolve_archetype (suc fuel) id r =
    (do
      n ← or_fault (node_at r.ast id)
      resolve_node id n
      foreach_childs (λ s. s.ast) (resolve_archetype fuel) id)
      r

-- nulang__resolve_archetypes: a path in the tree has fewer nodes than the arena
unfoldable pub resolve_archetypes : Action ArchetypeResolver (Unit {0})
unfolding resolve_archetype
resolve_archetypes r = resolve_archetype (length r.ast.nodes + 1) r.ast.root r
