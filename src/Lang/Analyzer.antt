-- ===== src/Lang/Analyzer.antt =====
-- nucleus/lang/analyzer.h: nulang__analyze.
pub mod Symbol
pub mod Archetype
pub mod Types
mod Tests
use nextnucleus.Base.{ℕ, List}
use nextnucleus.Vm.Text.{Bytes}
use nextnucleus.Vm.Table.{TableManager}
use nextnucleus.Lang.Token.{Span, LangError}
use nextnucleus.Lang.Builtin.{SourceString}
use nextnucleus.Lang.Action.{Action, Reply, done, raised, fault, exhausted}
use nextnucleus.Lang.Ast.{Ast}
use nextnucleus.Lang.Analyzer.Symbol.{Resolver, resolve_symbols}
use nextnucleus.Lang.Analyzer.Archetype.{ArchetypeResolver, resolve_archetypes}

-- What the analysis works on: the tree, the tables of the machine, the text, the span of the error
-- data, and what the stack holds where the arrays of the symbol resolver lie.
pub record Analysis : Type 0 where
  pub ast : Ast
  pub tables : TableManager
  pub source : Bytes
  pub error : Span
  pub names : List SourceString
  pub ids : List ℕ

abbrev pub symbols_of : Analysis → Resolver
symbols_of a = record {
  ast = a.ast;
  names = a.names;
  ids = a.ids;
  size = 0;
  source = a.source;
  error = a.error;
}

abbrev pub archetypes_of : Analysis → Resolver → ArchetypeResolver
archetypes_of a r = record { ast = r.ast; tables = a.tables; source = a.source; error = r.error }

-- nulang__analyze: the symbols, and unless that fails the archetypes
unfoldable pub analyze_archetypes : Analysis → Resolver → Reply Analysis (Unit {0})
analyze_archetypes a r = elim (resolve_archetypes (archetypes_of a r)) [
  | done _ q ↦ done tt (record a { ast = q.ast; error = q.error })
  | raised e q ↦ raised e (record a { ast = q.ast; error = q.error })
  | fault ↦ fault
  | exhausted ↦ exhausted
]

unfoldable pub analyze : Action Analysis (Unit {0})
unfolding resolve_symbols analyze_archetypes
analyze a = elim (resolve_symbols (symbols_of a)) [
  | done _ r ↦ analyze_archetypes a r
  | raised e r ↦ raised e (record a { ast = r.ast; error = r.error })
  | fault ↦ fault
  | exhausted ↦ exhausted
]
