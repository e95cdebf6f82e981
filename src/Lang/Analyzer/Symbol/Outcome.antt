-- ===== src/Lang/Analyzer/Symbol/Outcome.antt =====
-- The resolution of names in nucleus/lang/analyzer/symbol.h against the reference definition on trees:
-- how the two end alike, and the operations at a node.
use nextnucleus.Base.{
  ℕ, ◌≡◌, refl, sym, ap, subst, ◌∙◌, inl, inr, some, [], ◌∷◌, ◌++◌, arith, Option-cases, length,
  length-set,
}
use mathlib.Core.List.{append_assoc}
use nextnucleus.Vm.Text.{Bytes}
use nextnucleus.Lang.Token.{LangError}
use nextnucleus.Lang.Builtin.{SourceString}
use nextnucleus.Lang.Action.{Action, Reply, done, raised, fault, bind}
use nextnucleus.Lang.Ast.{Ast, Node, node_at}
use nextnucleus.Lang.Analyzer.Symbol.{Resolver, define_symbol}
use nextnucleus.Lang.Analyzer.Symbol.Scope.{
  Symbols, lookup, IsTable, find_symbol_lem, define_symbol_lem, Holds, Holds-drop,
}
use nextnucleus.Lang.Analyzer.Symbol.Tree.{
  Role, binds, refers, function, block, plain, role_of, Refs, set_ref, set_refs, Scan, scoped,
  stopped, overflow, then_scan, define, enter, leave,
}
use nextnucleus.Lang.Analyzer.Symbol.Role.{
  enter_role, leave_role, refer-set_ref, IsKept, set_refs-IsKept,
}

module _ (ast : Ast) (source : Bytes) (capacity : ℕ) where
  -- The resolver while the symbols are in scope and the references are resolved.
  pub record IsState (r : Resolver) (env : Symbols) (refs : Refs) : Type 0 where
    pub table : IsTable r env
    pub tree : r.ast ≡ set_refs ast refs
    pub text : r.source ≡ source
    pub room : length r.names ≡ capacity

  -- The code ends as the reference definition does; the older symbols are still in scope.
  pub data Outcome (before : Symbols) : Reply Resolver (Unit {0}) → Scan → Type 0 where
    finished :
        {r : Resolver} {env : Symbols} {refs : Refs}
        → IsState r env refs
        → (new : Symbols) → env ≡ new ++ before
        → Outcome before (done tt r) (scoped env refs)
    failed :
        {r : Resolver} {e : LangError} {id : ℕ} {refs : Refs} (n : Node)
        → r.ast ≡ set_refs ast refs
        → node_at ast id ≡ some n
        → r.error ≡ n.span
        → Outcome before (raised e r) (stopped e id refs)
    full : Outcome before fault overflow

  pub Outcome-eq :
      {before : Symbols} {x y : Reply Resolver (Unit {0})} {s t : Scan}
      → y ≡ x
      → t ≡ s
      → Outcome before x s
      → Outcome before y t
  Outcome-eq {before = before} {x = x} {t = t} e f o =
      subst (λ y. Outcome before y t) (sym e) (subst (λ t. Outcome before x t) (sym f) o)

  pub Outcome-older :
      {before env : Symbols} {x : Reply Resolver (Unit {0})} {s : Scan}
      → Outcome env x s
      → (new : Symbols) → env ≡ new ++ before
      → Outcome before x s
  Outcome-older {before = before} (finished v newer e) new e' =
      finished v (newer ++ new)
        (e ∙ (ap (λ z. newer ++ z) e' ∙ sym (append_assoc newer new before)))
  Outcome-older (failed n t at e) new e' = failed n t at e
  Outcome-older full new e' = full

  -- What comes after a part, with the symbols of that part, or back to those before it.
  pub Outcome-close :
      {before : Symbols} {x : Reply Resolver (Unit {0})} {s : Scan} (k : Action Resolver (Unit {0}))
      (f : Symbols → Refs → Scan)
      → Outcome before x s
      → ((r : Resolver) (new : Symbols) (refs : Refs)
          → IsState r (new ++ before) refs
          → Outcome before (k r) (f (new ++ before) refs))
      → Outcome before (bind x (λ _. k)) (then_scan s f)
  Outcome-close {before = before} k f (finished {r = r} {refs = refs} v new e) go =
      Outcome-eq refl (ap (λ env. f env refs) e)
        (go r new refs (subst (λ env. IsState r env refs) e v))
  Outcome-close k f (failed n t at e) go = failed n t at e
  Outcome-close k f full go = full

  pub Outcome-then :
      {before : Symbols} {x : Reply Resolver (Unit {0})} {s : Scan} (k : Action Resolver (Unit {0}))
      (f : Symbols → Refs → Scan)
      → Outcome before x s
      → ((r : Resolver) (env : Symbols) (refs : Refs)
          → IsState r env refs
          → Outcome env (k r) (f env refs))
      → Outcome before (bind x (λ _. k)) (then_scan s f)
  Outcome-then {before = before} k f o go =
      Outcome-close k f o λ r new refs v. Outcome-older (go r (new ++ before) refs v) new refl

  module _ {r : Resolver} {env : Symbols} {refs : Refs} (v : IsState r env refs) where
    pub node-IsKept : (id : ℕ) (n : Node) → node_at ast id ≡ some n → IsKept r.ast id n
    node-IsKept id n at = subst (λ a. IsKept a id n) (sym v.tree) (set_refs-IsKept ast refs id n at)

    pub define-Outcome :
        (name : SourceString) (id : ℕ) (n : Node)
        → node_at ast id ≡ some n
        → Outcome env (define_symbol name id r) (define source capacity name id env refs)
    unfolding define
    define-Outcome name id n at =
        let k = node-IsKept id n at in
        let text : lookup source name env ≡ lookup r.source name env =
          ap (λ s. lookup s name env) (sym v.text) in
        let room = v.room in
        elim (define_symbol_lem r env v.table id k.node k.at name) [
          | inl (ref, e, run) ↦ Outcome-eq run (ground arith) (failed n v.tree at k.span)
          | inr (inl (e, h, run, table)) ↦ Outcome-eq run (ground arith) (
              finished
                (record {
                  table = table;
                  tree = v.tree;
                  text = v.text;
                  room = length-set r.names r.size name ∙ v.room;
                })
                ((name, id) ∷ []) refl)
          | inr (inr (e, h, run)) ↦ Outcome-eq run (ground arith) full
        ]

    pub enter-Outcome :
        (id : ℕ) (n : Node) (role : Role) (k : IsKept r.ast id n)
        → node_at ast id ≡ some n
        → role_of n ≡ some role
        → Outcome env (enter_role role id k.node r) (enter source capacity role id env refs)
    unfolding enter enter_role
    enter-Outcome id n (binds name) k at h = define-Outcome name id n at
    enter-Outcome id n (refers name) k at h =
        let text : lookup source name env ≡ lookup r.source name env =
          ap (λ s. lookup s name env) (sym v.text) in
        let found = find_symbol_lem r env v.table id k.node k.at name in
        elim (Option-cases (lookup r.source name env)) [
          | inr (ref, e) ↦
              let set = refer-set_ref id k.node name ref r k.at (k.role ∙ h) in
              let run : enter_role (refers name) id k.node r
                  ≡ done tt (record r { ast = set_ref r.ast id ref }) =
                ground arith in
              Outcome-eq run (ground arith) (
                finished {refs = (id, ref) ∷ refs}
                  (record {
                    table = record { arrays = v.table.arrays; holds = v.table.holds };
                    tree = ap (λ a. set_ref a id ref) v.tree;
                    text = v.text;
                    room = v.room;
                  })
                  [] refl)
          | inl e ↦
              let run : enter_role (refers name) id k.node r
                  ≡ raised LangError.unresolved_symbol (record r { error = k.node.span }) =
                ground arith in
              Outcome-eq run (ground arith) (failed n v.tree at k.span)
        ]
    enter-Outcome id n (function name) k at h = finished v [] refl
    enter-Outcome id n block k at h = finished v [] refl
    enter-Outcome id n plain k at h = finished v [] refl

  restored :
      (r : Resolver) (new env : Symbols) (refs : Refs) (before : ℕ)
      → before ≡ length env
      → IsState r (new ++ env) refs
      → IsState (record r { size = before }) env refs
  restored r new env refs before e v = record {
    table = record {
      arrays = v.table.arrays;
      holds = subst (λ k. Holds r.names r.ids k env) (sym e) (Holds-drop new env v.table.holds);
    };
    tree = v.tree;
    text = v.text;
    room = v.room;
  }

  pub leave-Outcome :
      (role : Role) (r : Resolver) (new env : Symbols) (refs : Refs) (before : ℕ)
      → before ≡ length env
      → IsState r (new ++ env) refs
      → Outcome env (leave_role role before r) (leave source capacity role env (new ++ env) refs)
  unfolding leave_role
  leave-Outcome (function name) r new env refs before e v =
      finished (restored r new env refs before e v) [] refl
  leave-Outcome block r new env refs before e v =
      finished (restored r new env refs before e v) [] refl
  leave-Outcome (binds name) r new env refs before e v = finished v new refl
  leave-Outcome (refers name) r new env refs before e v = finished v new refl
  leave-Outcome plain r new env refs before e v = finished v new refl
