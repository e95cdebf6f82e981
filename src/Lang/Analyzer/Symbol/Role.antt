-- ===== src/Lang/Analyzer/Symbol/Role.antt =====
-- nucleus/lang/analyzer/symbol.h: what the resolution of names does at a node, by the role of the node,
-- and what the references that it writes leave of a tree.
use nextnucleus.Base.{
  ℕ, ◌≡◌, refl, ap, ◌∙◌, inl, inr, none, some, [], ◌∷◌, arith, ◌==◌, Bool-cases, Option-cases,
  length, length-set,
}
use nextnucleus.Lang.Builtin.{SourceString}
use nextnucleus.Lang.Action.{Action, done, bind}
use nextnucleus.Lang.Ast.{Ast, Node, node_at, put_node}
use nextnucleus.Lang.Ast.Tables.{same_node}
use nextnucleus.Lang.Ast.Chain.{node_at-put_node}
use nextnucleus.Lang.Analyzer.Symbol.{
  Resolver, find_symbol, define_symbol, refer, enter_node, leave_node, declare,
}
use nextnucleus.Lang.Analyzer.Symbol.Tree.{
  Role, binds, refers, function, block, plain, role_of, Refs, refer_value, set_ref, set_refs,
}

-- The value of a node and its type, as far as they give its role.
unfoldable pub enter_role : Role → ℕ → Node → Action Resolver (Unit {0})
enter_role (binds name) id n r = define_symbol name id r
enter_role (refers name) id n r = bind (find_symbol id name r) (λ ref. refer id n ref name)
enter_role (function name) id n r = done tt r
enter_role block id n r = done tt r
enter_role plain id n r = done tt r

pub enter_node-role :
    (id : ℕ) (n : Node) (role : Role) (r : Resolver)
    → role_of n ≡ some role
    → enter_node id n r ≡ enter_role role id n r
unfolding role_of enter_node enter_role
enter_node-role id n role r h = ground arith

-- A block and a function restore the number of symbols.
unfoldable pub leave_role : Role → ℕ → Action Resolver (Unit {0})
leave_role (function name) size r = done tt (record r { size = size })
leave_role block size r = done tt (record r { size = size })
leave_role (binds name) size r = done tt r
leave_role (refers name) size r = done tt r
leave_role plain size r = done tt r

pub leave_node-role :
    (n : Node) (role : Role) (size : ℕ) (r : Resolver)
    → role_of n ≡ some role
    → leave_node n.type size r ≡ leave_role role size r
unfolding role_of leave_node leave_role same_node
leave_node-role n role size r h = ground arith

unfoldable pub declare_role : Role → ℕ → Action Resolver (Unit {0})
declare_role (function name) id r = define_symbol name id r
declare_role (binds name) id r = done tt r
declare_role (refers name) id r = done tt r
declare_role block id r = done tt r
declare_role plain id r = done tt r

pub declare-role :
    (id : ℕ) (n : Node) (role : Role) (r : Resolver)
    → node_at r.ast id ≡ some n
    → role_of n ≡ some role
    → declare id r ≡ declare_role role id r
unfolding role_of declare declare_role same_node
declare-role id n role r at h = ground arith

pub refer-set_ref :
    (id : ℕ) (n : Node) (name : SourceString) (ref : ℕ) (r : Resolver)
    → node_at r.ast id ≡ some n
    → role_of n ≡ some (refers name)
    → refer id n ref name r ≡ done tt (record r { ast = set_ref r.ast id ref })
unfolding role_of refer set_ref refer_value
refer-set_ref id n name ref r at h = ground arith

-- A node is as it was, up to the reference that its value holds.
pub record IsKept (ast : Ast) (id : ℕ) (n : Node) : Type 0 where
  pub node : Node
  pub at : node_at ast id ≡ some node
  pub role : role_of node ≡ role_of n
  pub span : node.span ≡ n.span
  pub first_child : node.first_child ≡ n.first_child
  pub next_sibling : node.next_sibling ≡ n.next_sibling

role_of-refer_value :
    (n : Node) (ref : ℕ) → role_of (record n { value = refer_value ref n.value }) ≡ role_of n
unfolding role_of refer_value
role_of-refer_value n ref = ground arith

set_ref-some :
    (ast : Ast) (i ref : ℕ) (m : Node)
    → node_at ast i ≡ some m
    → set_ref ast i ref ≡ put_node ast i (record m { value = refer_value ref m.value })
unfolding set_ref
set_ref-some ast i ref m h = ground arith

set_ref-none : (ast : Ast) (i ref : ℕ) → node_at ast i ≡ none → set_ref ast i ref ≡ ast
unfolding set_ref
set_ref-none ast i ref h = ground arith

set_ref-IsKept :
    (ast : Ast) (i ref id : ℕ) (n : Node)
    → node_at ast id ≡ some n
    → IsKept (set_ref ast i ref) id n
set_ref-IsKept ast i ref id n at =
    let same : node_at (set_ref ast i ref) id ≡ some n → IsKept (set_ref ast i ref) id n = λ h.
      record {
        node = n;
        at = h;
        role = refl;
        span = refl;
        first_child = refl;
        next_sibling = refl;
      } in
    elim (Option-cases (node_at ast i)) [
      | inl e ↦ same (ap (λ a. node_at a id) (set_ref-none ast i ref e) ∙ at)
      | inr (m, e) ↦
          let put =
            ap (λ a. node_at a id) (set_ref-some ast i ref m e)
            ∙ node_at-put_node ast i id m (record m { value = refer_value ref m.value }) e in
          elim (Bool-cases (id == i)) [
            | inl here ↦ record {
              node = record n { value = refer_value ref n.value };
              at = ground arith;
              role = role_of-refer_value n ref;
              span = refl;
              first_child = refl;
              next_sibling = refl;
            }
            | inr there ↦ same (ground arith)
          ]
    ]

pub set_refs-IsKept :
    (ast : Ast) (refs : Refs) (id : ℕ) (n : Node)
    → node_at ast id ≡ some n
    → IsKept (set_refs ast refs) id n
set_refs-IsKept ast [] id n at = record {
  node = n;
  at = at;
  role = refl;
  span = refl;
  first_child = refl;
  next_sibling = refl;
}
set_refs-IsKept ast ((i, ref) ∷ refs) id n at =
    let v = set_refs-IsKept ast refs id n at in
    let w = set_ref-IsKept (set_refs ast refs) i ref id v.node v.at in
    record {
      node = w.node;
      at = w.at;
      role = w.role ∙ v.role;
      span = w.span ∙ v.span;
      first_child = w.first_child ∙ v.first_child;
      next_sibling = w.next_sibling ∙ v.next_sibling;
    }

length-set_ref : (ast : Ast) (i ref : ℕ) → length (set_ref ast i ref).nodes ≡ length ast.nodes
unfolding put_node
length-set_ref ast i ref = elim (Option-cases (node_at ast i)) [
  | inl e ↦ ap (λ (a : Ast). length a.nodes) (set_ref-none ast i ref e)
  | inr (m, e) ↦
      ap (λ (a : Ast). length a.nodes) (set_ref-some ast i ref m e)
      ∙ length-set ast.nodes i (record m { value = refer_value ref m.value })
]

pub length-set_refs :
    (ast : Ast) (refs : Refs) → length (set_refs ast refs).nodes ≡ length ast.nodes
length-set_refs ast [] = refl
length-set_refs ast ((i, ref) ∷ refs) =
    length-set_ref (set_refs ast refs) i ref ∙ length-set_refs ast refs
