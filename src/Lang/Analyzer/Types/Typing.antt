-- ===== src/Lang/Analyzer/Types/Typing.antt =====
-- The typing rules for operators that nulang__check_binop in nucleus/lang/analyzer/type.h decides.
use nextnucleus.Base.{
  ◌≡◌, refl, sym, ap, subst, ◌∙◌, ◌↔◌, inl, inr, Bool, true, false, arith, Bool-cases,
}
use nextnucleus.Lang.Token.{LangError}
use nextnucleus.Vm.Types.{
  Primitive, bool, int, fix, ivec2, ivec3, ivec4, vec2, vec3, vec4, quat, entity, same_primitive,
}
use nextnucleus.Lang.Ast.{
  Binop, b_add, b_sub, b_mul, b_div, b_equal, b_nequal, b_lequal, b_gequal, b_less, b_greater,
  b_and, b_or, Vartype,
}
use nextnucleus.Lang.Analyzer.Types.{
  is_arithmetic, has_equality, is_ordered, typed, check, check_operator, check_binop,
}

-- Numbers are ordered; they, vectors and quaternions can be computed with; numbers and entities can be
-- compared.
pub data IsNumber : Primitive → Type 0 where
  is_int : IsNumber int
  is_fix : IsNumber fix

pub data IsAlgebraic : Primitive → Type 0 where
  is_number : {p : Primitive} → IsNumber p → IsAlgebraic p
  is_ivec2 : IsAlgebraic ivec2
  is_ivec3 : IsAlgebraic ivec3
  is_ivec4 : IsAlgebraic ivec4
  is_vec2 : IsAlgebraic vec2
  is_vec3 : IsAlgebraic vec3
  is_vec4 : IsAlgebraic vec4
  is_quat : IsAlgebraic quat

pub data IsComparable : Primitive → Type 0 where
  is_number : {p : Primitive} → IsNumber p → IsComparable p
  is_entity : IsComparable entity

-- The type of an operator on two operands of one type.
pub data HasType : Binop → Primitive → Primitive → Type 0 where
  add : {p : Primitive} → IsAlgebraic p → HasType b_add p p
  sub : {p : Primitive} → IsAlgebraic p → HasType b_sub p p
  mul : {p : Primitive} → IsAlgebraic p → HasType b_mul p p
  div : {p : Primitive} → IsAlgebraic p → HasType b_div p p
  equal : {p : Primitive} → IsComparable p → HasType b_equal p bool
  nequal : {p : Primitive} → IsComparable p → HasType b_nequal p bool
  lequal : {p : Primitive} → IsNumber p → HasType b_lequal p bool
  gequal : {p : Primitive} → IsNumber p → HasType b_gequal p bool
  less : {p : Primitive} → IsNumber p → HasType b_less p bool
  greater : {p : Primitive} → IsNumber p → HasType b_greater p bool
  both : HasType b_and bool bool
  either : HasType b_or bool bool

is_ordered-IsNumber : (p : Primitive) → is_ordered p ≡ true → IsNumber p
unfolding is_ordered
is_ordered-IsNumber int h = is_int
is_ordered-IsNumber fix h = is_fix
is_ordered-IsNumber _ h = cc

has_equality-IsComparable : (p : Primitive) → has_equality p ≡ true → IsComparable p
unfolding has_equality
has_equality-IsComparable int h = IsComparable.is_number is_int
has_equality-IsComparable fix h = IsComparable.is_number is_fix
has_equality-IsComparable entity h = is_entity
has_equality-IsComparable _ h = cc

is_arithmetic-IsAlgebraic : (p : Primitive) → is_arithmetic p ≡ true → IsAlgebraic p
unfolding is_arithmetic
is_arithmetic-IsAlgebraic int h = IsAlgebraic.is_number is_int
is_arithmetic-IsAlgebraic fix h = IsAlgebraic.is_number is_fix
is_arithmetic-IsAlgebraic ivec2 h = is_ivec2
is_arithmetic-IsAlgebraic ivec3 h = is_ivec3
is_arithmetic-IsAlgebraic ivec4 h = is_ivec4
is_arithmetic-IsAlgebraic vec2 h = is_vec2
is_arithmetic-IsAlgebraic vec3 h = is_vec3
is_arithmetic-IsAlgebraic vec4 h = is_vec4
is_arithmetic-IsAlgebraic quat h = is_quat
is_arithmetic-IsAlgebraic _ h = cc

IsNumber-is_ordered : {p : Primitive} → IsNumber p → is_ordered p ≡ true
unfolding is_ordered
IsNumber-is_ordered is_int = refl
IsNumber-is_ordered is_fix = refl

IsComparable-has_equality : {p : Primitive} → IsComparable p → has_equality p ≡ true
unfolding has_equality
IsComparable-has_equality (IsComparable.is_number is_int) = refl
IsComparable-has_equality (IsComparable.is_number is_fix) = refl
IsComparable-has_equality is_entity = refl

IsAlgebraic-is_arithmetic : {p : Primitive} → IsAlgebraic p → is_arithmetic p ≡ true
unfolding is_arithmetic
IsAlgebraic-is_arithmetic (IsAlgebraic.is_number is_int) = refl
IsAlgebraic-is_arithmetic (IsAlgebraic.is_number is_fix) = refl
IsAlgebraic-is_arithmetic is_ivec2 = refl
IsAlgebraic-is_arithmetic is_ivec3 = refl
IsAlgebraic-is_arithmetic is_ivec4 = refl
IsAlgebraic-is_arithmetic is_vec2 = refl
IsAlgebraic-is_arithmetic is_vec3 = refl
IsAlgebraic-is_arithmetic is_vec4 = refl
IsAlgebraic-is_arithmetic is_quat = refl

same_primitive_iff : (p q : Primitive) → (same_primitive p q ≡ true) ↔ (p ≡ q)
same_primitive_iff p q = ground arith

module _ (out : Vartype) where
  check-typed :
      (ok : Bool) (p : Primitive) (e : LangError) (v : Vartype)
      → check ok out p e ≡ typed v
      → (ok ≡ true) × (v ≡ record out { primitive = p })
  unfolding check
  check-typed true p e v h = (refl, cc)
  check-typed false p e v h = cc

  -- The rule that gives the type which the code writes.
  Rule : Binop → Primitive → Vartype → Type 0
  Rule op p v = (q : Primitive) × HasType op p q × (v ≡ record out { primitive = q })

  typed-Rule :
      (op : Binop) (p : Primitive) (v : Vartype) → check_operator op p out ≡ typed v → Rule op p v
  unfolding check_operator Rule
  typed-Rule b_add p v h =
      let (ok, e) = check-typed _ _ _ v h in (p, add (is_arithmetic-IsAlgebraic p ok), e)
  typed-Rule b_sub p v h =
      let (ok, e) = check-typed _ _ _ v h in (p, sub (is_arithmetic-IsAlgebraic p ok), e)
  typed-Rule b_mul p v h =
      let (ok, e) = check-typed _ _ _ v h in (p, mul (is_arithmetic-IsAlgebraic p ok), e)
  typed-Rule b_div p v h =
      let (ok, e) = check-typed _ _ _ v h in (p, div (is_arithmetic-IsAlgebraic p ok), e)
  typed-Rule b_equal p v h =
      let (ok, e) = check-typed _ _ _ v h in (bool, equal (has_equality-IsComparable p ok), e)
  typed-Rule b_nequal p v h =
      let (ok, e) = check-typed _ _ _ v h in (bool, nequal (has_equality-IsComparable p ok), e)
  typed-Rule b_lequal p v h =
      let (ok, e) = check-typed _ _ _ v h in (bool, lequal (is_ordered-IsNumber p ok), e)
  typed-Rule b_gequal p v h =
      let (ok, e) = check-typed _ _ _ v h in (bool, gequal (is_ordered-IsNumber p ok), e)
  typed-Rule b_less p v h =
      let (ok, e) = check-typed _ _ _ v h in (bool, less (is_ordered-IsNumber p ok), e)
  typed-Rule b_greater p v h =
      let (ok, e) = check-typed _ _ _ v h in (bool, greater (is_ordered-IsNumber p ok), e)
  typed-Rule b_and p v h =
      let (ok, e) = check-typed _ _ _ v h in
      (bool, subst (λ t. HasType b_and t bool) (sym ((same_primitive_iff p bool).0 ok)) both, e)
  typed-Rule b_or p v h =
      let (ok, e) = check-typed _ _ _ v h in
      (bool, subst (λ t. HasType b_or t bool) (sym ((same_primitive_iff p bool).0 ok)) either, e)

  HasType-typed :
      {op : Binop} {p q : Primitive}
      → HasType op p q
      → check_operator op p out ≡ typed (record out { primitive = q })
  unfolding check_operator check
  HasType-typed (add h) = let e = IsAlgebraic-is_arithmetic h in ground arith
  HasType-typed (sub h) = let e = IsAlgebraic-is_arithmetic h in ground arith
  HasType-typed (mul h) = let e = IsAlgebraic-is_arithmetic h in ground arith
  HasType-typed (div h) = let e = IsAlgebraic-is_arithmetic h in ground arith
  HasType-typed (equal h) = let e = IsComparable-has_equality h in ground arith
  HasType-typed (nequal h) = let e = IsComparable-has_equality h in ground arith
  HasType-typed (lequal h) = let e = IsNumber-is_ordered h in ground arith
  HasType-typed (gequal h) = let e = IsNumber-is_ordered h in ground arith
  HasType-typed (less h) = let e = IsNumber-is_ordered h in ground arith
  HasType-typed (greater h) = let e = IsNumber-is_ordered h in ground arith
  HasType-typed both = refl
  HasType-typed either = refl

-- nulang__check_binop succeeds exactly if the operands have one type and a typing rule gives the
-- operator a type on it, which is then the type of the result.
pub check_binop_iff :
    (op : Binop) (a b out v : Vartype)
    → (check_binop op a b out ≡ typed v) ↔ (
        (a.primitive ≡ b.primitive)
        × (q : Primitive) × HasType op a.primitive q
        × (v ≡ record out { primitive = q }))
unfolding check_binop Rule
check_binop_iff op a b out v = (
  (λ h. elim (Bool-cases (same_primitive a.primitive b.primitive)) [
    | inl e ↦
        let run : check_operator op a.primitive out ≡ typed v = ground arith in
        let (q, rule, is_v) = typed-Rule out op a.primitive v run in
        ((same_primitive_iff a.primitive b.primitive).0 e, q, rule, is_v)
    | inr e ↦ absurd (ground arith)
  ]),
  λ (e, q, rule, is_v).
      let same = (same_primitive_iff a.primitive b.primitive).1 e in
      let run = HasType-typed out rule ∙ ap typed (sym is_v) in ground arith,
)
