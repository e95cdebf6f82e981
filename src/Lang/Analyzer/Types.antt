-- ===== src/Lang/Analyzer/Types.antt =====
-- nucleus/lang/analyzer/type.h: nulang__check_binop, the types of operators.
pub mod Typing
use nextnucleus.Base.{Bool, true, false, not, if◌then◌else◌}
use nextnucleus.Vm.Types.{
  Primitive, bool, int, fix, ivec2, ivec3, ivec4, vec2, vec3, vec4, quat, entity, same_primitive,
}
use nextnucleus.Lang.Token.{LangError}
use nextnucleus.Lang.Ast.{
  Binop, b_add, b_sub, b_mul, b_div, b_equal, b_nequal, b_lequal, b_gequal, b_less, b_greater,
  b_and, b_or, Vartype,
}

-- The types that the cases of its inner switches name.
unfoldable pub is_arithmetic : Primitive → Bool
is_arithmetic int = true
is_arithmetic fix = true
is_arithmetic ivec2 = true
is_arithmetic ivec3 = true
is_arithmetic ivec4 = true
is_arithmetic vec2 = true
is_arithmetic vec3 = true
is_arithmetic vec4 = true
is_arithmetic quat = true
is_arithmetic _ = false

unfoldable pub has_equality : Primitive → Bool
has_equality int = true
has_equality fix = true
has_equality entity = true
has_equality _ = false

unfoldable pub is_ordered : Primitive → Bool
is_ordered int = true
is_ordered fix = true
is_ordered _ = false

-- nulang__check_binop: an error, or the type of the result, which is written over that of `out`; with
-- different operands the first one's is what the error data expects
pub data Checked : Type 0 where
  typed : Vartype → Checked
  expected : Primitive → Checked
  rejected : LangError → Checked

unfoldable pub check : Bool → Vartype → Primitive → LangError → Checked
check ok out p e = if ok then typed (record out { primitive = p }) else rejected e

unfoldable pub check_operator : Binop → Primitive → Vartype → Checked
unfolding check is_arithmetic has_equality is_ordered
check_operator b_add p out = check (is_arithmetic p) out p LangError.illegal_arithmetic
check_operator b_sub p out = check (is_arithmetic p) out p LangError.illegal_arithmetic
check_operator b_mul p out = check (is_arithmetic p) out p LangError.illegal_arithmetic
check_operator b_div p out = check (is_arithmetic p) out p LangError.illegal_arithmetic
check_operator b_equal p out = check (has_equality p) out bool LangError.illegal_comparison
check_operator b_nequal p out = check (has_equality p) out bool LangError.illegal_comparison
check_operator b_lequal p out = check (is_ordered p) out bool LangError.illegal_comparison
check_operator b_gequal p out = check (is_ordered p) out bool LangError.illegal_comparison
check_operator b_less p out = check (is_ordered p) out bool LangError.illegal_comparison
check_operator b_greater p out = check (is_ordered p) out bool LangError.illegal_comparison
check_operator b_and p out = check (same_primitive p bool) out bool LangError.illegal_logical
check_operator b_or p out = check (same_primitive p bool) out bool LangError.illegal_logical

unfoldable pub check_binop : Binop → Vartype → Vartype → Vartype → Checked
unfolding check_operator
check_binop op a b out =
    if not (same_primitive a.primitive b.primitive)
    then expected a.primitive
    else check_operator op a.primitive out
