-- ===== src/Lang/Builtin.antt =====
-- nucleus/lang/builtin.h: builtin functions of the primitive types.
use nextnucleus.Base.{ℕ, Bool, ◌&&◌, Option, none, some, List, [], ◌∷◌, ◌==◌, if◌then◌else◌, drop}
use nextnucleus.Vm.Text.{Bytes, strlen, strncmp}
use nextnucleus.Vm.Types.{Primitive, fix, vec2, unknown, same_primitive}

-- nulang__string_t: an offset in the source, and a length
pub record SourceString : Type 0 where
  pub p : ℕ
  pub n : ℕ

-- nulang__builtin_function_t
pub record BuiltinFunction : Type 0 where
  pub primitive : Primitive
  pub name : Bytes
  pub return_type : Primitive
  pub args : List Primitive

-- nulang__builtin_t with its type and its value
pub data Builtin : Type 0 where
  constructor : Primitive → Builtin
  constant : Builtin
  function : BuiltinFunction → Builtin

-- The table of nulang__find_builtin_function, with `norm` and `dist`.
unfoldable pub builtins : List BuiltinFunction
builtins =
    record {
      primitive = vec2;
      name = 110 ∷ 111 ∷ 114 ∷ 109 ∷ [];
      return_type = fix;
      args = vec2 ∷ unknown ∷ [];
    }
    ∷ record {
      primitive = vec2;
      name = 100 ∷ 105 ∷ 115 ∷ 116 ∷ [];
      return_type = fix;
      args = vec2 ∷ vec2 ∷ unknown ∷ [];
    }
    ∷ []

-- NULANG_SOURCE_STRING_EQUALS on a string of the source and a text
unfoldable pub equals_text : Bytes → SourceString → Bytes → Bool
unfolding strlen strncmp
equals_text source a t = a.n == strlen t && strncmp (drop a.p source) t a.n == 0

-- nulang__find_builtin_function
unfoldable pub find_builtin :
    Bytes → List BuiltinFunction → Primitive → SourceString → Option BuiltinFunction
unfolding equals_text
find_builtin source [] primitive s = none
find_builtin source (f ∷ fs) primitive s =
    if same_primitive f.primitive primitive && equals_text source s f.name
    then some f
    else find_builtin source fs primitive s

unfoldable pub find_builtin_function : Bytes → Primitive → SourceString → Option BuiltinFunction
unfolding builtins find_builtin
find_builtin_function source = find_builtin source builtins
