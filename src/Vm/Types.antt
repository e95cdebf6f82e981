-- ===== src/Vm/Types.antt =====
-- nucleus/vm/types.h and nucleus/vm/error.h: the primitive types of the table fields and of the
-- language, and the error codes of the virtual machine.
use mathlib.Core.Bool.{Bool, true, false}

-- nu_primitive_t
pub data Primitive : Type 0 where
  bool int fix ivec2 ivec3 ivec4 vec2 vec3 vec4 mat4 quat entity resource unknown : Primitive

-- `==` on primitives
abbrev pub same_primitive : Primitive → Primitive → Bool
same_primitive bool bool = true
same_primitive int int = true
same_primitive fix fix = true
same_primitive ivec2 ivec2 = true
same_primitive ivec3 ivec3 = true
same_primitive ivec4 ivec4 = true
same_primitive vec2 vec2 = true
same_primitive vec3 vec3 = true
same_primitive vec4 vec4 = true
same_primitive mat4 mat4 = true
same_primitive quat quat = true
same_primitive entity entity = true
same_primitive resource resource = true
same_primitive unknown unknown = true
same_primitive _ _ = false

-- nu_error_t
pub data NuError : Type 0 where
  success out_of_memory resource_not_found duplicated_entry : NuError
  out_of_system_item invalid_state : NuError
