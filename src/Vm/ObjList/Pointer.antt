-- ===== src/Vm/ObjList/Pointer.antt =====
-- Headers and objects name each other.
use nextnucleus.Base.{ℕ, ◌+◌, ◌<◌, ◌≡◌, ◌≢◌, arith, u64_mod}
use nextnucleus.Vm.ObjList.{header_size, object_from_header, header_from_object}

pub header-object :
    (h : ℕ) → h + header_size < u64_mod → header_from_object (object_from_header h) ≡ h
unfolding header_from_object object_from_header
header-object h le = omega arith

pub object_pos : (h : ℕ) → h ≢ 0 → h + header_size < u64_mod → object_from_header h ≢ 0
unfolding object_from_header
object_pos h nz le = omega arith
