-- ===== src/Vm/Fix/Tests.antt =====
-- The readers of literals at concrete runs.
use nextnucleus.Base.{◌^◌, ◌≤◌, ◌<◌, ◌+◌, [], ℕ, ◌≡◌, refl, Option, some, ◌∷◌, arith}
use nextnucleus.Base.Int.{pos, negsuc, ◌+ℤ◌, ◌*ℤ◌, int_of}
use nextnucleus.Vm.Fix.Arith.{fmul, itof, ftoi}
use nextnucleus.Vm.Fix.Product.{fmul_lem, ftoi-itof}
use nextnucleus.Vm.Fix.Log.{log2_lem}
use nextnucleus.Vm.Fix.{log2, fparse, iparse, times_ten, fparse_char}
use nextnucleus.Vm.Fix.Laws.{fparse_total}

-- `1.5` is 0x18000, and `-1` is the pattern of -1.
readings :
    (fparse (49 ∷ 46 ∷ 53 ∷ []) 3 ≡ some (some 0x18000))
    × (iparse (45 ∷ 49 ∷ []) 2 ≡ some (some 0xffffffff))
unfolding fparse iparse times_ten fparse_char
readings = (refl, refl)

fparse_total_example : (r : Option ℕ) × (fparse (49 ∷ 46 ∷ 53 ∷ []) 3 ≡ some r)
fparse_total_example = fparse_total (49 ∷ 46 ∷ 53 ∷ []) 3 (omega arith)

log2_lem_example : (k : ℕ) × (log2 1000 ≡ some k) × (2 ^ k ≤ 1000) × (1000 < 2 ^ (k + 1))
log2_lem_example = log2_lem 1000 (omega arith) (omega arith)

-- 1.5 times -2.5 is -3.75
fmul_exact : int_of 98304 *ℤ int_of 4294803456 ≡ negsuc 245759 *ℤ pos (2 ^ 16) +ℤ pos 0
unfolding ◌*ℤ◌ ◌+ℤ◌
fmul_exact = refl

fmul_lem_example : fmul 98304 4294803456 ≡ 4294721536
fmul_lem_example =
    fmul_lem 98304 4294803456 (negsuc 245759) 0 (omega arith) (omega arith) (omega arith) fmul_exact

ftoi-itof_three : (x : ℕ) × (itof 3 ≡ some x) × (ftoi x ≡ 3)
ftoi-itof_three = ftoi-itof 3 (omega arith)
