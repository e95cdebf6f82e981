-- ===== src/Vm/Text/Tests.antt =====
-- The theorems on strings and names at concrete runs.
use nextnucleus.Base.{
  [], ℕ, ◌+◌, ◌*◌, ◌^◌, ◌≤◌, ◌<◌, ◌≡◌, refl, none, some, ◌∷◌, ◌++◌, arith, ltb, if◌then◌else◌,
  length, get_elem?, replicate,
}
use nextnucleus.Vm.Text.{
  Bytes, memalign, uid, ident_max, ident_size, ident_len, ident_set, ident_set_str, ident_uid,
}
use nextnucleus.Vm.Text.Compare.{IsText}
use nextnucleus.Vm.Text.Align.{memalign_lem}
use nextnucleus.Vm.Text.Ident.{kept, ident_set_str_lem, ident_uid-uid, ident_set_overflow}

abbrev ab : Bytes
ab = 97 ∷ 98 ∷ []

ab-IsText : IsText ab
ab-IsText = ((omega arith, omega arith), ((omega arith, omega arith), tt))

abbrev blank : Bytes
blank = replicate 32 0

memalign_lem_example :
    (q : ℕ) × (memalign 1003 (2 ^ 4) ≡ some (q * 2 ^ 4))
    × (1003 ≤ q * 2 ^ 4)
    × (q * 2 ^ 4 < 1003 + 2 ^ 4)
memalign_lem_example = memalign_lem 1003 4 (omega arith) (omega arith)

memalign_runs : memalign 1003 16 ≡ some 1008
unfolding memalign
memalign_runs = refl

ident_set_str_lem_example :
    (ident' : Bytes) × (ident_set_str blank ab ≡ some ident')
    × (length ident' ≡ ident_size)
    × (ident_len ident' ≡ some (kept ab))
    × ((i : ℕ)
        → i < ident_max
        → get_elem? ident' i ≡ (if ltb i (kept ab) then get_elem? ab i else some 0))
ident_set_str_lem_example = ident_set_str_lem blank ab refl ab-IsText

abbrev stored : Bytes
stored = 97 ∷ 98 ∷ (replicate 29 0 ++ 2 ∷ [])

stored_runs : ident_set_str blank ab ≡ some stored
unfolding ident_set_str
stored_runs = refl

ident_uid-uid_example : ident_uid stored ≡ uid ab
ident_uid-uid_example = ident_uid-uid blank ab refl ab-IsText (omega arith) stored_runs

ident_set_overflow_example : ident_set blank ab 31 ≡ none
ident_set_overflow_example = ident_set_overflow blank ab 31 refl (omega arith) (omega arith)
