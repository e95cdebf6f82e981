-- ===== src/Vm/Text.antt =====
-- nucleus/vm/memory.h and nucleus/vm/string.h: blocks of bytes, strings that end at a NUL, names of
-- at most 30 bytes, and the FNV-1a hash by which names are compared. A string is the list of the
-- bytes before its NUL; a block is a list of bytes, and an access outside it gives `none`.
pub mod Compare
pub mod Ident
pub mod Align
mod Tests
use Prim.Native.Nat.{bit_xor, bit_and}
use nextnucleus.Base.{
  [], ◌>>=◌, ℕ, zero, suc, ◌+◌, ◌-◌, ◌*◌, ◌%◌, not, ◌&&◌, Option, assert, ◌>>◌, none, some, List,
  ◌∷◌, ltb, ◌==◌, if◌then◌else◌, get_elem?, set, u8_mod, u64_mod, u32,
}

abbrev pub Bytes : Type 0
Bytes = List ℕ

-- nu_memset on the bytes from `off`: `n` bytes become `c`
unfoldable pub memset : Bytes → ℕ → ℕ → ℕ → Option Bytes
memset mem off c zero = some mem
memset [] off c (suc n) = none
memset (x ∷ mem) zero c (suc n) = do rest ← memset mem zero c n; some (c % u8_mod ∷ rest)
memset (x ∷ mem) (suc off) c (suc n) = do rest ← memset mem off c (suc n); some (x ∷ rest)

-- nu_memcpy: the first `n` bytes of a block become those of another
unfoldable pub memcpy : Bytes → Bytes → ℕ → Option Bytes
memcpy dst src zero = some dst
memcpy (d ∷ dst) (s ∷ src) (suc n) = do rest ← memcpy dst src n; some (s ∷ rest)
memcpy _ _ (suc n) = none

-- nu_memalign, with addresses of 64 bits; the assertion fails for 0
unfoldable pub memalign : ℕ → ℕ → Option ℕ
memalign ptr align = do
  assert (ltb 0 align)
  some (bit_and ((ptr + align - 1) % u64_mod) (u64_mod - 1 - (align - 1)))

-- nu_strnlen and nu_strlen
unfoldable pub strnlen : Bytes → ℕ → ℕ
strnlen s zero = 0
strnlen [] (suc n) = 0
strnlen (c ∷ s) (suc n) = if c == 0 then 0 else suc (strnlen s n)

unfoldable pub strlen : Bytes → ℕ
strlen [] = 0
strlen (c ∷ s) = if c == 0 then 0 else suc (strlen s)

-- `*s`, which is the NUL at the end
abbrev pub first_char : Bytes → ℕ
first_char [] = 0
first_char (c ∷ s) = c

-- A `char` is signed: the value of the byte, sign extended to nu_size_t.
abbrev pub sign_extend : ℕ → ℕ
sign_extend c = if ltb c 128 then c else c + (u64_mod - u8_mod)

-- `*s1 - *s2` as a nu_size_t
abbrev pub char_diff : ℕ → ℕ → ℕ
char_diff a b = (sign_extend a + u64_mod - sign_extend b) % u64_mod

-- nu_strncmp: the loop goes on while the characters agree and neither the count nor `s1` is at
-- its end.
unfoldable pub strncmp : Bytes → Bytes → ℕ → ℕ
strncmp s1 s2 zero = 0
strncmp [] s2 (suc n) = char_diff 0 (first_char s2)
strncmp (c ∷ s1) [] (suc n) = char_diff c 0
strncmp (c ∷ s1) (d ∷ s2) (suc n) =
    if not (c == 0) && c == d then strncmp s1 s2 n else char_diff c d

-- nu_strcmp
unfoldable pub strcmp : Bytes → Bytes → ℕ
strcmp [] s2 = char_diff 0 (first_char s2)
strcmp (c ∷ s1) [] = char_diff c 0
strcmp (c ∷ s1) (d ∷ s2) = if not (c == 0) && c == d then strcmp s1 s2 else char_diff c d

-- nu_fnv1a_hash_32: `len` bytes are left to read; NU_FNV1A_HASH_32 and NU_FNV1A_PRIME_32
abbrev pub fnv1a_hash : ℕ
fnv1a_hash = 0x811c9dc5

abbrev pub fnv1a_prime : ℕ
fnv1a_prime = 0x01000193

unfoldable pub fnv1a_loop : ℕ → Bytes → ℕ → Option ℕ
fnv1a_loop hash bytes zero = some hash
fnv1a_loop hash [] (suc len) = none
fnv1a_loop hash (b ∷ bytes) (suc len) = fnv1a_loop (u32 (bit_xor hash b * fnv1a_prime)) bytes len

unfoldable pub fnv1a_hash_32 : Bytes → ℕ → Option ℕ
unfolding fnv1a_loop
fnv1a_hash_32 bytes len = fnv1a_loop fnv1a_hash bytes len

-- nu_uid and nu_uidn
unfoldable pub uid : Bytes → Option ℕ
unfolding fnv1a_hash_32 strlen
uid str = fnv1a_hash_32 str (strlen str)

unfoldable pub uidn : Bytes → ℕ → Option ℕ
unfolding fnv1a_hash_32
uidn str n = fnv1a_hash_32 str n

-- NU_IDENT_MAX and NU_IDENT_SIZE
abbrev pub ident_max : ℕ
ident_max = 30

abbrev pub ident_size : ℕ
ident_size = 32

-- nu_ident_len: the last byte
unfoldable pub ident_len : Bytes → Option ℕ
ident_len ident = get_elem? ident (ident_max + 1)

-- nu__ident_set_len. The count of the fill wraps around below 0.
unfoldable pub ident_set_len : Bytes → ℕ → Option Bytes
unfolding memset
ident_set_len ident len =
    memset (set ident (ident_max + 1) (len % u8_mod)) len 0 ((ident_max + u64_mod - len) % u64_mod)

-- nu_ident_empty
unfoldable pub ident_empty : Bytes → Option Bytes
unfolding memset
ident_empty ident = memset ident 0 0 ident_size

-- nu_ident_set
unfoldable pub ident_set : Bytes → Bytes → ℕ → Option Bytes
ident_set ident s n = do
  let m = (if ltb ident_size n then ident_size else n)
  ident₁ ← ident_set_len ident m
  memcpy ident₁ s m

-- nu_ident_set_str
unfoldable pub ident_set_str : Bytes → Bytes → Option Bytes
unfolding ident_set_len memcpy strnlen
ident_set_str ident s = do
  let n = strnlen s ident_max
  ident₁ ← ident_set_len ident n
  memcpy ident₁ s n

-- nu_ident_str: the string begins where the name does
unfoldable pub ident_str : Bytes → Bytes
ident_str ident = ident

-- nu_ident_uid
unfoldable pub ident_uid : Bytes → Option ℕ
unfolding ident_len fnv1a_hash_32
ident_uid ident = do len ← ident_len ident; fnv1a_hash_32 ident len
