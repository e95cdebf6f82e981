-- ===== src/Vm/Text/Ident.antt =====
-- Names: what the setters store, and that the hash of a stored name is the hash of the string.
use Prim.Native.Nat.{bit_xor}
use nextnucleus.Base.{
  [], ℕ, zero, suc, ◌+◌, ◌-◌, ◌*◌, ◌%◌, ◌≤◌, ◌<◌, ◌≡◌, refl, ap, subst, ◌∙◌, ◌&&◌, none, some, ◌∷◌,
  arith, ltb, leb, if◌then◌else◌, ◌>>=◌, length, get_elem?, set, length-set, get_elem?-set_self,
  u8_mod, u64_mod, u32,
}
use nextnucleus.Vm.Text.{
  Bytes, memset, memcpy, strnlen, strlen, fnv1a_hash, fnv1a_prime, fnv1a_loop, uid, ident_max,
  ident_size, ident_len, ident_set_len, ident_set, ident_set_str, ident_uid,
}
use nextnucleus.Vm.Text.Compare.{IsText}

memset_lem :
    (mem : Bytes) (off c n : ℕ)
    → off + n ≤ length mem
    → (mem' : Bytes) × (memset mem off c n ≡ some mem')
      × (length mem' ≡ length mem)
      × ((i : ℕ)
          → get_elem? mem' i
            ≡ (if leb off i && ltb i (off + n) then some (c % u8_mod) else get_elem? mem i))
unfolding memset
memset_lem mem off c zero h = (mem, refl, refl, λ i. ground arith)
memset_lem [] off c (suc n) h = absurd (omega arith)
memset_lem (x ∷ mem) zero c (suc n) h =
    let (mem', runs, len, at) = memset_lem mem zero c n (omega arith) in
    (
      c % u8_mod ∷ mem',
      rw runs,
      ap suc len,
      elim [ zero ↦ ground arith | suc i ↦ ground (arith, at i) ],
    )
memset_lem (x ∷ mem) (suc off) c (suc n) h =
    let (mem', runs, len, at) = memset_lem mem off c (suc n) (omega arith) in
    (x ∷ mem', rw runs, ap suc len, elim [ zero ↦ ground arith | suc i ↦ ground (arith, at i) ])

memset_fault :
    (mem : Bytes) (off c n : ℕ) → length mem < off + n → 0 < n → memset mem off c n ≡ none
unfolding memset
memset_fault mem off c zero h k = absurd (omega arith)
memset_fault [] off c (suc n) h k = refl
memset_fault (x ∷ mem) zero c (suc zero) h k = absurd (omega arith)
memset_fault (x ∷ mem) zero c (suc (suc n)) h k =
    rw (memset_fault mem zero c (suc n) (omega arith) (omega arith))
memset_fault (x ∷ mem) (suc off) c (suc n) h k =
    rw (memset_fault mem off c (suc n) (omega arith) (omega arith))

memcpy_lem :
    (dst src : Bytes) (n : ℕ)
    → n ≤ length dst
    → n ≤ length src
    → (mem : Bytes) × (memcpy dst src n ≡ some mem)
      × (length mem ≡ length dst)
      × ((i : ℕ) → get_elem? mem i ≡ (if ltb i n then get_elem? src i else get_elem? dst i))
unfolding memcpy
memcpy_lem dst src zero h k = (dst, refl, refl, λ i. ground arith)
memcpy_lem [] src (suc n) h k = absurd (omega arith)
memcpy_lem (d ∷ dst) [] (suc n) h k = absurd (omega arith)
memcpy_lem (d ∷ dst) (s ∷ src) (suc n) h k =
    let (mem, runs, len, at) = memcpy_lem dst src n (omega arith) (omega arith) in
    (s ∷ mem, rw runs, ap suc len, elim [ zero ↦ ground arith | suc i ↦ ground (arith, at i) ])

strnlen_lem :
    (s : Bytes) (n : ℕ) → IsText s → strnlen s n ≡ (if ltb n (length s) then n else length s)
unfolding strnlen
strnlen_lem s zero h = ground arith
strnlen_lem [] (suc n) h = ground arith
strnlen_lem (c ∷ s) (suc n) (hc, h) = ground (arith, strnlen_lem s n h)

pub strlen_lem : (s : Bytes) → IsText s → strlen s ≡ length s
unfolding strlen
strlen_lem [] h = refl
strlen_lem (c ∷ s) (hc, h) = ground (arith, strlen_lem s h)

-- The hash reads the first `n` bytes alone.
fnv1a_loop_agree :
    (n hash : ℕ) (xs ys : Bytes)
    → ((i : ℕ) → i < n → get_elem? xs i ≡ get_elem? ys i)
    → fnv1a_loop hash xs n ≡ fnv1a_loop hash ys n
unfolding fnv1a_loop
fnv1a_loop_agree zero hash xs ys same = refl
fnv1a_loop_agree (suc n) hash [] [] same = refl
fnv1a_loop_agree (suc n) hash [] (y ∷ ys) same = let e = same 0 (omega arith) in cc
fnv1a_loop_agree (suc n) hash (x ∷ xs) [] same = let e = same 0 (omega arith) in cc
fnv1a_loop_agree (suc n) hash (x ∷ xs) (y ∷ ys) same =
    let e : x ≡ y = ground (arith, same 0) in
    rw e (
      fnv1a_loop_agree n (u32 (bit_xor hash y * fnv1a_prime)) xs ys
        (λ i h. same (suc i) (omega arith)))

-- The length that a name keeps of a string.
abbrev pub kept : Bytes → ℕ
kept s = if ltb ident_max (length s) then ident_max else length s

kept_le : (s : Bytes) → (kept s ≤ 30) × (kept s ≤ length s)
kept_le s = ground arith

-- Setting the length fills the bytes behind the text with zeros.
ident_set_len_lem :
    (ident : Bytes) (n : ℕ)
    → length ident ≡ ident_size
    → n ≤ 30
    → (mid : Bytes) × (ident_set_len ident n ≡ some mid)
      × (length mid ≡ ident_size)
      × (get_elem? mid 31 ≡ some n)
      × ((i : ℕ) → n ≤ i → i < 30 → get_elem? mid i ≡ some 0)
unfolding ident_set_len
ident_set_len_lem ident n e le =
    let start = set ident 31 (n % u8_mod) in
    let len = length-set ident 31 (n % u8_mod) in
    let wrap : (30 + u64_mod - n) % u64_mod ≡ 30 - n = omega arith in
    let small : n % u8_mod ≡ n = omega arith in
    let (mid, runs, len', at) = memset_lem start n 0 (30 - n) (omega arith) in
    let last = get_elem?-set_self ident 31 (n % u8_mod) (omega arith) in
    (
      mid,
      ap (memset start n 0) wrap ∙ runs,
      omega arith,
      ground (arith, at 31),
      λ i a b. ground (arith, at i),
    )

ident_set_str-eq :
    (ident s : Bytes)
    → ident_set_str ident s
      ≡ (ident_set_len ident (strnlen s ident_max) >>= λ i. memcpy i s (strnlen s ident_max))
unfolding ident_set_str
ident_set_str-eq ident s = refl

ident_len-eq : (ident : Bytes) → ident_len ident ≡ get_elem? ident 31
unfolding ident_len
ident_len-eq ident = refl

store_lem :
    (ident s : Bytes) (n : ℕ)
    → length ident ≡ ident_size
    → n ≤ 30
    → n ≤ length s
    → (out : Bytes) × ((ident_set_len ident n >>= λ i. memcpy i s n) ≡ some out)
      × (length out ≡ ident_size)
      × (get_elem? out 31 ≡ some n)
      × ((i : ℕ) → i < 30 → get_elem? out i ≡ (if ltb i n then get_elem? s i else some 0))
store_lem ident s n e le le' =
    let (mid, runs, len, last, zeros) = ident_set_len_lem ident n e le in
    let (out, runs', len', at) = memcpy_lem mid s n (omega arith) le' in
    (
      out,
      ap (λ o. o >>= λ i. memcpy i s n) runs ∙ runs',
      omega arith,
      at 31 ∙ ground arith,
      λ i h. at i ∙ ground (arith, zeros i),
    )

-- Storing a text in a name of 32 bytes keeps its first bytes, up to 30 of them, puts zeros behind
-- them up to the thirtieth byte, and records how many were kept.
pub ident_set_str_lem :
    (ident s : Bytes)
    → length ident ≡ ident_size
    → IsText s
    → (ident' : Bytes) × (ident_set_str ident s ≡ some ident')
      × (length ident' ≡ ident_size)
      × (ident_len ident' ≡ some (kept s))
      × ((i : ℕ)
          → i < ident_max
          → get_elem? ident' i ≡ (if ltb i (kept s) then get_elem? s i else some 0))
ident_set_str_lem ident s e t =
    let m : strnlen s ident_max ≡ kept s = strnlen_lem s ident_max t in
    let (le, le') = kept_le s in
    let (out, runs, len, last, at) = store_lem ident s (kept s) e le le' in
    (
      out,
      ident_set_str-eq ident s ∙ ap (λ n. ident_set_len ident n >>= λ i. memcpy i s n) m ∙ runs,
      len,
      ident_len-eq out ∙ last,
      at,
    )

-- A text of at most 30 characters that is stored in a name has the hash of that name.
pub ident_uid-uid :
    (ident s : Bytes) {ident' : Bytes}
    → length ident ≡ ident_size
    → IsText s
    → length s ≤ ident_max
    → ident_set_str ident s ≡ some ident'
    → ident_uid ident' ≡ uid s
unfolding ident_uid uid
ident_uid-uid ident s {ident'} e t h runs =
    let (id, runs', len, n, at) = ident_set_str_lem ident s e t in
    let same : id ≡ ident' = cc in
    let all : kept s ≡ length s = ground arith in
    subst (λ x. ident_uid x ≡ uid s) same
      (rw (n, strlen_lem s t, all)
        (fnv1a_loop_agree (length s) fnv1a_hash id s (λ i lt. at i (omega arith) ∙ ground arith)))

ident_set_len_fault :
    (ident : Bytes) (m : ℕ)
    → length ident ≡ ident_size
    → 30 < m
    → m ≤ 32
    → ident_set_len ident m ≡ none
unfolding ident_set_len
ident_set_len_fault ident m e lo hi =
    let len = length-set ident 31 (m % u8_mod) in
    let wrap : (30 + u64_mod - m) % u64_mod ≡ 30 + u64_mod - m = omega arith in
    memset_fault (set ident 31 (m % u8_mod)) m 0 ((30 + u64_mod - m) % u64_mod) (omega arith)
      (omega arith)

-- A count above 30 that fits 64 bits makes nu_ident_set fill bytes outside the name, although the
-- code admits counts up to 32.
pub ident_set_overflow :
    (ident s : Bytes) (n : ℕ)
    → length ident ≡ ident_size
    → ident_max < n
    → n < u64_mod
    → ident_set ident s n ≡ none
unfolding ident_set
ident_set_overflow ident s n e h k =
    let m = (if ltb ident_size n then ident_size else n) in
    let lo : 30 < m = ground arith in
    let hi : m ≤ 32 = ground arith in rw (ident_set_len_fault ident m e lo hi)
