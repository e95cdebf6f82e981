-- ===== src/Lang/Lexer/Laws.antt =====
-- nucleus/lang/lexer.h: the place of the lexer in its source, and what the operations on characters
-- do to it.
use nextnucleus.Base.{
  ◌>>=◌, [], ℕ, zero, suc, ◌+◌, ◌≤◌, ◌<◌, ◌≡◌, refl, sym, ap, subst, ◌∙◌, ◌⊎◌, inl, inr, true,
  false, not, none, some, ◌∷◌, arith, ltb, ◌==◌, if◌then◌else◌, Bool-cases, length, get_elem?, drop,
  lt-length_of_get_elem?, get_elem?_total,
}
use nextnucleus.Vm.Text.{Bytes}
use nextnucleus.Vm.Text.Compare.{IsText}
use nextnucleus.Lang.Lexer.{
  Lexer, read_char, advance, source_stream_next, next_char, look, consume_char,
}

-- A line end is read as a space.
abbrev pub blank : ℕ → ℕ
blank c = if c == 10 then 32 else c

-- `p` is the offset of the first byte that is not consumed; a byte that is peeked is not consumed.
pub data At (l : Lexer) (p : ℕ) : Type 0 where
  peeked :
      l.has_peek ≡ true
      → l.ptr ≡ some (p + 1)
      → p < length l.source
      → ((c : ℕ) → get_elem? l.source p ≡ some c → l.peek_char ≡ blank c)
      → At l p
  unread : l.has_peek ≡ false → l.ptr ≡ some p → p ≤ length l.source → At l p
  ended : l.has_peek ≡ false → l.ptr ≡ none → p ≡ length l.source → At l p

-- The source, and the tokens that were peeked.
pub record IsSame (l l' : Lexer) : Type 0 where
  pub source : l'.source ≡ l.source
  pub peeks : l'.peeks ≡ l.peeks

pub IsSame-refl : (l : Lexer) → IsSame l l
IsSame-refl l = record { source = refl; peeks = refl }

pub IsSame-trans : {l m n : Lexer} → IsSame l m → IsSame m n → IsSame l n
IsSame-trans h k = record { source = k.source ∙ h.source; peeks = k.peeks ∙ h.peeks }

read_char-some : (s : Bytes) (p : ℕ) {c : ℕ} → get_elem? s p ≡ some c → read_char s p ≡ some c
unfolding read_char
read_char-some [] p h = cc
read_char-some (c ∷ s) zero h = h
read_char-some (c ∷ s) (suc p) h = read_char-some s p h

read_char-length : (s : Bytes) → read_char s (length s) ≡ some 0
unfolding read_char
read_char-length [] = refl
read_char-length (c ∷ s) = read_char-length s

pub text-char : (s : Bytes) (p : ℕ) {c : ℕ} → IsText s → get_elem? s p ≡ some c → 0 < c
text-char [] p h e = cc
text-char (c ∷ s) zero (h, t) e = ground arith
text-char (c ∷ s) (suc p) (h, t) e = text-char s p t e

-- The lexer after it has read the byte `d` at `p`.
abbrev pub after_read : Lexer → ℕ → ℕ → Lexer
after_read l p d = record l {
  next_loc = advance l.next_loc d;
  ptr = if d == 0 then none else some (p + 1);
  has_peek = not (d == 0);
  peek_char = if d == 10 then 32 else d;
  peek_loc = l.next_loc;
}

look_reads :
    (l : Lexer) (p d : ℕ)
    → l.has_peek ≡ false
    → l.ptr ≡ some p
    → read_char l.source p ≡ some d
    → look l ≡ some (after_read l p d)
unfolding look source_stream_next
look_reads l p d h e r = rw (h, e, ◌>>=◌, r) refl

-- With a byte left, a look peeks it.
pub look_char :
    (l : Lexer) (p c : ℕ)
    → IsText l.source
    → At l p
    → get_elem? l.source p ≡ some c
    → (l' : Lexer) × (look l ≡ some l')
      × IsSame l l'
      × (l'.has_peek ≡ true)
      × (l'.ptr ≡ some (p + 1))
      × (l'.peek_char ≡ blank c)
unfolding look
look_char l p c t (peeked h e lt q) e' = (l, rw h refl, IsSame-refl l, h, e, q c e')
look_char l p c t (unread h e le) e' =
    let pos = text-char l.source p t e' in
    let nz : (c == 0) ≡ false = ground arith in
    (
      after_read l p c,
      look_reads l p c h e (read_char-some l.source p e'),
      record { source = refl; peeks = refl },
      ap not nz,
      ap (λ b. if b then none else some (p + 1)) nz,
      refl,
    )
look_char l p c t (ended h e le) e' =
    let lt = lt-length_of_get_elem? l.source p e' in absurd (omega (arith, le, lt))

look_null :
    (l : Lexer) → l.has_peek ≡ false → l.ptr ≡ none → look l ≡ some (record l { has_peek = false })
unfolding look source_stream_next
look_null l h e = rw (h, e) (ap (λ o. some (record l { ptr = o; has_peek = false })) e)

-- At the end of the source, a look finds nothing.
pub look_end :
    (l : Lexer) (p : ℕ)
    → At l p
    → p ≡ length l.source
    → (l' : Lexer) × (look l ≡ some l') × IsSame l l' × (l'.has_peek ≡ false) × At l' p
unfolding look source_stream_next
look_end l p (peeked h e lt q) z = absurd (omega arith)
look_end l p (unread h e le) z =
    let end : read_char l.source p ≡ some 0 =
      ap (read_char l.source) z ∙ read_char-length l.source in
    (
      after_read l p 0,
      look_reads l p 0 h e end,
      record { source = refl; peeks = refl },
      refl,
      ended refl refl z,
    )
look_end l p (ended h e z') z = (
  record l { has_peek = false },
  look_null l h e,
  record { source = refl; peeks = refl },
  refl,
  ended refl e z',
)

-- A byte that is peeked is consumed.
pub consume_char_lem :
    (l : Lexer) (p : ℕ)
    → l.has_peek ≡ true
    → l.ptr ≡ some (p + 1)
    → p < length l.source
    → (l' : Lexer) × (consume_char l ≡ some l') × IsSame l l' × At l' (p + 1)
unfolding consume_char next_char
consume_char_lem l p h e lt = (
  record l { has_peek = false },
  rw h refl,
  record { source = refl; peeks = refl },
  unread refl e (omega arith),
)

drop-get_elem? :
    (s : Bytes) (p : ℕ) {c : ℕ} → get_elem? s p ≡ some c → drop p s ≡ c ∷ drop (suc p) s
drop-get_elem? [] p h = cc
drop-get_elem? (x ∷ s) zero h = cc
drop-get_elem? (x ∷ s) (suc p) h = drop-get_elem? s p h

drop-length : (s : Bytes) → drop (length s) s ≡ []
drop-length [] = refl
drop-length (c ∷ s) = drop-length s

get_elem?-cases : (s : Bytes) (p : ℕ) → ((c : ℕ) × (get_elem? s p ≡ some c)) ⊎ (length s ≤ p)
get_elem?-cases s p = elim (Bool-cases (ltb p (length s))) [
  | inl h ↦ inl (get_elem?_total s p (ground arith))
  | inr h ↦ inr (ground arith)
]

some-inj : {a b : ℕ} → some a ≡ some b → a ≡ b
some-inj h = cc

-- What a look finds, for a lexer `l` on the source of `l₀`: a byte, which can be consumed, or the
-- end of the source.
pub data Looked (l₀ l : Lexer) (p : ℕ) : Type 0 where
  found :
      (c : ℕ) (l' l'' : Lexer)
      → drop p l₀.source ≡ c ∷ drop (suc p) l₀.source
      → 0 < c
      → p < length l₀.source
      → look l ≡ some l'
      → l'.has_peek ≡ true
      → l'.peek_char ≡ blank c
      → l'.ptr ≡ some (suc p)
      → consume_char l' ≡ some l''
      → At l' p
      → At l'' (suc p)
      → IsSame l₀ l'
      → IsSame l₀ l''
      → Looked l₀ l p
  empty :
      (l' : Lexer)
      → drop p l₀.source ≡ []
      → p ≡ length l₀.source
      → look l ≡ some l'
      → l'.has_peek ≡ false
      → At l' p
      → IsSame l₀ l'
      → Looked l₀ l p

pub At-bound : (l : Lexer) (p : ℕ) → At l p → p ≤ length l.source
At-bound l p (peeked _ _ lt _) = omega (arith, lt)
At-bound l p (unread _ _ le) = le
At-bound l p (ended _ _ e) = omega (arith, e)

look_here : (l : Lexer) (p : ℕ) → IsText l.source → At l p → Looked l l p
look_here l p t a = elim (get_elem?-cases l.source p) [
  | inl (c, at) ↦
      let (l', runs, same, h, e, q) = look_char l p c t a at in
      let lt = lt-length_of_get_elem? l.source p at in
      let lt' : p < length l'.source = subst (λ s. p < length s) (sym same.source) lt in
      let (l'', runs', same', a'') = consume_char_lem l' p h e lt' in
      let is : (d : ℕ) → get_elem? l'.source p ≡ some d → l'.peek_char ≡ blank d = λ d at'.
        q ∙ ap blank (some-inj (sym at ∙ ap (λ s. get_elem? s p) (sym same.source) ∙ at')) in
      found c l' l'' (drop-get_elem? l.source p at) (text-char l.source p t at) lt runs h q
        (e ∙ ap some (omega arith)) runs' (peeked h e lt' is) (subst (At l'') (omega arith) a'')
        same (IsSame-trans same same')
  | inr ge ↦
      let bound = At-bound l p a in
      let z : p ≡ length l.source = omega (arith, bound, ge) in
      let (l', runs, same, h, a') = look_end l p a z in
      empty l' (ap (λ i. drop i l.source) z ∙ drop-length l.source) z runs h a' same
]

pub look_lem : (l₀ l : Lexer) (p : ℕ) → IsText l₀.source → IsSame l₀ l → At l p → Looked l₀ l p
look_lem l₀ l p t same a =
    let e = same.source in
    elim (look_here l p (subst IsText (sym e) t) a) [
      | found c l' l'' d pos lt runs h q r runs' a' a'' s' s'' ↦
          found c l' l'' (subst (λ s. drop p s ≡ c ∷ drop (suc p) s) e d) pos
            (subst (λ s. p < length s) e lt) runs h q r runs' a' a'' (IsSame-trans same s')
            (IsSame-trans same s'')
      | empty l' d z runs h a' s' ↦
          empty l' (subst (λ s. drop p s ≡ []) e d) (subst (λ s. p ≡ length s) e z) runs h a'
            (IsSame-trans same s')
    ]
