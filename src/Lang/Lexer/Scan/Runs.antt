-- ===== src/Lang/Lexer/Scan/Runs.antt =====
-- nucleus/lang/lexer.h: the parts of a text that the loops of the scanner run over.
use nextnucleus.Base.{
  [], ℕ, suc, ◌+◌, ◌≡◌, refl, ap, ◌≢◌, Bool, Option, none, some, ◌∷◌, arith, ◌==◌, if◌then◌else◌,
  ◌>>=◌,
}
use nextnucleus.Vm.Text.{Bytes}
use nextnucleus.Lang.Token.{Location, is_identifier, is_numeric}
use nextnucleus.Lang.Lexer.Laws.{blank}

-- How many bytes at the front of a text pass a test.
abbrev pub run_length : (ℕ → Bool) → Bytes → ℕ
run_length f [] = 0
run_length f (c ∷ s) = if f c then suc (run_length f s) else 0

-- The place of the first byte of a text that is `a`.
abbrev pub index_of : ℕ → Bytes → Option ℕ
index_of a [] = none
index_of a (c ∷ s) = if c == a then some 0 else (index_of a s >>= λ i. some (1 + i))

pub identifier_blank : (c : ℕ) → is_identifier (blank c) ≡ is_identifier c
identifier_blank c = ground arith

abbrev pub is_space : ℕ → Bool
is_space c = blank c == 32

abbrev pub plus : ℕ → Option ℕ → Option ℕ
plus n o = o >>= λ k. some (n + k)

-- The length of a string literal, in the answer of the loop.
abbrev pub length_in : Option (Location × ℕ) → Option ℕ
length_in none = none
length_in (some (loc, n)) = some n

pub plus-suc : (n : ℕ) (o : Option ℕ) → plus (n + 1) o ≡ plus n (plus 1 o)
plus-suc n none = refl
plus-suc n (some k) = ap some (omega arith)

pub plus-none : (o : Option ℕ) → plus 1 o ≡ none → o ≡ none
plus-none none h = refl
plus-none (some k) h = cc

pub plus-some : (o : Option ℕ) {k : ℕ} → plus 1 o ≡ some k → (j : ℕ) × (o ≡ some j) × (k ≡ suc j)
plus-some none h = absurd (ground arith)
plus-some (some j) h = (j, refl, ground arith)

pub nil-cons : {c : ℕ} {s : Bytes} → [] ≢ c ∷ s
nil-cons h = cc

pub head-inj : {c d : ℕ} {s r : Bytes} → c ∷ s ≡ d ∷ r → c ≡ d
head-inj h = cc

pub numeric_blank : (c : ℕ) → is_numeric (blank c) ≡ is_numeric c
numeric_blank c = ground arith

pub dot_blank : (c : ℕ) → (blank c == 46) ≡ (c == 46)
dot_blank c = ground arith
