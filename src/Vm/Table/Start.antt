-- ===== src/Vm/Table/Start.antt =====
-- What the initialisation of the table manager leaves: no archetypes, and every chunk free.
use native.Mathlib.Numerals.{add-one}
use nextnucleus.Vm.Text.{Bytes, ident_size}
use nextnucleus.Vm.Table.{ArchetypeEntry, FieldEntry, ChunkEntry, TableManager, chunk_none}
use nextnucleus.Vm.Table.Chunk.{link_chunks, end_chunks, init_blocks, init, started}
use nextnucleus.Vm.Table.Names.{FieldNames, IsValid}
use nextnucleus.Base.{
  ℕ, zero, suc, ◌+◌, ◌-◌, ◌≤◌, ◌<◌, ◌≡◌, refl, sym, ap, subst, ◌∙◌, inl, inr, true, false, not,
  ◌&&◌, Option, none, some, List, [], ◌∷◌, arith, ◌==◌, if◌then◌else◌, ==_iff, Bool-cases, ◌>>=◌,
  length, get_elem?, set, length-set, get_elem?-set_self, get_elem?-set_ne, get_elem?_total,
  u16_mod, u16,
}

-- The numbers of `n` chunks from one on.
abbrev pub chunks_from : ℕ → ℕ → List ℕ
chunks_from i zero = []
chunks_from i (suc n) = i ∷ chunks_from (suc i) n

-- The chunks that are met from one on, in at most `fuel` rounds.
unfoldable pub walk_chunks : ℕ → List ChunkEntry → ℕ → Option (List ℕ)
walk_chunks zero chunks i = none
walk_chunks (suc fuel) chunks i =
    let rest = (do c ← get_elem? chunks i; is ← walk_chunks fuel chunks c.next; some (i ∷ is)) in
    if i == chunk_none then some [] else rest

-- The chunks from one on are linked each to the next.
abbrev LinkedFrom : ℕ → List ChunkEntry → Type 0
LinkedFrom i chunks =
    (j : ℕ)
    → i ≤ j
    → j < length chunks
    → (c : ChunkEntry) × (get_elem? chunks j ≡ some c) × (c.next ≡ u16 (suc j))

link_chunks_lem :
    (n i : ℕ) (chunks : List ChunkEntry)
    → i + n ≡ length chunks
    → (out : List ChunkEntry) × (link_chunks n i chunks ≡ some out)
      × (length out ≡ length chunks)
      × LinkedFrom i out
      × ((j : ℕ) → j < i → get_elem? out j ≡ get_elem? chunks j)
unfolding link_chunks
link_chunks_lem zero i chunks e =
    (chunks, refl, refl, (λ j h k. absurd (omega (arith, e))), λ j h. refl)
link_chunks_lem (suc n) i chunks e =
    let (c, at) = get_elem?_total chunks i (omega (arith, e)) in
    let new : ChunkEntry = record c { next = u16 (i + 1) } in
    let len = length-set chunks i new in
    let (out, runs, len', linked, same) =
      link_chunks_lem n (i + 1) (set chunks i new) (omega (arith, e, len)) in
    let here = same i (omega arith) ∙ get_elem?-set_self chunks i new (omega (arith, e)) in
    (
      out,
      rw at runs,
      len' ∙ len,
      λ j h k. elim (Bool-cases (i == j)) [
        | inl q ↦
            let eq : i ≡ j = (==_iff i j).0 q in
            subst
              (λ (k : ℕ). (c : ChunkEntry) × (get_elem? out k ≡ some c) × (c.next ≡ u16 (suc k))) eq
              (new, here, omega arith)
        | inr q ↦ linked j (ground arith) k
      ],
      λ j h. same j (omega arith) ∙ get_elem?-set_ne chunks i j new (omega arith),
    )

module _ (chunks : List ChunkEntry) where
  -- The list of all chunks in order, ending at the last one.
  abbrev IsChain : Type 0
  IsChain =
      (j : ℕ)
      → j < length chunks
      → (c : ChunkEntry) × (get_elem? chunks j ≡ some c)
        × (c.next ≡ (if suc j == length chunks then chunk_none else suc j))

  walk_end : (fuel : ℕ) → walk_chunks (suc fuel) chunks chunk_none ≡ some []
  unfolding walk_chunks
  walk_end fuel = refl

  walk_step :
      (fuel i : ℕ) (c : ChunkEntry)
      → get_elem? chunks i ≡ some c
      → i < chunk_none
      → walk_chunks (suc fuel) chunks i ≡ (walk_chunks fuel chunks c.next >>= λ is. some (i ∷ is))
  unfolding walk_chunks
  walk_step fuel i c at h =
      let test : (i == chunk_none) ≡ false = ground arith in rw (test, at) refl

  walk_chunks_lem :
      IsChain
      → length chunks ≤ chunk_none
      → (n i fuel : ℕ) → suc i + n ≡ length chunks
      → n < fuel
      → walk_chunks (suc fuel) chunks i ≡ some (chunks_from i (suc n))
  walk_chunks_lem chain small n i zero e h = absurd (omega arith)
  walk_chunks_lem chain small zero i (suc fuel) e h =
      let (c, at, next) = chain i (omega (arith, e)) in
      let next' : c.next ≡ chunk_none = next ∙ ground (arith, e) in
      walk_step (suc fuel) i c at (omega (arith, e)) ∙ rw (next', walk_end fuel) refl
  walk_chunks_lem chain small (suc n) i (suc fuel) e h =
      let (c, at, next) = chain i (omega (arith, e)) in
      let next' : c.next ≡ suc i = next ∙ ground (arith, e) in
      let ih = walk_chunks_lem chain small n (suc i) fuel (omega (arith, e)) (omega arith) in
      walk_step (suc fuel) i c at (omega (arith, e)) ∙ rw (next', ih) refl

-- What the allocator answers for the tables: blocks of the sizes that were asked for, in which
-- every name has the size of a name.
pub record IsFresh (archetypes : List ArchetypeEntry) (fields : List FieldEntry)
    (chunks : List ChunkEntry) (ac fc cc' : ℕ) : Type 0 where
  pub archetypes_sized : length archetypes ≡ ac
  pub fields_sized : length fields ≡ fc
  pub chunks_sized : length chunks ≡ cc'
  pub names :
      (i : ℕ) (e : ArchetypeEntry) → get_elem? archetypes i ≡ some e → length e.name ≡ ident_size
  pub field_names : FieldNames fields

-- The capacities are numbers of 16 bits and not 0.
abbrev pub AreCapacities : ℕ → ℕ → ℕ → Type 0
AreCapacities ac fc cc' =
    (0 < ac) × (ac < u16_mod) × (0 < fc) × (fc < u16_mod) × (0 < cc') × (cc' < u16_mod)

pub admitted :
    {ac fc cc' : ℕ}
    → AreCapacities ac fc cc'
    → (not (ac == 0) && not (fc == 0) && not (cc' == 0)) ≡ true
admitted caps = ground (arith, caps)

end_chunks_lem :
    (n : ℕ) (chunks : List ChunkEntry)
    → length chunks ≡ suc n
    → suc n < u16_mod
    → LinkedFrom 0 chunks
    → (out : List ChunkEntry) × (end_chunks (suc n) chunks ≡ some out)
      × (length out ≡ suc n)
      × IsChain out
unfolding end_chunks
end_chunks_lem n chunks len small linked =
    let (c, at, _) = linked n (omega arith) (omega (arith, len)) in
    let new : ChunkEntry = record c { next = chunk_none } in
    let len' = length-set chunks n new in
    let pred : suc n - 1 ≡ n = omega arith in
    (
      set chunks n new,
      rw (pred, at) refl,
      len' ∙ len,
      λ j h. elim (Bool-cases (n == j)) [
        | inl q ↦
            let eq : n ≡ j = (==_iff n j).0 q in
            (
              new,
              ap (get_elem? (set chunks n new)) (sym eq)
                  ∙ get_elem?-set_self chunks n new (omega (arith, len)),
              ground (arith, len, len'),
            )
        | inr q ↦
            let (d, at', next) = linked j (omega arith) (omega (arith, len')) in
            (
              d,
              get_elem?-set_ne chunks n j new (ground arith) ∙ at',
              next ∙ ground (arith, len, len'),
            )
      ],
    )

-- With capacities of 16 bits that are not 0, and the blocks that it asks for, the initialisation
-- succeeds with a well-formed manager without archetypes, whose free chunks are all chunks, each
-- once, in order.
pub init_lem :
    (archetypes : List ArchetypeEntry) (fields : List FieldEntry) (chunks : List ChunkEntry)
    (mem : Bytes) (ac fc cc' : ℕ)
    → AreCapacities ac fc cc'
    → IsFresh archetypes fields chunks ac fc cc'
    → (m : TableManager) × (init (some archetypes) (some fields) (some chunks) (some mem) ac fc cc'
        ≡ some (started m))
      × IsValid m []
      × (m.archetype_capacity ≡ ac)
      × (m.field_capacity ≡ fc)
      × (m.field_count ≡ 0)
      × (walk_chunks (cc' + 1) m.chunks m.free_chunk ≡ some (chunks_from 0 cc'))
unfolding init init_blocks
init_lem archetypes fields chunks mem ac fc zero caps fresh = absurd (omega (arith, caps))
init_lem archetypes fields chunks mem ac fc (suc n) caps fresh =
    let (linked, runs, len, all, _) =
      link_chunks_lem (suc n) 0 chunks (omega (arith, fresh.chunks_sized)) in
    let (out, runs', len', chain) =
      end_chunks_lem n linked (len ∙ fresh.chunks_sized) (omega (arith, caps)) all in
    let walk =
      walk_chunks_lem out chain (omega (arith, caps, len')) n 0 (suc n) (omega (arith, len'))
        (omega arith) in
    (
      record {
        archetype_capacity = ac;
        field_capacity = fc;
        chunk_capacity = suc n;
        archetype_count = 0;
        field_count = 0;
        first_archetype = 0;
        free_chunk = 0;
        archetypes = archetypes;
        fields = fields;
        chunks = out;
        bytes = mem;
      },
      rw (admitted caps, runs, ◌>>=◌, runs') refl,
      record {
        count = refl;
        first = refl;
        room = omega arith;
        small = omega (arith, caps);
        sized = fresh.archetypes_sized;
        named = tt;
        fields_room = omega arith;
        fields_small = omega (arith, caps);
        fields_sized = fresh.fields_sized;
        field_names = fresh.field_names;
        names = fresh.names;
      },
      refl,
      refl,
      refl,
      rw add-one walk,
    )
