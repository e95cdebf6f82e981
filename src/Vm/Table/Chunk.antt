-- ===== src/Vm/Table/Chunk.antt =====
-- nucleus/vm/table.h: the chunks of an archetype, the spawning of an entity, and the initialisation
-- of the manager. The memory of the chunks is little endian.
use nextnucleus.Base.{
  ◌>>=◌, ◌>>◌, ℕ, zero, suc, ◌+◌, ◌-◌, ◌*◌, ◌/◌, ◌%◌, ◌^◌, not, ◌&&◌, Option, none, some, List, ltb,
  ◌==◌, if◌then◌else◌, assert, length, get_elem?, set, u8_mod, u16_mod, u16,
}
use nextnucleus.Vm.Text.{Bytes}
use nextnucleus.Vm.Types.{NuError, out_of_memory}
use nextnucleus.Vm.Table.{
  ArchetypeEntry, FieldEntry, ChunkEntry, TableManager, chunk_size, chunk_none, entity_build,
}

-- nu__archetype_find_chunk, in at most `fuel` rounds
unfoldable pub find_chunk_loop : ℕ → List ChunkEntry → ℕ → Option ℕ
find_chunk_loop zero chunks current = none
find_chunk_loop (suc fuel) chunks current =
    let rest = (do
      c ← get_elem? chunks current
      let more = find_chunk_loop fuel chunks c.next
      if not (c.free == 0) then some current else more) in
    if current == chunk_none then some chunk_none else rest

unfoldable pub find_chunk : List ChunkEntry → ℕ → Option ℕ
unfolding find_chunk_loop
find_chunk chunks first_chunk = find_chunk_loop (length chunks + 1) chunks first_chunk

-- nu__chunk_entities and nu__chunk_indices: the offsets of the two arrays of a chunk
unfoldable pub chunk_entities : ArchetypeEntry → ℕ → ℕ
chunk_entities table chunk = chunk * chunk_size + table.entry_size * table.capacity

unfoldable pub chunk_indices : ArchetypeEntry → ℕ → ℕ
chunk_indices table chunk = chunk * chunk_size + (table.entry_size + 4) * table.capacity

-- A nu_entity_t at an offset, and a nu_u16_t written to one.
unfoldable pub read_u32 : Bytes → ℕ → Option ℕ
read_u32 mem o = do
  b₀ ← get_elem? mem o
  b₁ ← get_elem? mem (o + 1)
  b₂ ← get_elem? mem (o + 2)
  b₃ ← get_elem? mem (o + 3)
  some (b₀ + b₁ * 2 ^ 8 + b₂ * 2 ^ 16 + b₃ * 2 ^ 24)

unfoldable pub write_u16 : Bytes → ℕ → ℕ → Option Bytes
write_u16 mem o v = do
  assert (ltb (o + 1) (length mem))
  some (set (set mem o (v % u8_mod)) (o + 1) (v / u8_mod % u8_mod))

-- The first part of nu__spawn: a chunk with room, which is a new one if the archetype has none.
unfoldable pub take_chunk : TableManager → ArchetypeEntry → Option (ℕ × TableManager)
unfolding find_chunk
take_chunk m entry = do
  chunk ← find_chunk m.chunks entry.first_chunk
  if not (chunk == chunk_none) then some (chunk, m) else (do
    assert (not (m.free_chunk == chunk_none))
    c ← get_elem? m.chunks m.free_chunk
    some (
      m.free_chunk,
      record m {
        free_chunk = c.next;
        chunks = set m.chunks m.free_chunk (record c { free = entry.capacity });
      },
    ))

-- nu__spawn: the manager and the handle of the entity
unfoldable pub spawn : TableManager → ℕ → Option (TableManager × ℕ)
unfolding take_chunk chunk_entities chunk_indices read_u32 write_u16
spawn m archetype = do
  entry ← get_elem? m.archetypes archetype
  (chunk, m₁) ← take_chunk m entry
  c ← get_elem? m₁.chunks chunk
  let entity_count = u16 (entry.capacity + u16_mod - c.free)
  let m₂ : TableManager = record m₁ {
    chunks = set m₁.chunks chunk (record c { free = u16 (c.free + u16_mod - 1) });
  }
  e ← read_u32 m₂.bytes (chunk_entities entry chunk + 4 * entity_count)
  let index = u16 e
  mem ← write_u16 m₂.bytes (chunk_indices entry chunk + 2 * index) entity_count
  some (record m₂ { bytes = mem }, entity_build chunk index)

-- The loop of nu__table_manager_init: `n` rounds are left and `i` is the counter.
unfoldable pub link_chunks : ℕ → ℕ → List ChunkEntry → Option (List ChunkEntry)
link_chunks zero i chunks = some chunks
link_chunks (suc n) i chunks = do
  c ← get_elem? chunks i
  link_chunks n (i + 1) (set chunks i (record c { next = u16 (i + 1) }))

-- `manager->chunks[chunk_capacity - 1].next = NU_CHUNK_NONE`
unfoldable pub end_chunks : ℕ → List ChunkEntry → Option (List ChunkEntry)
end_chunks capacity chunks = do
  c ← get_elem? chunks (capacity - 1)
  some (set chunks (capacity - 1) (record c { next = chunk_none }))

-- What nu__table_manager_init leaves: an error code, and the manager if there is none.
pub data Started : Type 0 where
  started : TableManager → Started
  failed : NuError → Started

-- nu__table_manager_init behind its assertion; the four blocks are what the allocator answers, in
-- the order of the calls
unfoldable pub init_blocks :
    Option (List ArchetypeEntry)
    → Option (List FieldEntry)
    → Option (List ChunkEntry)
    → Option Bytes
    → ℕ
    → ℕ
    → ℕ
    → Option Started
init_blocks none fields chunks mem ac fc cc' = some (failed out_of_memory)
init_blocks (some archetypes) none chunks mem ac fc cc' = some (failed out_of_memory)
init_blocks (some archetypes) (some fields) none mem ac fc cc' = some (failed out_of_memory)
init_blocks (some archetypes) (some fields) (some chunks) none ac fc cc' =
    some (failed out_of_memory)
init_blocks (some archetypes) (some fields) (some chunks) (some mem) ac fc cc' = do
  chunks₁ ← link_chunks cc' 0 chunks
  chunks₂ ← end_chunks cc' chunks₁
  some (
      started (record {
        archetype_capacity = ac;
        field_capacity = fc;
        chunk_capacity = cc';
        archetype_count = 0;
        field_count = 0;
        first_archetype = 0;
        free_chunk = 0;
        archetypes = archetypes;
        fields = fields;
        chunks = chunks₂;
        bytes = mem;
      }))

-- nu__table_manager_init
unfoldable pub init :
    Option (List ArchetypeEntry)
    → Option (List FieldEntry)
    → Option (List ChunkEntry)
    → Option Bytes
    → ℕ
    → ℕ
    → ℕ
    → Option Started
unfolding init_blocks link_chunks end_chunks
init archetypes fields chunks mem ac fc cc' = do
  assert (not (ac == 0) && not (fc == 0) && not (cc' == 0))
  init_blocks archetypes fields chunks mem ac fc cc'
