-- ===== src/Vm/Table.antt =====
-- nucleus/vm/table.h: archetypes with their fields, and the entity and field handles. An archetype
-- handle is an index plus one, and the archetypes form a list from the newest to the oldest.
pub mod Chunk
pub mod Entity
pub mod Names
pub mod Fields
pub mod Create
pub mod Start
mod Tests
use Prim.Native.Nat.{bit_or}
use nextnucleus.Base.{
  [], ◌>>=◌, ◌>>◌, ℕ, zero, suc, ◌+◌, ◌-◌, ◌*◌, ◌/◌, ◌%◌, ◌^◌, not, ◌||◌, Option, none, some, List,
  ◌∷◌, ltb, ◌==◌, if◌then◌else◌, assert, get_elem?, set, u16_mod, u32_mod, u16, u32,
}
use nextnucleus.Vm.Text.{Bytes, ident_set_str, ident_uid}
use nextnucleus.Vm.Types.{Primitive, vec3, quat, entity, NuError, success, out_of_memory}

-- NU_CHUNK_SIZE and NU_CHUNK_NONE
abbrev pub chunk_size : ℕ
chunk_size = 4096

abbrev pub chunk_none : ℕ
chunk_none = 0xffff

-- nu_field_info_t
pub record FieldInfo : Type 0 where
  pub name : Bytes
  pub primitive : Primitive
  pub archetype : ℕ

-- nu__archetype_entry_t
pub record ArchetypeEntry : Type 0 where
  pub capacity : ℕ
  pub entry_size : ℕ
  pub first_chunk : ℕ
  pub first_field_offset : ℕ
  pub field_count : ℕ
  pub next : ℕ
  pub name : Bytes

-- nu__field_entry_t
pub record FieldEntry : Type 0 where
  pub primitive : Primitive
  pub archetype : ℕ
  pub name : Bytes

-- nu__chunk_entry_t
pub record ChunkEntry : Type 0 where
  pub next : ℕ
  pub free : ℕ

-- nu__table_manager_t, where the memory of the chunks is a block of bytes
pub record TableManager : Type 0 where
  pub archetype_capacity : ℕ
  pub field_capacity : ℕ
  pub chunk_capacity : ℕ
  pub archetype_count : ℕ
  pub field_count : ℕ
  pub first_archetype : ℕ
  pub free_chunk : ℕ
  pub archetypes : List ArchetypeEntry
  pub fields : List FieldEntry
  pub chunks : List ChunkEntry
  pub bytes : Bytes

-- `e - 1` on nu_u32_t
abbrev pub before : ℕ → ℕ
before e = (e + u32_mod - 1) % u32_mod

-- nu__entity_index, nu__entity_chunk and nu__entity_build; a mask of k ones is a remainder, and a
-- shift to the right is a quotient
unfoldable pub entity_index : ℕ → ℕ
entity_index e = before e % u16_mod

unfoldable pub entity_chunk : ℕ → ℕ
entity_chunk e = before e / 2 ^ 16

unfoldable pub entity_build : ℕ → ℕ → ℕ
entity_build chunk index = u32 (bit_or (chunk * 2 ^ 16) index + 1)

-- nu__field_offset, nu__field_capacity and nu__field_size, with NU_FIELD_SCALE
unfoldable pub field_offset : ℕ → ℕ
field_offset f = before f % 1024 * 4

unfoldable pub field_capacity : ℕ → ℕ
field_capacity f = before f / 2 ^ 10 % 1024 * 4

unfoldable pub field_size : ℕ → ℕ
field_size f = before f / 2 ^ 20 % 1024 * 4

-- nu__archetype_field: the offset of a field of an entity in the memory of the chunks
unfoldable pub archetype_field : ℕ → ℕ → ℕ
unfolding entity_index entity_chunk field_offset field_capacity field_size
archetype_field e f =
    entity_chunk e * chunk_size + field_capacity f * field_offset f + entity_index e * field_size f

-- nu__field_type_size
unfoldable pub field_type_size : Primitive → ℕ
field_type_size vec3 = 12
field_type_size quat = 16
field_type_size entity = 8
field_type_size _ = 4

-- nu__archetype_entry_size: the sum over the first `n` fields
unfoldable pub sum_sizes : List FieldInfo → ℕ → Option ℕ
unfolding field_type_size
sum_sizes fields zero = some 0
sum_sizes [] (suc n) = none
sum_sizes (f ∷ fields) (suc n) = do
  rest ← sum_sizes fields n
  some (field_type_size f.primitive + rest)

unfoldable pub archetype_entry_size : List FieldInfo → ℕ → Option ℕ
unfolding sum_sizes
archetype_entry_size fields n = do s ← sum_sizes fields n; some (u16 s)

-- nu__table_entry_capacity, with the sizes of nu_entity_t and of nu_u16_t
unfoldable pub table_entry_capacity : List FieldInfo → ℕ → Option ℕ
unfolding archetype_entry_size
table_entry_capacity fields n = do
  s ← archetype_entry_size fields n
  some (u16 (chunk_size / (s + 4 + 2)))

-- One round of the loop of nu__archetype_create: a field goes to the end of the fields.
unfoldable pub insert_field : TableManager → FieldInfo → Option TableManager
insert_field m info = do
  f ← get_elem? m.fields m.field_count
  name ← ident_set_str f.name info.name
  some (record m {
    field_count = u16 (m.field_count + 1);
    fields =
        set m.fields m.field_count
          (record { primitive = info.primitive; archetype = info.archetype; name = name });
  })

unfoldable pub insert_fields : TableManager → List FieldInfo → ℕ → Option TableManager
insert_fields m infos zero = some m
insert_fields m [] (suc n) = none
insert_fields m (info ∷ infos) (suc n) = do m₁ ← insert_field m info; insert_fields m₁ infos n

-- The second part of nu__archetype_create: a new entry in front of the list of archetypes. The
-- result is the handle.
unfoldable pub insert_archetype :
    TableManager → Bytes → List FieldInfo → ℕ → ℕ → Option (TableManager × ℕ)
insert_archetype m name infos n first_field = do
  let index = m.archetype_count
  entry ← get_elem? m.archetypes index
  size ← archetype_entry_size infos n
  capacity ← table_entry_capacity infos n
  name' ← ident_set_str entry.name name
  let archetype = u16 (index + 1)
  some (
    record m {
      archetypes = set m.archetypes index (record {
        capacity = capacity;
        entry_size = size;
        first_chunk = chunk_none;
        first_field_offset = first_field;
        field_count = n;
        next = m.first_archetype;
        name = name';
      });
      first_archetype = archetype;
      archetype_count = u16 (m.archetype_count + 1);
    },
    archetype,
  )

-- nu__archetype_create: the manager, the handle (0 on failure) and the error code
unfoldable pub create :
    TableManager → Bytes → List FieldInfo → ℕ → Option (TableManager × ℕ × NuError)
create m name infos n =
    if ltb m.archetype_capacity (m.archetype_count + 1) || ltb m.field_capacity (m.field_count + n)
    then some (m, 0, out_of_memory)
    else (do
      m₁ ← insert_fields m infos n
      (m₂, archetype) ← insert_archetype m₁ name infos n m.field_count
      some (m₂, archetype, success))

-- nu__archetype_find, in at most `fuel` rounds
unfoldable pub find_loop : ℕ → TableManager → ℕ → ℕ → Option ℕ
find_loop zero m uid current = none
find_loop (suc fuel) m uid current =
    let rest = (do
      entry ← get_elem? m.archetypes (current - 1)
      u ← ident_uid entry.name
      let more = find_loop fuel m uid entry.next
      if u == uid then some current else more) in
    if current == 0 then some 0 else rest

unfoldable pub find : TableManager → ℕ → Option ℕ
unfolding find_loop
find m uid = find_loop (m.archetype_count + 1) m uid m.first_archetype

-- nu__archetype_find_field: `n` fields are left, from `i` on
unfoldable pub find_field_loop : ℕ → TableManager → ℕ → ℕ → Option ℕ
find_field_loop zero m uid i = some 0
find_field_loop (suc n) m uid i = do
  f ← get_elem? m.fields i
  u ← ident_uid f.name
  let more = find_field_loop n m uid (i + 1)
  if u == uid then some i else more

unfoldable pub find_field : TableManager → ℕ → ℕ → Option ℕ
unfolding find_field_loop
find_field m archetype uid = do
  assert (not (archetype == 0))
  entry ← get_elem? m.archetypes (archetype - 1)
  find_field_loop entry.field_count m uid entry.first_field_offset
