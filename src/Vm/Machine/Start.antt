-- ===== src/Vm/Machine/Start.antt =====
-- What nu_vm_init leaves, and the first archetype of a machine.
use nextnucleus.Vm.Types.{
  NuError, success, out_of_memory, resource_not_found, duplicated_entry, out_of_system_item,
  invalid_state,
}
use nextnucleus.Vm.Text.{Bytes, ident_size, ident_max, uid}
use nextnucleus.Vm.Text.Compare.{IsText}
use nextnucleus.Vm.Text.Ident.{ident_set_str_lem}
use nextnucleus.Vm.Table.{FieldInfo, ArchetypeEntry, FieldEntry, ChunkEntry, find}
use nextnucleus.Vm.Table.Fields.{Texts}
use nextnucleus.Vm.Table.Names.{IsValid, find_lem}
use nextnucleus.Vm.Table.Create.{create_lem, find-create}
use nextnucleus.Vm.Table.Chunk.{started, failed}
use nextnucleus.Vm.Table.Chunk
use nextnucleus.Vm.Table.Start.{
  walk_chunks, chunks_from, IsFresh, AreCapacities, admitted, init_lem,
}
use nextnucleus.Vm.Machine.{
  MemoryUsage, core, VmProperties, CartridgeApi, vm_properties, cartridge_load_default,
  vm_properties_default, ResourceEntry, ResourceManager, resource_entry_size, Vm, Memory, running,
  stopped, alloc, resource_manager_init, start_resources, start_tables, vm_init,
  vm_create_archetype,
}
use nextnucleus.Base.{
  ℕ, ◌+◌, ◌*◌, ◌≤◌, ◌<◌, ◌≡◌, refl, ap, ◌∙◌, ◌≢◌, inl, inr, true, Option, none, some, List, [], ◌∷◌,
  arith, ltb, Option-cases, ◌>>=◌, length,
}

-- The properties ask for tables and resources, and the allocator answers each request with a block
-- of the size that is asked for.
pub record IsEnough (memory : Memory) (props : VmProperties) (vm : Vm)
    (archetypes : List ArchetypeEntry) (fields : List FieldEntry) (chunks : List ChunkEntry)
    (mem : Bytes) (entries : List ResourceEntry) : Type 0 where
  pub vm_is : memory.vm ≡ some vm
  pub archetypes_are : memory.archetypes ≡ some archetypes
  pub fields_are : memory.fields ≡ some fields
  pub chunks_are : memory.chunks ≡ some chunks
  pub bytes_are : memory.chunk_bytes ≡ some mem
  pub entries_are :
      memory.resources (resource_entry_size * props.resource_capacity) 16 core ≡ some entries
  pub capacities : AreCapacities props.table_capacity props.field_capacity props.chunk_capacity
  pub some_resources : 0 < props.resource_capacity
  pub fresh :
      IsFresh archetypes fields chunks props.table_capacity props.field_capacity
        props.chunk_capacity

-- A machine that has just been started: no archetype, no resource, and every chunk free.
pub record IsStarted (vm : Vm) (props : VmProperties) (entries : List ResourceEntry) : Type 0 where
  pub tables_valid : IsValid vm.tables []
  pub archetype_room : vm.tables.archetype_capacity ≡ props.table_capacity
  pub field_room : vm.tables.field_capacity ≡ props.field_capacity
  pub no_fields : vm.tables.field_count ≡ 0
  pub chunks_free :
      walk_chunks (props.chunk_capacity + 1) vm.tables.chunks vm.tables.free_chunk
      ≡ some (chunks_from 0 props.chunk_capacity)
  pub resources_are :
      vm.resources
      ≡ record { capacity = props.resource_capacity; count = 0; resources = some entries }

alloc_lem :
    (callback : ℕ → ℕ → MemoryUsage → Option (List ResourceEntry)) (n : ℕ)
    (answer : Option (List ResourceEntry))
    → 0 < n
    → callback (resource_entry_size * n) 16 core ≡ answer
    → alloc callback (resource_entry_size * n) core ≡ some answer
unfolding alloc
alloc_lem callback n answer h e =
    let positive : ltb 0 (resource_entry_size * n) ≡ true = ground arith in rw positive (ap some e)

resource_manager_init_lem :
    (callback : ℕ → ℕ → MemoryUsage → Option (List ResourceEntry)) (n : ℕ)
    (entries : List ResourceEntry)
    → 0 < n
    → callback (resource_entry_size * n) 16 core ≡ some entries
    → resource_manager_init callback n
      ≡ some (record { capacity = n; count = 0; resources = some entries }, success)
unfolding resource_manager_init
resource_manager_init_lem callback n entries h e = rw (alloc_lem callback n (some entries) h e) refl

resource_manager_init_full :
    (callback : ℕ → ℕ → MemoryUsage → Option (List ResourceEntry)) (n : ℕ)
    → 0 < n
    → callback (resource_entry_size * n) 16 core ≡ none
    → resource_manager_init callback n
      ≡ some (record { capacity = n; count = 0; resources = none }, out_of_memory)
unfolding resource_manager_init
resource_manager_init_full callback n h e = rw (alloc_lem callback n none h e) refl

-- If the cartridge gives properties with capacities that are not 0, and the allocator has every
-- block, nu_vm_init succeeds with a machine without archetypes or resources, whose free chunks are
-- all chunks, each once, in order.
pub vm_init_lem :
    (memory : Memory) (load : CartridgeApi) (old props : VmProperties) (vm : Vm)
    (archetypes : List ArchetypeEntry) (fields : List FieldEntry) (chunks : List ChunkEntry)
    (mem : Bytes) (entries : List ResourceEntry)
    → load vm_properties old ≡ some (props, success)
    → IsEnough memory props vm archetypes fields chunks mem entries
    → (vm' : Vm) × (vm_init memory load old ≡ some (running vm')) × IsStarted vm' props entries
unfolding vm_init start_resources start_tables
vm_init_lem memory load old props vm archetypes fields chunks mem entries loads h =
    let (m, runs, valid, ac, fc, none_yet, walk) =
      init_lem archetypes fields chunks mem props.table_capacity props.field_capacity
        props.chunk_capacity h.capacities h.fresh in
    let manager : ResourceManager = record {
      capacity = props.resource_capacity;
      count = 0;
      resources = some entries;
    } in
    let runs' =
      resource_manager_init_lem memory.resources props.resource_capacity entries h.some_resources
        h.entries_are in
    (
      record vm { tables = m; resources = manager },
      rw (h.vm_is, loads, h.archetypes_are, h.fields_are, h.chunks_are, h.bytes_are, runs, runs')
          refl,
      record {
        tables_valid = valid;
        archetype_room = ac;
        field_room = fc;
        no_fields = none_yet;
        chunks_free = walk;
        resources_are = refl;
      },
    )

-- The properties of nu_vm_properties_default.
abbrev pub AreDefaults : VmProperties → Type 0
AreDefaults props =
    (props.table_capacity ≡ 64)
    × (props.field_capacity ≡ 512)
    × (props.chunk_capacity ≡ 128)
    × (props.resource_capacity ≡ 512)

cartridge_load_default_lem :
    (old : VmProperties)
    → length old.base_bundle ≡ ident_size
    → (props : VmProperties) × (cartridge_load_default vm_properties old ≡ some (props, success))
      × AreDefaults props
unfolding cartridge_load_default vm_properties_default
cartridge_load_default_lem old e =
    let (name, runs, _, _, _) =
      ident_set_str_lem old.base_bundle (109 ∷ 97 ∷ 105 ∷ 110 ∷ []) e (omega arith) in
    (
      record {
        table_capacity = 64;
        field_capacity = 512;
        chunk_capacity = 128;
        bytecode_capacity = 1024;
        resource_capacity = 512;
        base_bundle = name;
      },
      rw runs refl,
      (refl, refl, refl, refl),
    )

-- The first archetype of a machine that has just been started, with a name of at most 30 characters
-- and no more fields than there is room for, gets the handle 1, which the hash of the name then
-- finds; no other hash finds an archetype.
pub vm_create_archetype_lem :
    (vm : Vm) (props : VmProperties) (entries : List ResourceEntry) (name : Bytes)
    (infos : List FieldInfo) (n u : ℕ)
    → IsStarted vm props entries
    → 0 < props.table_capacity
    → IsText name
    → length name ≤ ident_max
    → uid name ≡ some u
    → Texts infos
    → n ≤ length infos
    → n ≤ props.field_capacity
    → (vm' : Vm) × (vm_create_archetype vm name infos n ≡ some (vm', 1, success))
      × (find vm'.tables u ≡ some 1)
      × ((w : ℕ) → w ≢ u → find vm'.tables w ≡ some 0)
unfolding vm_create_archetype
vm_create_archetype_lem vm props entries name infos n u h room text short hash texts le froom =
    let space : 0 < vm.tables.archetype_capacity = omega (arith, h.archetype_room) in
    let fspace : vm.tables.field_count + n ≤ vm.tables.field_capacity =
      omega (arith, h.field_room, h.no_fields) in
    let (m, runs, _, _, _, _) =
      create_lem vm.tables [] name infos n u h.tables_valid text short hash texts le space fspace in
    let (found, others) =
      find-create vm.tables [] name infos n u h.tables_valid text short hash texts le space fspace
        runs in
    (
      record vm { tables = m },
      rw (runs, ◌>>=◌) refl,
      found,
      λ w ne. others w ne ∙ find_lem vm.tables [] w h.tables_valid,
    )

-- One of the blocks for the tables is missing.
abbrev pub LacksTable :
    Option (List ArchetypeEntry)
    → Option (List FieldEntry)
    → Option (List ChunkEntry)
    → Option Bytes
    → Type 0
LacksTable (some archetypes) (some fields) (some chunks) (some mem) = ⊥
LacksTable _ _ _ _ = Unit

init_fails :
    (archetypes : Option (List ArchetypeEntry)) (fields : Option (List FieldEntry))
    (chunks : Option (List ChunkEntry)) (mem : Option Bytes) (ac fc cc' : ℕ)
    → AreCapacities ac fc cc'
    → LacksTable archetypes fields chunks mem
    → Chunk.init archetypes fields chunks mem ac fc cc' ≡ some (failed out_of_memory)
unfolding Chunk.init Chunk.init_blocks
init_fails none fields chunks mem ac fc cc' caps h = rw (admitted caps) refl
init_fails (some _) none chunks mem ac fc cc' caps h = rw (admitted caps) refl
init_fails (some _) (some _) none mem ac fc cc' caps h = rw (admitted caps) refl
init_fails (some _) (some _) (some _) none ac fc cc' caps h = rw (admitted caps) refl
init_fails (some _) (some _) (some _) (some _) ac fc cc' caps h = absurd h

pub vm_init-error :
    (memory : Memory) (load : CartridgeApi) (old props : VmProperties) (vm : Vm) (error : NuError)
    → load vm_properties old ≡ some (props, error)
    → memory.vm ≡ some vm
    → error ≢ success
    → vm_init memory load old ≡ some (stopped error)
unfolding vm_init
vm_init-error memory load old props vm success loads given failing = absurd (failing refl)
vm_init-error memory load old props vm out_of_memory loads given failing = rw (given, loads) refl
vm_init-error memory load old props vm resource_not_found loads given failing =
    rw (given, loads) refl
vm_init-error memory load old props vm duplicated_entry loads given failing = rw (given, loads) refl
vm_init-error memory load old props vm out_of_system_item loads given failing =
    rw (given, loads) refl
vm_init-error memory load old props vm invalid_state loads given failing = rw (given, loads) refl

-- The allocator does not give a block: the one for the machine, one of those for the tables, or,
-- behind all of these, the one for the resources.
pub data Lacks (memory : Memory) (props : VmProperties) : Type 0 where
  no_vm : memory.vm ≡ none → Lacks memory props
  no_table :
      LacksTable memory.archetypes memory.fields memory.chunks memory.chunk_bytes
      → Lacks memory props
  no_resources :
      (archetypes : List ArchetypeEntry) (fields : List FieldEntry) (chunks : List ChunkEntry)
      (mem : Bytes)
      → memory.archetypes ≡ some archetypes
      → memory.fields ≡ some fields
      → memory.chunks ≡ some chunks
      → memory.chunk_bytes ≡ some mem
      → IsFresh archetypes fields chunks props.table_capacity props.field_capacity
          props.chunk_capacity
      → memory.resources (resource_entry_size * props.resource_capacity) 16 core ≡ none
      → Lacks memory props

-- If the cartridge gives properties with capacities that are not 0, and the allocator does not give
-- the block for the machine, one of those for the tables, or, with all of these, the one for the
-- resources, nu_vm_init stops with the error that memory is out.
pub vm_init_full :
    (memory : Memory) (load : CartridgeApi) (old props : VmProperties)
    → AreCapacities props.table_capacity props.field_capacity props.chunk_capacity
    → 0 < props.resource_capacity
    → load vm_properties old ≡ some (props, success)
    → Lacks memory props
    → vm_init memory load old ≡ some (stopped out_of_memory)
unfolding vm_init start_tables start_resources
vm_init_full memory load old props caps resources loads (no_vm e) = rw e refl
vm_init_full memory load old props caps resources loads (no_table h) =
    elim (Option-cases memory.vm) [
      | inl e ↦ rw e refl
      | inr (vm, e) ↦
          let f =
            init_fails memory.archetypes memory.fields memory.chunks memory.chunk_bytes
              props.table_capacity props.field_capacity props.chunk_capacity caps h in
          rw (e, loads, f) refl
    ]
vm_init_full memory load old props caps resources loads
      (no_resources archetypes fields chunks mem ea ef ec em fresh full) =
    elim (Option-cases memory.vm) [
      | inl e ↦ rw e refl
      | inr (vm, e) ↦
          let (m, runs, _, _, _, _, _) =
            init_lem archetypes fields chunks mem props.table_capacity props.field_capacity
              props.chunk_capacity caps fresh in
          let f =
            resource_manager_init_full memory.resources props.resource_capacity resources full in
          rw (e, loads, ea, ef, ec, em, runs, f) refl
    ]
