-- ===== src/Vm/Machine.antt =====
-- nucleus/vm.h with nucleus/vm/property.h, nucleus/vm/resource.h, nucleus/vm/cartridge.h and
-- nucleus/vm/allocator.h: the start of the machine. What the allocator answers is an argument, and
-- so is the cartridge's load function. `none` is a failed assertion, an access outside a block, or
-- a call of a null pointer.
pub mod Start
mod Tests
use nextnucleus.Vm.Types.{NuError, success, out_of_memory, resource_not_found}
use nextnucleus.Vm.Text.{Bytes, ident_set_str}
use nextnucleus.Vm.Table.{FieldInfo, ArchetypeEntry, FieldEntry, ChunkEntry, TableManager, create}
use nextnucleus.Vm.Table.Chunk.{Started, started, failed}
use nextnucleus.Vm.Table.Chunk
use nextnucleus.Base.{ℕ, ◌*◌, Option, none, some, List, [], ◌∷◌, ltb, ◌>>=◌, ◌>>◌, assert}

-- nu_memory_usage_t
pub data MemoryUsage : Type 0 where
  core table renderer compiler : MemoryUsage

-- nu__aligned_alloc and nu__alloc, whose callback answers a block or the null pointer
unfoldable pub aligned_alloc {ℓ} :
    {A : Type ℓ} → (ℕ → ℕ → MemoryUsage → Option A) → ℕ → ℕ → MemoryUsage → Option (Option A)
aligned_alloc callback size align usage = do assert (ltb 0 size); some (callback size align usage)

unfoldable pub alloc {ℓ} :
    {A : Type ℓ} → (ℕ → ℕ → MemoryUsage → Option A) → ℕ → MemoryUsage → Option (Option A)
alloc callback size usage = do assert (ltb 0 size); some (callback size 16 usage)

-- nu_vm_properties_t
pub record VmProperties : Type 0 where
  pub table_capacity : ℕ
  pub field_capacity : ℕ
  pub chunk_capacity : ℕ
  pub bytecode_capacity : ℕ
  pub resource_capacity : ℕ
  pub base_bundle : Bytes

-- nu_vm_properties_default, which writes to the properties that it is given; the text is `main`
unfoldable pub vm_properties_default : VmProperties → Option VmProperties
vm_properties_default props = do
  name ← ident_set_str props.base_bundle (109 ∷ 97 ∷ 105 ∷ 110 ∷ [])
  some (record {
    table_capacity = 64;
    field_capacity = 512;
    chunk_capacity = 128;
    bytecode_capacity = 1024;
    resource_capacity = 512;
    base_bundle = name;
  })

-- nu_resource_type_t and nu_cartdata_type_t
pub data ResourceType : Type 0 where
  bundle_resource system_resource texture_resource unknown_resource : ResourceType

pub data CartdataType : Type 0 where
  vm_properties bundle resource unknown : CartdataType

-- nu_cartridge_api_t: the load function with its user data. Behind the pointer that it is given
-- stand properties, in the one call of it.
abbrev pub CartridgeApi : Type 0
CartridgeApi = CartdataType → VmProperties → Option (VmProperties × NuError)

-- nu__cartridge_load_default, which nu_cartridge_api_default puts into the interface
unfoldable pub cartridge_load_default : CartridgeApi
unfolding vm_properties_default
cartridge_load_default vm_properties props = do
  props₁ ← vm_properties_default props
  some (props₁, success)
cartridge_load_default bundle props = some (props, success)
cartridge_load_default resource props = some (props, success)
cartridge_load_default unknown props = some (props, resource_not_found)

-- nu__resource_entry_t and nu__resource_manager_t; the one member of the value's union is the first
-- resource of a bundle
pub record ResourceEntry : Type 0 where
  pub name : Bytes
  pub type_is : ResourceType
  pub first_resource : ℕ
  pub next_in_bundle : ℕ

pub record ResourceManager : Type 0 where
  pub capacity : ℕ
  pub count : ℕ
  pub resources : Option (List ResourceEntry)

-- sizeof(nu__resource_entry_t): a name and three words of 32 bits
abbrev pub resource_entry_size : ℕ
resource_entry_size = 44

-- nu__resource_manager_init
unfoldable pub resource_manager_init :
    (ℕ → ℕ → MemoryUsage → Option (List ResourceEntry)) → ℕ → Option (ResourceManager × NuError)
unfolding alloc
resource_manager_init callback capacity = do
  block ← alloc callback (resource_entry_size * capacity) core
  let manager : ResourceManager = record { capacity = capacity; count = 0; resources = block }
  elim block [ none ↦ some (manager, out_of_memory) | some entries ↦ some (manager, success) ]

-- struct nu__vm, without the renderer, to which nothing is bound, and the allocator
pub record Vm : Type 0 where
  pub tables : TableManager
  pub properties : VmProperties
  pub resources : ResourceManager

-- What the allocator answers: for the machine itself, for the tables in the order of the calls, and
-- for the resources.
pub record Memory : Type 0 where
  pub vm : Option Vm
  pub archetypes : Option (List ArchetypeEntry)
  pub fields : Option (List FieldEntry)
  pub chunks : Option (List ChunkEntry)
  pub chunk_bytes : Option Bytes
  pub resources : ℕ → ℕ → MemoryUsage → Option (List ResourceEntry)

-- What nu_vm_init leaves: an error code, or the machine.
pub data VmStart : Type 0 where
  running : Vm → VmStart
  stopped : NuError → VmStart

-- The last calls of nu_vm_init.
unfoldable pub start_resources : Memory → VmProperties → Vm → Option VmStart
unfolding resource_manager_init
start_resources memory props vm = do
  (manager, error) ← resource_manager_init memory.resources props.resource_capacity
  elim error [ success ↦ some (running (record vm { resources = manager })) | e ↦ some (stopped e) ]

unfoldable pub start_tables : Memory → VmProperties → Vm → Option VmStart
unfolding start_resources
start_tables memory props vm = do
  s ←
      Chunk.init memory.archetypes memory.fields memory.chunks memory.chunk_bytes
        props.table_capacity props.field_capacity props.chunk_capacity
  elim s [
    | failed e ↦ some (stopped e)
    | started tables ↦ start_resources memory props (record vm { tables = tables })
  ]

-- nu_vm_init; the properties stand on the stack, with what is there before.
unfoldable pub vm_init : Memory → CartridgeApi → VmProperties → Option VmStart
unfolding start_tables
vm_init memory load props = elim memory.vm [
  | none ↦ some (stopped out_of_memory)
  | some vm ↦ do
    (props₁, error) ← load vm_properties props
    elim error [ success ↦ start_tables memory props₁ vm | e ↦ some (stopped e) ]
]

-- nu_vm_free and nu_vm_tick, which do nothing yet
unfoldable pub vm_free : Vm → NuError
vm_free vm = success

unfoldable pub vm_tick : Vm → Vm × NuError
vm_tick vm = (vm, success)

-- nu_vm_create_archetype: the machine, the handle, and the error code
unfoldable pub vm_create_archetype : Vm → Bytes → List FieldInfo → ℕ → Option (Vm × ℕ × NuError)
vm_create_archetype vm name infos n = do
  (tables, archetype, error) ← create vm.tables name infos n
  some (record vm { tables = tables }, archetype, error)
