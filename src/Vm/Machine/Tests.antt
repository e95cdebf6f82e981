-- ===== src/Vm/Machine/Tests.antt =====
-- The start of a machine at concrete runs.
use nextnucleus.Vm.Types.{int, success, out_of_memory}
use nextnucleus.Vm.Text.{uid, ident_set_str}
use nextnucleus.Vm.Table.{ArchetypeEntry, FieldEntry, ChunkEntry, find}
use nextnucleus.Vm.Table.Chunk
use nextnucleus.Vm.Table.Start.{IsFresh}
use nextnucleus.Vm.Table.{TableManager}
use nextnucleus.Vm.Table.Chunk.{started}
use nextnucleus.Vm.Machine.{
  VmProperties, CartridgeApi, vm_properties, cartridge_load_default, ResourceEntry,
  unknown_resource, Vm, Memory, running, stopped, vm_init, vm_create_archetype,
}
use nextnucleus.Vm.Machine.Start.{
  IsEnough, IsStarted, no_resources, vm_init_lem, vm_init_full, vm_create_archetype_lem,
}
use nextnucleus.Base.{
  ℕ, zero, suc, ◌≡◌, refl, sym, subst, ◌∙◌, ◌≢◌, Option, none, some, List, [], ◌∷◌, ◌++◌, arith,
  length, get_elem?, replicate,
}

abbrev no_archetype : ArchetypeEntry
no_archetype = record {
  capacity = 0;
  entry_size = 0;
  first_chunk = 0;
  first_field_offset = 0;
  field_count = 0;
  next = 0;
  name = replicate 32 0;
}

abbrev no_field : FieldEntry
no_field = record { primitive = int; archetype = 0; name = replicate 32 0 }

abbrev no_chunk : ChunkEntry
no_chunk = record { next = 0; free = 0 }

-- A cartridge with two archetypes, one field, three chunks and one resource.
abbrev small : VmProperties
small = record {
  table_capacity = 2;
  field_capacity = 1;
  chunk_capacity = 3;
  bytecode_capacity = 0;
  resource_capacity = 1;
  base_bundle = replicate 32 0;
}

abbrev load_small : CartridgeApi
load_small type_is props = some (small, success)

abbrev tables : Option (List ArchetypeEntry)
tables = some (replicate 2 no_archetype)

abbrev entry : ResourceEntry
entry = record {
  name = replicate 32 0;
  type_is = unknown_resource;
  first_resource = 0;
  next_in_bundle = 0;
}

abbrev old_tables : TableManager
old_tables = record {
  archetype_capacity = 0;
  field_capacity = 0;
  chunk_capacity = 0;
  archetype_count = 0;
  field_count = 0;
  first_archetype = 0;
  free_chunk = 0;
  archetypes = [];
  fields = [];
  chunks = [];
  bytes = [];
}

abbrev old_vm : Vm
old_vm = record {
  tables = old_tables;
  properties = small;
  resources = record { capacity = 0; count = 0; resources = none };
}

abbrev memory_with : Option (List ResourceEntry) → Memory
memory_with entries = record {
  vm = some old_vm;
  archetypes = tables;
  fields = some (no_field ∷ []);
  chunks = some (replicate 3 no_chunk);
  chunk_bytes = some [];
  resources = λ size align usage. entries;
}

none-some {ℓ} : {A : Type ℓ} {a : A} → none ≢ some a
none-some h = cc

is-replicate {ℓ κ} :
    {A : Type ℓ} {b : A} (P : A → Type κ) (n : ℕ) (a : A) (i : ℕ)
    → P a
    → get_elem? (replicate n a) i ≡ some b
    → P b
is-replicate P zero a i p h = absurd (none-some h)
is-replicate {b} P (suc n) a zero p h = (let e : a ≡ b = cc in subst P e p)
is-replicate P (suc n) a (suc i) p h = is-replicate P n a i p h

fresh : IsFresh (replicate 2 no_archetype) (no_field ∷ []) (replicate 3 no_chunk) 2 1 3
fresh = record {
  archetypes_sized = refl;
  fields_sized = refl;
  chunks_sized = refl;
  names =
      λ i e h. is-replicate (λ (e : ArchetypeEntry). length e.name ≡ 32) 2 no_archetype i refl h;
  field_names = λ i f h. is-replicate (λ (f : FieldEntry). length f.name ≡ 32) 1 no_field i refl h;
}

enough :
    IsEnough
      (memory_with (some (entry ∷ [])))
      small
      old_vm
      (replicate 2 no_archetype)
      (no_field ∷ [])
      (replicate 3 no_chunk)
      []
      (entry ∷ [])
enough = record {
  vm_is = refl;
  archetypes_are = refl;
  fields_are = refl;
  chunks_are = refl;
  bytes_are = refl;
  entries_are = refl;
  capacities = omega arith;
  some_resources = omega arith;
  fresh = fresh;
}

vm_init_lem_example :
    (vm : Vm) × (vm_init (memory_with (some (entry ∷ []))) load_small small ≡ some (running vm))
    × IsStarted vm small (entry ∷ [])
vm_init_lem_example =
    vm_init_lem (memory_with (some (entry ∷ []))) load_small small small old_vm
      (replicate 2 no_archetype) (no_field ∷ []) (replicate 3 no_chunk) [] (entry ∷ []) refl enough

vm_init_full_example : vm_init (memory_with none) load_small small ≡ some (stopped out_of_memory)
vm_init_full_example =
    vm_init_full (memory_with none) load_small small small (omega arith) (omega arith) refl (
      no_resources (replicate 2 no_archetype) (no_field ∷ []) (replicate 3 no_chunk) [] refl refl
        refl refl fresh refl)

uid_runs : uid (97 ∷ []) ≡ some 0xe40c292c
unfolding uid
uid_runs = refl

-- The machine that is started.
abbrev new_vm : Vm
new_vm = record {
  tables = record {
    archetype_capacity = 2;
    field_capacity = 1;
    chunk_capacity = 3;
    archetype_count = 0;
    field_count = 0;
    first_archetype = 0;
    free_chunk = 0;
    archetypes = replicate 2 no_archetype;
    fields = no_field ∷ [];
    chunks =
        record { next = 1; free = 0 }
        ∷ record { next = 2; free = 0 }
        ∷ record { next = 0xffff; free = 0 }
        ∷ [];
    bytes = [];
  };
  properties = small;
  resources = record { capacity = 1; count = 0; resources = some (entry ∷ []) };
}

vm_init_runs : vm_init (memory_with (some (entry ∷ []))) load_small small ≡ some (running new_vm)
unfolding vm_init Chunk.init
vm_init_runs = refl

running_eq : {v w : Vm} → some (running v) ≡ some (running w) → v ≡ w
running_eq h = cc

new_vm-IsStarted : IsStarted new_vm small (entry ∷ [])
new_vm-IsStarted =
    let (vm, runs, v) = vm_init_lem_example in
    let same : vm ≡ new_vm = running_eq (sym runs ∙ vm_init_runs) in
    subst (λ vm. IsStarted vm small (entry ∷ [])) same v

vm_create_archetype_lem_example :
    (vm : Vm) × (vm_create_archetype new_vm (97 ∷ []) [] 0 ≡ some (vm, 1, success))
    × (find vm.tables 0xe40c292c ≡ some 1)
    × ((w : ℕ) → w ≢ 0xe40c292c → find vm.tables w ≡ some 0)
vm_create_archetype_lem_example =
    vm_create_archetype_lem new_vm small (entry ∷ []) (97 ∷ []) [] 0 0xe40c292c new_vm-IsStarted
      (omega arith) ((omega arith, omega arith), tt) (omega arith) uid_runs tt (omega arith)
      (omega arith)

-- The default cartridge.
default_capacities :
    cartridge_load_default vm_properties small
    ≡ some (
      record {
        table_capacity = 64;
        field_capacity = 512;
        chunk_capacity = 128;
        bytecode_capacity = 1024;
        resource_capacity = 512;
        base_bundle = 109 ∷ 97 ∷ 105 ∷ 110 ∷ (replicate 27 0 ++ 4 ∷ []);
      },
      success,
    )
unfolding cartridge_load_default ident_set_str
default_capacities = refl
