-- ===== src/Vm/Table/Tests.antt =====
-- The theorems on handles and archetypes at concrete runs.
use nextnucleus.Base.{
  [], ℕ, zero, suc, ◌+◌, ◌<◌, ◌≡◌, refl, subst, ◌≢◌, none, some, ◌∷◌, ◌++◌, arith, length,
  get_elem?, replicate,
}
use nextnucleus.Vm.Types.{int, success}
use nextnucleus.Vm.Text.{uid, ident_set_str}
use nextnucleus.Vm.Table.Fields.{FieldAt}
use nextnucleus.Vm.Text.Compare.{IsText}
use nextnucleus.Vm.Table.{
  FieldInfo, ArchetypeEntry, FieldEntry, TableManager, entity_index, entity_chunk, entity_build,
  create, insert_fields, insert_archetype, archetype_entry_size, table_entry_capacity, find,
}
use nextnucleus.Vm.Table.Entity.{entity_build_lem}
use nextnucleus.Vm.Table.Names.{IsValid, find_lem}
use nextnucleus.Vm.Table.Create.{create_lem, find-create}

entity_build_lem_example :
    (entity_build 2 7 ≢ 0)
    × (entity_chunk (entity_build 2 7) ≡ 2)
    × (entity_index (entity_build 2 7) ≡ 7)
entity_build_lem_example = entity_build_lem 2 7 (omega arith) (omega arith) (omega arith)

-- A manager with room for one archetype and one field.
abbrev empty : TableManager
empty = record {
  archetype_capacity = 1;
  field_capacity = 1;
  chunk_capacity = 0;
  archetype_count = 0;
  field_count = 0;
  first_archetype = 0;
  free_chunk = 0;
  archetypes =
      record {
        capacity = 0;
        entry_size = 0;
        first_chunk = 0;
        first_field_offset = 0;
        field_count = 0;
        next = 0;
        name = replicate 32 0;
      }
      ∷ [];
  fields = record { primitive = int; archetype = 0; name = replicate 32 0 } ∷ [];
  chunks = [];
  bytes = [];
}

none-some {ℓ} : {A : Type ℓ} {a : A} → none ≢ some a
none-some h = cc

get_elem?-one {ℓ κ} :
    {A : Type ℓ} {a b : A} (i : ℕ) (P : A → Type κ) → P a → get_elem? (a ∷ []) i ≡ some b → P b
get_elem?-one {a} {b} zero P p h = (let e : a ≡ b = cc in subst P e p)
get_elem?-one (suc i) P p h = absurd (none-some h)

empty-IsValid : IsValid empty []
empty-IsValid = record {
  count = refl;
  first = refl;
  room = omega arith;
  small = omega arith;
  sized = refl;
  named = tt;
  fields_room = omega arith;
  fields_small = omega arith;
  fields_sized = refl;
  field_names = λ i f h. get_elem?-one i (λ (f : FieldEntry). length f.name ≡ 32) refl h;
  names = λ i e h. get_elem?-one i (λ (e : ArchetypeEntry). length e.name ≡ 32) refl h;
}

find_lem_example : find empty 5 ≡ some 0
find_lem_example = find_lem empty [] 5 empty-IsValid

-- The manager with an archetype `a` without fields.
abbrev created : TableManager
created = record empty {
  archetype_count = 1;
  first_archetype = 1;
  archetypes =
      record {
        capacity = 682;
        entry_size = 0;
        first_chunk = 0xffff;
        first_field_offset = 0;
        field_count = 0;
        next = 0;
        name = 97 ∷ (replicate 30 0 ++ 1 ∷ []);
      }
      ∷ [];
}

a-IsText : IsText (97 ∷ [])
a-IsText = ((omega arith, omega arith), tt)

uid_runs : uid (97 ∷ []) ≡ some 0xe40c292c
unfolding uid
uid_runs = refl

create_runs : create empty (97 ∷ []) [] 0 ≡ some (created, 1, success)
unfolding create insert_fields insert_archetype archetype_entry_size table_entry_capacity
    ident_set_str
create_runs = refl

create_lem_example :
    (m' : TableManager) × (create empty (97 ∷ []) [] 0 ≡ some (m', 1, success))
    × IsValid m' (0xe40c292c ∷ [])
    × (m'.field_count ≡ 0 + 0)
    × ((j : ℕ) → j < 0 → get_elem? m'.fields j ≡ get_elem? empty.fields j)
    × ((i : ℕ) (info : FieldInfo)
        → i < 0
        → get_elem? [] i ≡ some info
        → FieldAt m'.fields (0 + i) info)
create_lem_example =
    create_lem empty [] (97 ∷ []) [] 0 0xe40c292c empty-IsValid a-IsText (omega arith) uid_runs tt
      (omega arith) (omega arith) (omega arith)

find-create_example :
    (find created 0xe40c292c ≡ some 1) × ((w : ℕ) → w ≢ 0xe40c292c → find created w ≡ find empty w)
find-create_example =
    find-create empty [] (97 ∷ []) [] 0 0xe40c292c empty-IsValid a-IsText (omega arith) uid_runs tt
      (omega arith) (omega arith) (omega arith) create_runs
